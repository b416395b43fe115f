-- ===== src/SharedComponents/Reconcile/Ready.antt =====
-- What the state of a shared component rests on after a pass.
use petri_operator.Prelude.{
  ℕ, String, Bool, true, false, ◌≡◌, ◌≢◌, refl, subst, sym, none, some, arith, inl, inr, ◌⊎◌, ◌∷◌,
  Bool-cases, Option-cases, if◌then◌else◌,
}
use Prim.Native.String.{◌++◌}
use petri_operator.Prelude.Effects.{
  Err, Result, ok, err, Result-cases, is_not_found, ok-injective, fail,
}
use petri_operator.Types.{HelmSpec}
use petri_operator.Types.Shared.{SharedComponent, ProviderSpec}
use petri_operator.Cluster.{Log, Api, get_provider}
use petri_operator.Platform.{Platform}
use petri_operator.Jobs.{DeployOptions, JobPhase, JobState, JobPhase-cases}
use petri_operator.Jobs.Provisioner.{shared_namespace}
use petri_operator.Status.{requeue_after}
use petri_operator.Environments.{join}
use petri_operator.Deploys.{Deployer}
use petri_operator.Shared.{shared_label}
use petri_operator.SharedComponents.{count_consumers}
use petri_operator.SharedComponents.Instance.{create_shared_namespace, ensure_instance_secret}
use petri_operator.SharedComponents.Reconcile.{
  SharedWorld, install_opts, wait, report, deploy, body, patch, reconcile,
}

join_ok : (r : Result ℕ) (sent : Result (Unit {0})) (t : ℕ) → join r sent ≡ ok t → r ≡ ok t
join_ok r (ok _) t h = h
join_ok (ok u) (err e) t h = absurd (ground arith)
join_ok (err x) (err e) t h = absurd (ground arith)

module _ (api : Api) (p : Platform) (live : Bool) (service_account : String)
    (deployer : Deployer) where
  -- The provider has a chart, and the deploy Job of the instance was observed in this state.
  abbrev pub IsObserved : SharedComponent → Log → JobState → Type 0
  IsObserved sc log st =
      (scp : ProviderSpec) × ((helm : HelmSpec) × ((log' : Log) × (api.provider_at sc.namespace
              sc.spec.provider log
            ≡ ok scp)
          × (scp.helm ≡ some helm)
          × ((deployer.observe (install_opts sc helm) log').0 ≡ ok st)))

  -- Why a component is not ready.
  abbrev pub IsPending : SharedComponent → Log → Type 0
  IsPending sc log =
      ((e : Err) × (api.provider_at sc.namespace sc.spec.provider log ≡ err e)
        × (is_not_found e ≡ true))
      ⊎ ((scp : ProviderSpec) × (api.provider_at sc.namespace sc.spec.provider log ≡ ok scp)
          × (scp.helm ≡ none))
      ⊎ ((st : JobState) × IsObserved sc log st × (st.phase ≢ JobPhase.succeeded))

  -- The component is ready on a success, and not ready for a reason.
  abbrev pub IsReported : SharedComponent → Log → Bool → Type 0
  IsReported sc log ready =
      ((ready ≡ true) × ((st : JobState) × IsObserved sc log st × (st.phase ≡ JobPhase.succeeded)))
      ⊎ ((ready ≡ false) × IsPending sc log)

  report_ok :
      (opts : DeployOptions) (sc : SharedComponent) (st : JobState) (w : SharedWorld) (t : ℕ)
      → (report api p live service_account deployer opts sc st w).0 ≡ ok t
      → let ready = (report api p live service_account deployer opts sc st w).1.sc.status.ready in
        (t ≡ requeue_after)
        × (((ready ≡ true) × (st.phase ≡ JobPhase.succeeded))
            ⊎ ((ready ≡ false) × (st.phase ≢ JobPhase.succeeded)))
  unfolding report count_consumers
  report_ok opts sc st w t h = elim (JobPhase-cases st.phase) [
    | inl e ↦ elim (Result-cases (api.labelled_of live (shared_label sc.name) w.log)) [
      | inl (nss, f) ↦ rw (e, f) (sym (ok-injective (rw (e, f) at h)), inl (refl, refl))
      | inr (x, f) ↦ absurd (ground (arith, rw (e, f) at h))
    ]
    | inr (inl e) ↦ rw e (sym (ok-injective (rw e at h)), inr (refl, λ x. cc))
    | inr (inr (inl e)) ↦ elim (Result-cases (deployer.submit opts w.log).0) [
      | inl (tt, f) ↦ rw (e, f) (sym (ok-injective (rw (e, f) at h)), inr (refl, λ x. cc))
      | inr (x, f) ↦ absurd (ground (arith, rw (e, f) at h))
    ]
    | inr (inr (inr e)) ↦ elim (Result-cases (deployer.submit opts w.log).0) [
      | inl (tt, f) ↦ rw (e, f) (sym (ok-injective (rw (e, f) at h)), inr (refl, λ x. cc))
      | inr (x, f) ↦ absurd (ground (arith, rw (e, f) at h))
    ]
  ]

  deploy_ok :
      (sc : SharedComponent) (scp : ProviderSpec) (helm : HelmSpec) (w : SharedWorld) (log : Log)
      (t : ℕ)
      → api.provider_at sc.namespace sc.spec.provider log ≡ ok scp
      → scp.helm ≡ some helm
      → (deploy api p live service_account deployer sc scp helm w).0 ≡ ok t
      → (t ≡ requeue_after)
        × IsReported sc log
            (deploy api p live service_account deployer sc scp helm w).1.sc.status.ready
  unfolding deploy
  deploy_ok sc scp helm w log t read chart h =
      let named = create_shared_namespace api service_account shared_namespace w.log in
      elim (Result-cases named.0) [
        | inr (x, e) ↦ absurd (ground (arith, rw e at h))
        | inl (tt, e) ↦
            let stored = ensure_instance_secret api scp.instance_secret named.1 in
            elim (Result-cases stored.0) [
              | inr (x, f) ↦ absurd (ground (arith, rw (e, f) at h))
              | inl (tt, f) ↦
                  let opts = install_opts sc helm in
                  let seen = deployer.observe opts stored.1 in
                  elim (Result-cases seen.0) [
                    | inr (x, g) ↦ absurd (ground (arith, rw (e, f, g) at h))
                    | inl (st, g) ↦
                        let evidence : IsObserved sc log st =
                          (scp, (helm, (stored.1, read, chart, g))) in
                        let (later, told) =
                          report_ok opts sc st (record w { log = seen.1 }) t (rw (e, f, g) at h) in
                        rw (e, f, g)
                          (
                            later,
                            elim told [
                              | inl (yes', done) ↦ inl (yes', (st, evidence, done))
                              | inr (no', open') ↦ inr (no', inr (inr (st, evidence, open')))
                            ],
                          )
                  ]
            ]
      ]

  -- The world after the read of the provider.
  abbrev asked : SharedWorld → SharedWorld
  asked w = let sc = w.sc in record w { log = get_provider sc.namespace sc.spec.provider ∷ w.log }

  body_missing :
      (w : SharedWorld) (e : Err)
      → api.provider_at w.sc.namespace w.sc.spec.provider w.log ≡ err e
      → (body api p live service_account deployer w
          ≡ (if is_not_found e
                then wait api p live service_account deployer false "ProviderNotFound"
                    ("provider" ++ (w.sc.spec.provider ++ " not found"))
                else fail e)
              (asked w))
  unfolding body
  body_missing w e f = rw (f, body) refl

  body_bare :
      (w : SharedWorld) (scp : ProviderSpec)
      → api.provider_at w.sc.namespace w.sc.spec.provider w.log ≡ ok scp
      → scp.helm ≡ none
      → body api p live service_account deployer w
        ≡ wait api p live service_account deployer false "ProviderNoHelm"
            ("no helm provided for " ++ w.sc.spec.provider)
            (asked w)
  unfolding body
  body_bare w scp f g = rw (f, g, body) refl

  body_chart :
      (w : SharedWorld) (scp : ProviderSpec) (helm : HelmSpec)
      → api.provider_at w.sc.namespace w.sc.spec.provider w.log ≡ ok scp
      → scp.helm ≡ some helm
      → body api p live service_account deployer w
        ≡ deploy api p live service_account deployer w.sc scp helm (asked w)
  unfolding body
  body_chart w scp helm f g = rw (f, g, body) refl

  body_ok :
      (w : SharedWorld) (t : ℕ)
      → (body api p live service_account deployer w).0 ≡ ok t
      → (t ≡ requeue_after)
        × IsReported w.sc w.log (body api p live service_account deployer w).1.sc.status.ready
  body_ok w t h = elim (Result-cases (api.provider_at w.sc.namespace w.sc.spec.provider w.log)) [
    | inr (x, e) ↦
        let same = body_missing w x e in
        elim (Bool-cases (is_not_found x)) [
          | inr f ↦ absurd (ground (arith, rw (same, f) at h))
          | inl f ↦ rw (same, f) (sym (ok-injective (rw (same, f) at h)), inr (refl, inl (x, e, f)))
        ]
    | inl (scp, e) ↦ elim (Option-cases scp.helm) [
      | inl f ↦
          let same = body_bare w scp e f in
          rw same (sym (ok-injective (rw same at h)), inr (refl, inr (inl (scp, e, f))))
      | inr (helm, f) ↦
          let same = body_chart w scp helm e f in
          rw same (deploy_ok w.sc scp helm (asked w) w.log t e f (rw same at h))
    ]
  ]

  patch_keeps :
      (original : SharedComponent) (w : SharedWorld)
      → (patch api p live service_account deployer original w).1.sc ≡ w.sc
  patch_keeps original w = elim (Bool-cases (p.shared_equal original w.sc)) [
    | inl e ↦ rw e refl
    | inr e ↦ rw e refl
  ]

  -- A pass over a shared component that succeeds asks for another one in ten seconds. It leaves the
  -- component ready if the deploy Job of the provider's chart was observed to succeed; otherwise it
  -- leaves the component not ready, because the provider is missing or has no chart, or because the
  -- Job was observed in another state.
  pub reconcile-IsReported :
      (w : SharedWorld) (t : ℕ)
      → (reconcile api p live service_account deployer w).0 ≡ ok t
      → (t ≡ requeue_after)
        × IsReported w.sc w.log (reconcile api p live service_account deployer w).1.sc.status.ready
  unfolding reconcile
  reconcile-IsReported w t h =
      let done = body api p live service_account deployer w in
      let sent = patch api p live service_account deployer w.sc done.1 in
      let (later, told) = body_ok w t (join_ok done.0 sent.0 t h) in
      (
        later,
        subst (λ (sc : SharedComponent). IsReported w.sc w.log sc.status.ready)
            (sym (patch_keeps w.sc done.1)) told,
      )
