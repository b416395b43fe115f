-- ===== src/Environments/Teardown/Finalizer.antt =====
-- When an environment that is being deleted loses its finalizer.
use petri_operator.Prelude.{
  ℕ, String, Bool, true, false, not, ◌&&◌, ◌≡◌, refl, sym, ap, ◌∙◌, ◌⊎◌, inl, inr, ◌∷◌, ◌==◌, arith,
  eq_iff, Bool-cases,
}
use petri_operator.Prelude.Effects.{
  Err, Result, M, ok, err, ignore_not_found, is_not_found, Result-cases,
}
use petri_operator.Types.{Environment, EnvironmentTemplate, Namespace, terminating}
use petri_operator.Cluster.{Log, Api, get_namespace, get_template}
use petri_operator.Platform.{Platform}
use petri_operator.Namespaces.{
  World, Reconciler, owns_namespace, target_namespace, namespace_bound,
  ensure_deployer_role_binding,
}
use petri_operator.Environments.{finalizer, cleanup_complete}
use petri_operator.Environments.Teardown.{
  Cleanup, deprovision, undeploy, not_managed, clean, tear_down, drop_namespace, no_namespace,
  some_namespace, with_target, body, settle, finish, reconcile_delete,
}

module _ (api : Api) (p : Platform) (r : Reconciler) (cleanup : Cleanup) where
  abbrev pub IsKept : World → Result ℕ × World → Type 0
  IsKept w result = result.1.env.finalizers ≡ w.env.finalizers

  abbrev is_bound : Environment → Bool
  is_bound env = p.is_condition_true env.status.conditions namespace_bound

  abbrev is_complete : Environment → Bool
  is_complete env = p.is_condition_true env.status.conditions cleanup_complete

  abbrev KeepsFinalizers : {A : Type 0} → M World A → Type 0
  KeepsFinalizers m = (w : World) → (m w).1.env.finalizers ≡ w.env.finalizers

  -- The grounds on which the finalizer may go, by the state of the environment and what the API
  -- answers after the calls of a log.
  pub data IsReleasable (env : Environment) (log : Log) : Type 0 where
    no_target : env.status.target_namespace ≡ "" → IsReleasable env log
    missing :
        {name : String} {e : Err}
        → target_namespace api p r env ≡ ok name
        → api.namespace_at r.has_reader name log ≡ err e
        → is_not_found e ≡ true
        → (is_complete env ≡ true) ⊎ (is_bound env ≡ false)
        → IsReleasable env log
    foreign :
        {name : String} {ns : Namespace}
        → target_namespace api p r env ≡ ok name
        → api.namespace_at r.has_reader name log ≡ ok ns
        → owns_namespace env ns ≡ false
        → is_bound env ≡ false
        → IsReleasable env log
    dropped :
        {name : String} {ns : Namespace}
        → target_namespace api p r env ≡ ok name
        → api.namespace_at r.has_reader name log ≡ ok ns
        → owns_namespace env ns ≡ true
        → is_complete env ≡ true
        → ignore_not_found tt (
            api.namespace_deleted ns.name ns.uid ns.resource_version
              (get_namespace r.has_reader name ∷ log))
          ≡ ok tt
        → IsReleasable env log

  pub settle-IsKept :
      (original : Environment) (w : World) → (settle api p r cleanup original w).1.env ≡ w.env
  unfolding settle
  settle-IsKept original w =
      let env = w.env in
      let present = p.contains_finalizer env.finalizers finalizer in
      let locked = not (is_complete original) && is_complete env in
      elim (Bool-cases present) [
        | inr gone ↦ (rw gone)
        | inl here ↦ elim (Bool-cases locked) [
          | inl strict ↦ (rw (here, strict))
          | inr loose ↦ elim (Bool-cases (p.deep_equal original env)) [
            | inl same ↦ (rw (here, loose, same))
            | inr changed ↦ (rw (here, loose, changed))
          ]
        ]
      ]

  deprovision-IsKept :
      (target_ns : String) (t : EnvironmentTemplate)
      → KeepsFinalizers (deprovision api p r cleanup target_ns t)
  unfolding deprovision finish
  deprovision-IsKept target_ns t w =
      let kept = ap (λ e. e.finalizers) (cleanup.deprovision_shared_keeps target_ns t w) in
      elim (Result-cases (cleanup.deprovision_shared target_ns t w).0) [
        | inr (x, e) ↦ rw e kept
        | inl ((true, again), e) ↦ rw e kept
        | inl ((false, again), e) ↦ rw e kept
      ]

  undeploy-IsKept :
      (target_ns : String) (t : EnvironmentTemplate)
      → KeepsFinalizers (undeploy api p r cleanup target_ns t)
  unfolding undeploy
  undeploy-IsKept target_ns t w =
      let kept = ap (λ e. e.finalizers) (cleanup.undeploy_all_keeps target_ns t w) in
      let after = (cleanup.undeploy_all target_ns t w).1 in
      elim (Result-cases (cleanup.undeploy_all target_ns t w).0) [
        | inr (x, e) ↦ rw e kept
        | inl ((true, later), e) ↦ rw e (deprovision-IsKept target_ns t after ∙ kept)
        | inl ((false, later), e) ↦ rw e kept
      ]

  clean-IsKept :
      (target_ns : String) (t : EnvironmentTemplate)
      → KeepsFinalizers (clean api p r cleanup target_ns t)
  unfolding clean
  clean-IsKept target_ns t w =
      let bind = ensure_deployer_role_binding api p r target_ns w.log in
      let next = record w { log = bind.1 } in
      elim (Result-cases (ignore_not_found tt bind.0)) [
        | inr (x, e) ↦ (rw e)
        | inl (tt, e) ↦ rw e (undeploy-IsKept target_ns t next)
      ]

  tear_down-IsKept : (target_ns : String) → KeepsFinalizers (tear_down api p r cleanup target_ns)
  unfolding tear_down finish
  tear_down-IsKept target_ns w =
      let asked = get_template w.env.namespace w.env.spec.template ∷ w.log in
      let s = w.env.status in
      let begun = record w {
        log = asked;
        env = let env = w.env in record env { status = record s { phase = terminating } };
      } in
      elim (Result-cases (api.template_at w.env.namespace w.env.spec.template w.log)) [
        | inr (x, e) ↦ elim (Bool-cases (is_not_found x)) [
          | inl lost ↦ (rw (e, lost))
          | inr broken ↦ (rw (e, broken))
        ]
        | inl (t, e) ↦ elim (Bool-cases (is_bound w.env)) [
          | inl bound ↦ rw (e, bound) (clean-IsKept target_ns t begun)
          | inr free ↦ (rw (e, free))
        ]
      ]

  some_namespace-IsKept :
      (name : String) (ns : Namespace) (log : Log) (w : World)
      → target_namespace api p r w.env ≡ ok name
      → api.namespace_at r.has_reader name log ≡ ok ns
      → w.log ≡ get_namespace r.has_reader name ∷ log
      → IsKept w (some_namespace api p r cleanup w.env name ns w) ⊎ IsReleasable w.env log
  unfolding some_namespace drop_namespace not_managed
  some_namespace-IsKept name ns log w t e l = elim (Bool-cases (owns_namespace w.env ns)) [
    | inr other ↦ elim (Bool-cases (is_bound w.env)) [
      | inl bound ↦ inl (rw (other, bound))
      | inr free ↦ inr (foreign t e other free)
    ]
    | inl own ↦ elim (Bool-cases (is_complete w.env)) [
      | inr busy ↦ inl (rw (own, busy) (tear_down-IsKept name w))
      | inl complete ↦
          elim (Result-cases (
            ignore_not_found tt (api.namespace_deleted ns.name ns.uid ns.resource_version w.log))) [
              | inr (x, f) ↦ inl (rw (own, complete, f))
              | inl (tt, f) ↦ inr (
                  dropped t e own complete (
                    ap
                      (λ l.
                        ignore_not_found tt
                          (api.namespace_deleted ns.name ns.uid ns.resource_version l))
                      (sym l)
                    ∙ f))
            ]
    ]
  ]

  body-IsKept : (w : World) → IsKept w (body api p r cleanup w) ⊎ IsReleasable w.env w.log
  unfolding body with_target no_namespace not_managed
  body-IsKept w =
      let target = w.env.status.target_namespace in
      elim (Bool-cases (target == "")) [
        | inl h ↦ inr (no_target (ground (arith, eq_iff target "")))
        | inr h ↦ elim (Result-cases (target_namespace api p r w.env)) [
          | inr (x, t) ↦ inl (rw (h, t))
          | inl (name, t) ↦ elim (Result-cases (api.namespace_at r.has_reader name w.log)) [
            | inr (x, e) ↦ elim (Bool-cases (is_not_found x)) [
              | inr broken ↦ inl (rw (h, t, e, broken))
              | inl lost ↦ elim (Bool-cases (is_complete w.env)) [
                | inl complete ↦ inr (missing t e lost (inl complete))
                | inr busy ↦ elim (Bool-cases (is_bound w.env)) [
                  | inl bound ↦ inl (rw (h, t, e, lost, busy, bound))
                  | inr free ↦ inr (missing t e lost (inr free))
                ]
              ]
            ]
            | inl (ns, e) ↦
                let read = record w { log = get_namespace r.has_reader name ∷ w.log } in
                elim (some_namespace-IsKept name ns w.log read t e refl) [
                  | inl kept ↦ inl (rw (h, t, e) kept)
                  | inr why ↦ inr why
                ]
          ]
        ]
      ]

  -- An environment that is being deleted keeps its finalizers through `reconcileDelete`, unless it
  -- has no target namespace; the namespace is missing and the cleanup is complete or the
  -- environment was never bound to it; the namespace is foreign and the environment was never
  -- bound to it; or it is the environment's own, the cleanup is complete, and the delete request
  -- for exactly the namespace that was read has succeeded or found nothing.
  pub reconcile_delete-IsKept :
      (w : World) → IsKept w (reconcile_delete api p r cleanup w) ⊎ IsReleasable w.env w.log
  unfolding reconcile_delete
  reconcile_delete-IsKept w = elim (body-IsKept w) [
    | inl kept ↦
        inl (ap (λ e. e.finalizers) (settle-IsKept w.env (body api p r cleanup w).1) ∙ kept)
    | inr why ↦ inr why
  ]
