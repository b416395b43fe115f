-- ===== src/Shared/Deprovision/Released.antt =====
-- A release that is done has one of its grounds.
use petri_operator.Prelude.{
  String, Bool, false, ◌||◌, ◌≡◌, sym, ap, subst, none, ◌∷◌, arith, inl, inr, Bool-cases,
  Option-cases, Map, at,
}
use Prim.Native.String.{◌++◌ as join}
use petri_operator.Prelude.Effects.{ok, Result-cases, is_not_found}
use petri_operator.Types.{Environment, ComponentSpec, JobScript}
use petri_operator.Types.Shared.{SharedComponent, ProviderSpec}
use petri_operator.Cluster.{Log, Api, get_job, get_shared, get_provider, get_secret}
use petri_operator.Jobs.{JobState, JobPhase-cases}
use petri_operator.Jobs.Provisioner.{ProvisionOptions, shared_namespace}
use petri_operator.Renderer.{Engine}
use petri_operator.Status.{record_runtime_failure}
use petri_operator.Namespaces.{World}
use petri_operator.Shared.{generated_secret_key}
use petri_operator.Shared.Provision.Options.{render_provision_options_ok}
use petri_operator.Shared.Provision.{
  Provisioner, binding_name, credentials_name, ensure_provision_secret, read_instance,
}
use petri_operator.Shared.Deprovision.{
  is_running, job_of, clear_secrets, clear_provision, clear_all, judge, prepare, release_scripted,
  release_idle, release_found, release_shared,
}
use petri_operator.Shared.Deprovision.Cleared.{
  clear_secrets_lem, clear_provision_lem, clear_all_lem, answered,
}
use petri_operator.Shared.Deprovision.Grounds.{
  after, IsIdle, IsAbout, IsConcluded, IsUndone, IsTakenBack, IsReleased,
}

module _ (api : Api) (live : Bool) (hex_digest : String → String) (engine : Engine)
    (provisioner : Provisioner) (target_ns : String) (env : Environment) (c : ComponentSpec) where
  judge-none :
      (opts : ProvisionOptions) (st : JobState) (w w' : World)
      → judge api live hex_digest engine provisioner env target_ns c opts st w ≡ (ok none, w')
      → IsConcluded api live hex_digest engine provisioner target_ns env c st w w'
  unfolding judge
  judge-none opts st w w' h =
      let again = Result-cases (provisioner.submit_undo opts w.log).0 in
      let all = clear_all api live hex_digest engine provisioner env target_ns c w.log in
      let some_of = clear_secrets api live hex_digest engine provisioner env target_ns c w.log in
      elim (JobPhase-cases st.phase) [
        | inl e ↦ elim (Result-cases all.0) [
          | inl (tt, f) ↦ (
            all.1,
            inl (
              e,
              clear_all_lem api live hex_digest engine provisioner target_ns env c w.log all.1
                  (answered all tt f),
              sym (ap (λ r. r.1) (rw (e, f) at h)),
            ),
          )
          | inr (x, f) ↦ absurd (ground (arith, ap (λ r. r.0) (rw (e, f) at h)))
        ]
        | inr (inl e) ↦ absurd (ground (arith, ap (λ r. r.0) (rw e at h)))
        | inr (inr (inl e)) ↦ elim again [
          | inl (tt, f) ↦ absurd (ground (arith, ap (λ r. r.0) (rw (e, f) at h)))
          | inr (x, f) ↦ absurd (ground (arith, ap (λ r. r.0) (rw (e, f) at h)))
        ]
        | inr (inr (inr e)) ↦
            let statuses = w.env.status.components in
            let failure = record_runtime_failure c.name (join "deprovision: " st.reason) statuses in
            elim (Bool-cases failure.1) [
              | inl last ↦ elim (Result-cases some_of.0) [
                | inl (tt, f) ↦ (
                  some_of.1,
                  inr (
                    e,
                    last,
                    clear_secrets_lem api live hex_digest engine provisioner target_ns env c w.log
                        some_of.1 (answered some_of tt f),
                    sym (ap (λ r. r.1) (rw (e, last, f) at h)),
                  ),
                )
                | inr (x, f) ↦ absurd (ground (arith, ap (λ r. r.0) (rw (e, last, f) at h)))
              ]
              | inr more ↦ elim again [
                | inl (tt, f) ↦ absurd (ground (arith, ap (λ r. r.0) (rw (e, more, f) at h)))
                | inr (x, f) ↦ absurd (ground (arith, ap (λ r. r.0) (rw (e, more, f) at h)))
              ]
            ]
      ]

  prepare-IsAbout :
      (sc : SharedComponent) (scp : ProviderSpec) (script : JobScript) (entries : Map String)
      (log : Log) (opts : ProvisionOptions)
      → (prepare api live hex_digest engine provisioner env c sc scp script entries log).0 ≡ ok opts
      → IsAbout api live hex_digest engine provisioner target_ns env c sc opts
  unfolding prepare
  prepare-IsAbout sc scp script entries log opts h =
      let generated = at "" entries generated_secret_key in
      let name = credentials_name hex_digest env c.name in
      let first = ensure_provision_secret api name env.name generated log in
      let second = read_instance api scp.instance_secret first.1 in
      elim (Result-cases first.0) [
        | inr (x, e) ↦ absurd (ground (arith, rw e at h))
        | inl (tt, e) ↦ elim (Result-cases second.0) [
          | inr (x, f) ↦ absurd (ground (arith, rw (e, f) at h))
          | inl (keys, f) ↦
              render_provision_options_ok hex_digest engine env c sc script generated keys opts
                (rw (e, f) at h)
        ]
      ]

  release_scripted-none :
      (sc : SharedComponent) (scp : ProviderSpec) (script : JobScript) (w w' : World)
      → release_scripted api live hex_digest engine provisioner env target_ns c sc scp script w
        ≡ (ok none, w')
      → IsUndone api live hex_digest engine provisioner target_ns env c sc scp script w w'
  unfolding release_scripted
  release_scripted-none sc scp script w w' h =
      let name = binding_name env c.name in
      let asked = get_secret target_ns name ∷ w.log in
      elim (Result-cases (api.secret_at target_ns name w.log)) [
        | inr (x, e) ↦ elim (Bool-cases (is_not_found x)) [
          | inl f ↦ inl ((x, e, f), sym (ap (λ r. r.1) (rw (e, f) at h)))
          | inr f ↦ absurd (ground (arith, ap (λ r. r.0) (rw (e, f) at h)))
        ]
        | inl (entries, e) ↦
            let made =
              prepare api live hex_digest engine provisioner env c sc scp script entries asked in
            elim (Result-cases made.0) [
              | inr (x, f) ↦ absurd (ground (arith, ap (λ r. r.0) (rw (e, f) at h)))
              | inl (opts, f) ↦
                  let seen = provisioner.observe_undo opts made.1 in
                  elim (Result-cases seen.0) [
                    | inr (x, g) ↦ absurd (ground (arith, ap (λ r. r.0) (rw (e, f, g) at h)))
                    | inl (st, g) ↦
                        let prepared = prepare-IsAbout sc scp script entries asked opts f in
                        let ends = judge-none opts st (after w seen.1) w' (rw (e, f, g) at h) in
                        inr (
                          entries,
                          (
                            opts,
                            (
                              made.1,
                              (
                                st,
                                (
                                  seen.1,
                                  e,
                                  answered made opts f,
                                  prepared,
                                  answered seen st g,
                                  ends,
                                ),
                              ),
                            ),
                          ),
                        )
                  ]
            ]
      ]

  release_idle-none :
      (sc : SharedComponent) (scp : ProviderSpec) (w w' : World)
      → release_idle api live hex_digest engine provisioner env target_ns c sc scp w ≡ (ok none, w')
      → IsTakenBack api live hex_digest engine provisioner target_ns env c sc scp scp.deprovision w
          w'
  unfolding release_idle
  release_idle-none sc scp w w' h = elim (Option-cases scp.deprovision) [
    | inr (script, e) ↦
        subst
          (λ x. IsTakenBack api live hex_digest engine provisioner target_ns env c sc scp x w w')
          (sym e) (release_scripted-none sc scp script w w' (rw (e, release_idle) at h))
    | inl e ↦
        let cleared =
          clear_provision api live hex_digest engine provisioner env target_ns c w.log in
        subst
          (λ x. IsTakenBack api live hex_digest engine provisioner target_ns env c sc scp x w w')
          (sym e)
          (elim (Result-cases cleared.0) [
            | inl (tt, f) ↦ (
              cleared.1,
              clear_provision_lem api live hex_digest engine provisioner target_ns env c w.log
                  cleared.1 (answered cleared tt f),
              sym (ap (λ r. r.1) (rw (e, f) at h)),
            )
            | inr (x, f) ↦ absurd (ground (arith, ap (λ r. r.0) (rw (e, f) at h)))
          ])
  ]

  release_found-none :
      (sc : SharedComponent) (scp : ProviderSpec) (w w' : World)
      → release_found api live hex_digest engine provisioner env target_ns c sc scp w
        ≡ (ok none, w')
      → let name = job_of api live hex_digest engine provisioner env c in
        IsIdle api live hex_digest engine provisioner target_ns env c w.log
        × IsTakenBack api live hex_digest engine provisioner target_ns env c sc scp scp.deprovision
            (after w (get_job live shared_namespace name ∷ w.log))
            w'
  unfolding release_found
  release_found-none sc scp w w' h =
      let name = job_of api live hex_digest engine provisioner env c in
      let next = after w (get_job live shared_namespace name ∷ w.log) in
      elim (Result-cases (api.job_at live shared_namespace name w.log)) [
        | inr (x, e) ↦ elim (Bool-cases (is_not_found x)) [
          | inl f ↦ (inl (x, e, f), release_idle-none sc scp next w' (rw (e, f) at h))
          | inr f ↦ absurd (ground (arith, ap (λ r. r.0) (rw (e, f) at h)))
        ]
        | inl (job, e) ↦ elim (Bool-cases (job.deleting || is_running job)) [
          | inl f ↦ absurd (ground (arith, ap (λ r. r.0) (rw (e, f) at h)))
          | inr f ↦ (
            inr (job, e, ground (arith, f), ground (arith, f)),
            release_idle-none sc scp next w' (rw (e, f) at h),
          )
        ]
      ]

  pub release_shared-none :
      (w w' : World)
      → release_shared api live hex_digest engine provisioner env target_ns c w ≡ (ok none, w')
      → IsReleased api live hex_digest engine provisioner target_ns env c w w'
  unfolding release_shared
  release_shared-none w w' h =
      let first = get_shared false env.namespace c.shared_component_ref ∷ w.log in
      elim (Result-cases (api.shared_at false env.namespace c.shared_component_ref w.log)) [
        | inr (x, e) ↦ elim (Bool-cases (is_not_found x)) [
          | inl f ↦ inl ((x, e, f), sym (ap (λ r. r.1) (rw (e, f) at h)))
          | inr f ↦ absurd (ground (arith, ap (λ r. r.0) (rw (e, f) at h)))
        ]
        | inl (sc, e) ↦
            let second = get_provider env.namespace sc.spec.provider ∷ first in
            elim (Result-cases (api.provider_at env.namespace sc.spec.provider first)) [
              | inr (x, f) ↦ elim (Bool-cases (is_not_found x)) [
                | inl g ↦ inr (sc, e, inl ((x, f, g), sym (ap (λ r. r.1) (rw (e, f, g) at h))))
                | inr g ↦ absurd (ground (arith, ap (λ r. r.0) (rw (e, f, g) at h)))
              ]
              | inl (scp, f) ↦
                  let (idle, back) =
                    release_found-none sc scp (after w second) w' (rw (e, f) at h) in
                  inr (sc, e, inr (scp, f, idle, back))
            ]
      ]
