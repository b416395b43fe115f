-- ===== src/Shared/Deprovision/Keeps.antt =====
-- The release of shared components changes the statuses of the components only.
use petri_operator.Prelude.{
  String, Bool, false, ◌||◌, ◌≡◌, refl, ap, ◌∙◌, none, some, List, [], ◌∷◌, ◌==◌, inl, inr,
  Bool-cases, Option-cases,
}
use Prim.Native.String.{◌++◌ as join}
use petri_operator.Prelude.Effects.{M, Result-cases, is_not_found}
use petri_operator.Types.{
  Environment, EnvironmentTemplate, ComponentSpec, ComponentStatus, JobScript,
}
use petri_operator.Types.Shared.{SharedComponent, ProviderSpec}
use petri_operator.Cluster.{Api, get_job, get_shared, get_provider, get_secret}
use petri_operator.Jobs.{JobState, JobPhase-cases}
use petri_operator.Jobs.Provisioner.{ProvisionOptions, shared_namespace}
use petri_operator.Renderer.{Engine}
use petri_operator.Status.{record_runtime_failure}
use petri_operator.Namespaces.{World}
use petri_operator.Environments.Teardown.{without_statuses, Keeps}
use petri_operator.Shared.Provision.{Provisioner, binding_name}
use petri_operator.Shared.Deprovision.{
  is_running, job_of, clear_secrets, clear_provision, clear_all, judge, prepare, release_scripted,
  release_idle, release_found, release_shared, release_all, deprovision_shared,
}

abbrev pub with_statuses : Environment → List ComponentStatus → Environment
with_statuses env statuses =
    let s = env.status in record env { status = record s { components = statuses } }

-- The environment changes in the statuses of its components only.
abbrev pub IsStatusOnly : {A : Type 0} → M World A → Type 0
IsStatusOnly m = (w : World) → (m w).1.env ≡ with_statuses w.env (m w).1.env.status.components

module _ (api : Api) (live : Bool) (hex_digest : String → String) (engine : Engine)
    (provisioner : Provisioner) where
  judge-IsStatusOnly :
      (env : Environment) (target_ns : String) (c : ComponentSpec) (opts : ProvisionOptions)
      (st : JobState)
      → IsStatusOnly (judge api live hex_digest engine provisioner env target_ns c opts st)
  unfolding judge
  judge-IsStatusOnly env target_ns c opts st w =
      let again = Result-cases (provisioner.submit_undo opts w.log).0 in
      elim (JobPhase-cases st.phase) [
        | inl e ↦
            elim (Result-cases
              (clear_all api live hex_digest engine provisioner env target_ns c w.log).0) [
                | inl (tt, f) ↦ rw (e, f) refl
                | inr (x, f) ↦ rw (e, f) refl
              ]
        | inr (inl e) ↦ rw e refl
        | inr (inr (inl e)) ↦ elim again [
          | inl (tt, f) ↦ rw (e, f) refl
          | inr (x, f) ↦ rw (e, f) refl
        ]
        | inr (inr (inr e)) ↦
            let failure =
              record_runtime_failure c.name (join "deprovision: " st.reason)
                w.env.status.components in
            elim (Bool-cases failure.1) [
              | inl last ↦
                  elim (Result-cases
                    (clear_secrets api live hex_digest engine provisioner env target_ns c
                      w.log).0) [
                        | inl (tt, f) ↦ rw (e, last, f) refl
                        | inr (x, f) ↦ rw (e, last, f) refl
                      ]
              | inr more ↦ elim again [
                | inl (tt, f) ↦ rw (e, more, f) refl
                | inr (x, f) ↦ rw (e, more, f) refl
              ]
            ]
      ]

  release_scripted-IsStatusOnly :
      (env : Environment) (target_ns : String) (c : ComponentSpec) (sc : SharedComponent)
      (scp : ProviderSpec) (script : JobScript)
      → IsStatusOnly
          (release_scripted api live hex_digest engine provisioner env target_ns c sc scp script)
  unfolding release_scripted
  release_scripted-IsStatusOnly env target_ns c sc scp script w =
      let asked = get_secret target_ns (binding_name env c.name) ∷ w.log in
      elim (Result-cases (api.secret_at target_ns (binding_name env c.name) w.log)) [
        | inr (x, e) ↦ elim (Bool-cases (is_not_found x)) [
          | inl f ↦ rw (e, f) refl
          | inr f ↦ rw (e, f) refl
        ]
        | inl (entries, e) ↦
            let made =
              prepare api live hex_digest engine provisioner env c sc scp script entries asked in
            elim (Result-cases made.0) [
              | inr (x, f) ↦ rw (e, f) refl
              | inl (opts, f) ↦
                  let seen = provisioner.observe_undo opts made.1 in
                  elim (Result-cases seen.0) [
                    | inr (x, g) ↦ rw (e, f, g) refl
                    | inl (st, g) ↦
                        rw (e, f, g)
                          (judge-IsStatusOnly env target_ns c opts st (record w { log = seen.1 }))
                  ]
            ]
      ]

  release_idle-IsStatusOnly :
      (env : Environment) (target_ns : String) (c : ComponentSpec) (sc : SharedComponent)
      (scp : ProviderSpec)
      → IsStatusOnly (release_idle api live hex_digest engine provisioner env target_ns c sc scp)
  unfolding release_idle
  release_idle-IsStatusOnly env target_ns c sc scp w = elim (Option-cases scp.deprovision) [
    | inr (script, e) ↦
        rw (e, release_idle) (release_scripted-IsStatusOnly env target_ns c sc scp script w)
    | inl e ↦
        elim (Result-cases
          (clear_provision api live hex_digest engine provisioner env target_ns c w.log).0) [
            | inl (tt, f) ↦ rw (e, f) refl
            | inr (x, f) ↦ rw (e, f) refl
          ]
  ]

  release_found-IsStatusOnly :
      (env : Environment) (target_ns : String) (c : ComponentSpec) (sc : SharedComponent)
      (scp : ProviderSpec)
      → IsStatusOnly (release_found api live hex_digest engine provisioner env target_ns c sc scp)
  unfolding release_found
  release_found-IsStatusOnly env target_ns c sc scp w =
      let name = job_of api live hex_digest engine provisioner env c in
      let idle =
        release_idle-IsStatusOnly env target_ns c sc scp
          (record w { log = get_job live shared_namespace name ∷ w.log }) in
      elim (Result-cases (api.job_at live shared_namespace name w.log)) [
        | inr (x, e) ↦ elim (Bool-cases (is_not_found x)) [
          | inl f ↦ rw (e, f) idle
          | inr f ↦ rw (e, f) refl
        ]
        | inl (job, e) ↦ elim (Bool-cases (job.deleting || is_running job)) [
          | inl f ↦ rw (e, f) refl
          | inr f ↦ rw (e, f) idle
        ]
      ]

  pub release_shared-IsStatusOnly :
      (env : Environment) (target_ns : String) (c : ComponentSpec)
      → IsStatusOnly (release_shared api live hex_digest engine provisioner env target_ns c)
  unfolding release_shared
  release_shared-IsStatusOnly env target_ns c w =
      let asked = get_shared false env.namespace c.shared_component_ref ∷ w.log in
      elim (Result-cases (api.shared_at false env.namespace c.shared_component_ref w.log)) [
        | inr (x, e) ↦ elim (Bool-cases (is_not_found x)) [
          | inl f ↦ rw (e, f) refl
          | inr f ↦ rw (e, f) refl
        ]
        | inl (sc, e) ↦
            let provided = get_provider env.namespace sc.spec.provider ∷ asked in
            elim (Result-cases (api.provider_at env.namespace sc.spec.provider asked)) [
              | inr (x, f) ↦ elim (Bool-cases (is_not_found x)) [
                | inl g ↦ rw (e, f, g) refl
                | inr g ↦ rw (e, f, g) refl
              ]
              | inl (scp, f) ↦
                  rw (e, f)
                    (release_found-IsStatusOnly env target_ns c sc scp
                      (record w { log = provided }))
            ]
      ]

  status_only_trans :
      (a b d : Environment)
      → a ≡ with_statuses b a.status.components
      → b ≡ with_statuses d b.status.components
      → a ≡ with_statuses d a.status.components
  status_only_trans a b d e f = e ∙ ap (λ (x : Environment). with_statuses x a.status.components) f

  pub release_all-IsStatusOnly :
      (target_ns : String) (cs : List ComponentSpec)
      → IsStatusOnly (release_all api live hex_digest engine provisioner target_ns cs)
  unfolding release_all
  release_all-IsStatusOnly target_ns [] w = refl
  release_all-IsStatusOnly target_ns (c ∷ cs) w = elim (Bool-cases (c.shared_component_ref == "")) [
    | inl own ↦ rw own (release_all-IsStatusOnly target_ns cs w)
    | inr shared ↦
        let one = release_shared api live hex_digest engine provisioner w.env target_ns c w in
        let kept = release_shared-IsStatusOnly w.env target_ns c w in
        elim (Result-cases one.0) [
          | inr (x, e) ↦ rw (shared, e) kept
          | inl (some later, e) ↦ rw (shared, e) kept
          | inl (none, e) ↦
              rw (shared, e)
                (status_only_trans
                  (release_all api live hex_digest engine provisioner target_ns cs one.1).1.env
                  one.1.env w.env (release_all-IsStatusOnly target_ns cs one.1) kept)
        ]
  ]

  -- All but the statuses stays, so that `reconcileDelete` may run it.
  pub deprovision_shared-Keeps :
      (target_ns : String) (template : EnvironmentTemplate)
      → Keeps (deprovision_shared api live hex_digest engine provisioner target_ns template)
  unfolding deprovision_shared
  deprovision_shared-Keeps target_ns template w =
      ap without_statuses (release_all-IsStatusOnly target_ns template.components w)
