-- ===== src/Shared/Deprovision/Grounds.antt =====
-- The grounds on which a shared component counts as released.
use petri_operator.Prelude.{String, Bool, true, false, ◌≡◌, none, some, ◌∷◌, ◌⊎◌, Option, Map}
use Prim.Native.String.{◌++◌ as join}
use petri_operator.Prelude.Effects.{ok}
use petri_operator.Types.{Environment, ComponentSpec, JobScript}
use petri_operator.Types.Shared.{SharedComponent, ProviderSpec}
use petri_operator.Cluster.{Log, Api, Job, get_job, get_shared, get_provider, get_secret}
use petri_operator.Jobs.{JobPhase, JobState}
use petri_operator.Jobs.Provisioner.{ProvisionOptions, shared_namespace}
use petri_operator.Renderer.{Engine}
use petri_operator.Status.{record_runtime_failure}
use petri_operator.Namespaces.{World}
use petri_operator.Shared.Provision.{Provisioner, binding_name}
use petri_operator.Shared.Deprovision.{is_running, job_of, prepare}
use petri_operator.Shared.Deprovision.Keeps.{with_statuses}
use petri_operator.Shared.Deprovision.Cleared.{
  IsMissing, AreSecretsCleared, IsProvisionCleared, IsAllCleared,
}

-- The world has made calls, up to this log.
abbrev pub after : World → Log → World
after w log = record w { log = log }

module _ (api : Api) (live : Bool) (hex_digest : String → String) (engine : Engine)
    (provisioner : Provisioner) (target_ns : String) (env : Environment) (c : ComponentSpec) where
  -- A read answers that there is no provision Job, or that it has ended and stays.
  abbrev pub IsIdle : Log → Type 0
  IsIdle log =
      let name = job_of api live hex_digest engine provisioner env c in
      IsMissing (api.job_at live shared_namespace name log)
      ⊎ ((job : Job) × (api.job_at live shared_namespace name log ≡ ok job)
          × (job.deleting ≡ false)
          × (is_running job ≡ false))

  -- The options are those of the environment, the component and the shared component.
  abbrev pub IsAbout : SharedComponent → ProvisionOptions → Type 0
  IsAbout sc opts =
      (opts.env_uid ≡ env.uid)
      × (opts.env_name ≡ env.name)
      × (opts.component_name ≡ c.name)
      × (opts.shared_name ≡ sc.name)

  -- The deprovision Job has succeeded and all is cleared; or it has failed, the record of that in the
  -- status uses up the retries, and the secrets are cleared.
  abbrev pub IsConcluded : JobState → World → World → Type 0
  IsConcluded st w w' =
      let failure =
        record_runtime_failure c.name (join "deprovision: " st.reason) w.env.status.components in
      (log : Log) × (((st.phase ≡ JobPhase.succeeded)
          × IsAllCleared api live hex_digest engine provisioner target_ns env c w.log log
          × (w' ≡ after w log))
        ⊎ ((st.phase ≡ JobPhase.failed)
            × (failure.1 ≡ true)
            × AreSecretsCleared api live hex_digest engine provisioner target_ns env c w.log log
            × (w' ≡ record w { env = with_statuses w.env failure.0; log = log })))

  -- There is no binding secret; or the deprovision Job for these very options is observed, once the
  -- options have been prepared, and what it says ends the release.
  abbrev pub IsUndone : SharedComponent → ProviderSpec → JobScript → World → World → Type 0
  IsUndone sc scp script w w' =
      let name = binding_name env c.name in
      let asked = get_secret target_ns name ∷ w.log in
      (IsMissing (api.secret_at target_ns name w.log) × (w' ≡ after w asked))
      ⊎ ((entries : Map String) × ((opts : ProvisionOptions) × ((prepared : Log) × ((st : JobState)
                × ((seen : Log) × (api.secret_at target_ns name w.log ≡ ok entries)
                    × (prepare api live hex_digest engine provisioner env c sc scp script entries
                          asked
                        ≡ (ok opts, prepared))
                    × IsAbout sc opts
                    × (provisioner.observe_undo opts prepared ≡ (ok st, seen))
                    × IsConcluded st (after w seen) w')))))

  -- Without a deprovision script, the provision Job and the secrets are cleared.
  abbrev pub IsTakenBack :
      SharedComponent → ProviderSpec → Option JobScript → World → World → Type 0
  IsTakenBack sc scp none w w' =
      (log : Log) × IsProvisionCleared api live hex_digest engine provisioner target_ns env c w.log
        log
      × (w' ≡ after w log)
  IsTakenBack sc scp (some script) w w' = IsUndone sc scp script w w'

  -- The grounds on which a component counts as released, with the calls made for it: the shared
  -- component or its provider is missing, or the provision Job is idle and what it gave is taken
  -- back.
  abbrev pub IsReleased : World → World → Type 0
  IsReleased w w' =
      let ref = c.shared_component_ref in
      let first = get_shared false env.namespace ref ∷ w.log in
      (IsMissing (api.shared_at false env.namespace ref w.log) × (w' ≡ after w first))
      ⊎ ((sc : SharedComponent) × (api.shared_at false env.namespace ref w.log ≡ ok sc)
          × (let second = get_provider env.namespace sc.spec.provider ∷ first in
              (IsMissing (api.provider_at env.namespace sc.spec.provider first)
                × (w' ≡ after w second))
              ⊎ ((scp : ProviderSpec) × (api.provider_at env.namespace sc.spec.provider first
                    ≡ ok scp)
                  × IsIdle second
                  × (let name = job_of api live hex_digest engine provisioner env c in
                      IsTakenBack sc scp scp.deprovision
                        (after w (get_job live shared_namespace name ∷ second)) w'))))
