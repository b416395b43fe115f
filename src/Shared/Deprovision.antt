-- ===== src/Shared/Deprovision.antt =====
-- internal/controller/ephemeralenvironment_controller.go: `deprovisionShared`, which takes an
-- environment's credentials back, and internal/controller/shared.go: `deleteJob`.
pub mod Keeps
pub mod Cleared
pub mod Grounds
pub mod Released
pub mod Settled
use petri_operator.Prelude.{
  ℕ, String, Bool, true, false, not, ◌||◌, Option, none, some, List, [], ◌∷◌, if◌then◌else◌, ◌==◌,
  Map, at,
}
use Prim.Native.String.{◌++◌}
use petri_operator.Prelude.Effects.{
  Result, ok, err, M, pure, fail, attempt, give, ◌>>=◌, ◌>>◌, is_not_found, ignore_not_found,
}
use petri_operator.Types.{Environment, EnvironmentTemplate, ComponentSpec, JobScript}
use petri_operator.Types.Shared.{SharedComponent, ProviderSpec}
use petri_operator.Cluster.{Log, Api, Job, read_job, remove_job}
use petri_operator.Cluster.Objects.{read_shared, read_provider, read_secret}
use petri_operator.Jobs.{JobPhase, JobState, is_phase, terminal_phase}
use petri_operator.Jobs.Provisioner.{
  ProvisionOptions, shared_namespace, provision_job_name, deprovision_job_name,
}
use petri_operator.Renderer.{Engine}
use petri_operator.Status.{requeue_after}
use petri_operator.Namespaces.{World, call, get_env, fails}
use petri_operator.Deploys.{record_failure}
use petri_operator.Shared.{generated_secret_key}
use petri_operator.Shared.Provision.{
  Provisioner, binding_name, credentials_name, delete_secret, ensure_provision_secret,
  read_instance, render_provision_options,
}

abbrev pub is_running : Job → Bool
is_running job = is_phase (terminal_phase job) JobPhase.running

module _ (api : Api) (live : Bool) where
  -- A Job that has ended is deleted; one that is missing is no error.
  unfoldable pub delete_job : (name namespace : String) → M Log (Unit {0})
  delete_job name namespace = do
    found ← attempt (read_job api live namespace name)
    elim found [
      | err e ↦ give (ignore_not_found tt (err e))
      | ok job ↦
          if job.deleting
          then fails ("job " ++ (name ++ " is still deleting"))
          else if not (is_running job)
          then (do
            removed ← attempt (remove_job api job.namespace job.name job.uid)
            give (ignore_not_found tt removed))
          else fails ("refusing to delete active job " ++ name)
    ]

module _ (api : Api) (live : Bool) (hex_digest : String → String) (engine : Engine)
    (provisioner : Provisioner) where
  abbrev pub job_of : Environment → ComponentSpec → String
  job_of env c = provision_job_name hex_digest env.name c.name

  -- The credentials of the Jobs, and the binding.
  pub clear_secrets : Environment → String → ComponentSpec → M Log (Unit {0})
  unfolding delete_secret
  clear_secrets env target_ns c = do
    delete_secret api (credentials_name hex_digest env c.name) shared_namespace
    delete_secret api (binding_name env c.name) target_ns

  pub clear_provision : Environment → String → ComponentSpec → M Log (Unit {0})
  unfolding delete_job clear_secrets
  clear_provision env target_ns c = do
    delete_job api live (job_of env c) shared_namespace
    clear_secrets env target_ns c

  pub clear_all : Environment → String → ComponentSpec → M Log (Unit {0})
  unfolding delete_job clear_secrets
  clear_all env target_ns c = do
    delete_job api live (job_of env c) shared_namespace
    delete_job api live (deprovision_job_name hex_digest env.name c.name) shared_namespace
    clear_secrets env target_ns c

  -- What the state of the deprovision Job means: none once the component is released, else the time
  -- of the next try.
  judge : Environment → String → ComponentSpec → ProvisionOptions → JobState → M World (Option ℕ)
  unfolding clear_all
  judge env target_ns c opts st =
      let again : M World (Option ℕ) = (do
        call (provisioner.submit_undo opts)
        pure (some requeue_after)) in
      elim st.phase [
        | JobPhase.succeeded ↦ do call (clear_all env target_ns c); pure none
        | JobPhase.pending ↦ again
        | JobPhase.running ↦ pure (some requeue_after)
        | JobPhase.failed ↦ do
          exhausted ← record_failure c.name ("deprovision: " ++ st.reason)
          let give_up = do call (clear_secrets env target_ns c); pure none
          if exhausted then give_up else again
      ]

  -- The options of the deprovision script, once its credentials are in place.
  pub prepare :
      Environment
      → ComponentSpec
      → SharedComponent
      → ProviderSpec
      → JobScript
      → Map String
      → M Log ProvisionOptions
  unfolding ensure_provision_secret read_instance render_provision_options
  prepare env c sc scp script entries = do
    let generated = at "" entries generated_secret_key
    ensure_provision_secret api (credentials_name hex_digest env c.name) env.name generated
    instance_keys ← read_instance api scp.instance_secret
    give (render_provision_options hex_digest engine env c sc script generated instance_keys)

  release_scripted :
      Environment
      → String
      → ComponentSpec
      → SharedComponent
      → ProviderSpec
      → JobScript
      → M World (Option ℕ)
  unfolding prepare judge
  release_scripted env target_ns c sc scp script = do
    found ← attempt (call (read_secret api target_ns (binding_name env c.name)))
    elim found [
      | err e ↦ if is_not_found e then pure none else fail e
      | ok entries ↦ do
        opts ← call (prepare env c sc scp script entries)
        st ← call (provisioner.observe_undo opts)
        judge env target_ns c opts st
    ]

  release_idle :
      Environment → String → ComponentSpec → SharedComponent → ProviderSpec → M World (Option ℕ)
  unfolding clear_provision release_scripted
  release_idle env target_ns c sc scp = elim scp.deprovision [
    | none ↦ do call (clear_provision env target_ns c); pure none
    | some script ↦ release_scripted env target_ns c sc scp script
  ]

  -- Nothing is taken back under a provision Job that runs or goes away.
  release_found :
      Environment → String → ComponentSpec → SharedComponent → ProviderSpec → M World (Option ℕ)
  unfolding release_idle
  release_found env target_ns c sc scp = do
    found ← attempt (call (read_job api live shared_namespace (job_of env c)))
    let idle = release_idle env target_ns c sc scp
    elim found [
      | err e ↦ if is_not_found e then idle else fail e
      | ok job ↦ if job.deleting || is_running job then pure (some requeue_after) else idle
    ]

  pub release_shared : Environment → String → ComponentSpec → M World (Option ℕ)
  unfolding release_found
  release_shared env target_ns c = do
    found ← attempt (call (read_shared api false env.namespace c.shared_component_ref))
    elim found [
      | err e ↦ if is_not_found e then pure none else fail e
      | ok sc ↦ do
        provided ← attempt (call (read_provider api env.namespace sc.spec.provider))
        elim provided [
          | err e ↦ if is_not_found e then pure none else fail e
          | ok scp ↦ release_found env target_ns c sc scp
        ]
    ]

  -- The loop; the answer is whether all is done, and the time of the next try.
  pub release_all : String → List ComponentSpec → M World (Bool × ℕ)
  unfolding release_shared
  release_all target_ns [] = pure (true, 0)
  release_all target_ns (c ∷ cs) = do
    env ← get_env
    waits ← if c.shared_component_ref == "" then pure none else release_shared env target_ns c
    elim waits [ none ↦ release_all target_ns cs | some later ↦ pure (false, later) ]

  unfoldable pub deprovision_shared : String → EnvironmentTemplate → M World (Bool × ℕ)
  unfolding release_all
  deprovision_shared target_ns template = release_all target_ns template.components
