-- ===== src/Deploys.antt =====
-- internal/controller/deploy.go: what deploying and undeploying a level share, and the partition
-- and the readiness checks of a level.
pub mod Process
pub mod Partition
pub mod Readiness
mod Samples
use petri_operator.Prelude.{
  ℕ, zero, ◌+◌, ◌-◌, String, Bool, true, false, not, ◌&&◌, Option, none, some, List, [], ◌∷◌, ◌++◌,
  ltb, leb, if◌then◌else◌, ◌==◌, ℤ, pos, negsuc,
}
use Prim.Native.String.{◌++◌ as join}
use petri_operator.Prelude.Effects.{Result, ok, err, M, pure, fail, attempt, give, ◌>>=◌, ◌>>◌}
use petri_operator.Types.{
  ComponentSpec, ComponentPhase, ComponentStatus, ReadinessSpec, Environment, EnvironmentStatus,
}
use petri_operator.Cluster.{Log, Api, read_clock}
use petri_operator.Platform.{Platform}
use petri_operator.Jobs.{DeployOptions, JobState}
use petri_operator.Jobs.Deployer.{JobDeployer, submit, observe, submit_undeploy, observe_undeploy}
use petri_operator.Status.{
  PhaseMap, find_component, set_component_phase, record_runtime_failure, reset_component_failure,
  component_deploying_since, deploy_backoff, requeue_after, requeue_immediate,
}
use petri_operator.Namespaces.{World, call, get_env, set_status}
use petri_operator.Environments.{set_failed}

-- The interface `Deployer`, which `JobDeployer` implements.
pub record Deployer : Type 0 where
  pub submit : DeployOptions → M Log (Unit {0})
  pub observe : DeployOptions → M Log JobState
  pub submit_undeploy : DeployOptions → M Log (Unit {0})
  pub observe_undeploy : DeployOptions → M Log JobState

abbrev pub job_deployer :
    Api → (String → String) → (DeployOptions → Result String) → JobDeployer → Deployer
job_deployer api hex_digest marshal j = record {
  submit = submit api hex_digest marshal j;
  observe = observe api hex_digest marshal j;
  submit_undeploy = submit_undeploy api hex_digest marshal j;
  observe_undeploy = observe_undeploy api hex_digest marshal j;
}

unfoldable pub deploy_opts : Environment → String → ComponentSpec → DeployOptions
deploy_opts env target_ns c = record {
  owner_uid = env.uid;
  namespace = target_ns;
  release_name = join env.name (join "-" c.name);
  component = c;
  attempt = elim (find_component c.name env.status.components) [
    | some cs ↦ cs.deploy_retries
    | none ↦ 0
  ];
}

-- `eachComponent`, with the goroutines one after another. Each writes its own slot, and none stops
-- the others.
unfoldable pub each_component :
    {A : Type 0} → (ComponentSpec → M World A) → List ComponentSpec → M World (List (Result A))
each_component f [] = pure []
each_component f (c ∷ components) = do
  result ← attempt (f c)
  results ← each_component f components
  pure (result ∷ results)

-- needDeploy, submitting and needCheck.
pub record Parts : Type 0 where
  pub need_deploy : List ComponentSpec
  pub submitting : List ComponentSpec
  pub need_check : List ComponentSpec

abbrev place : ComponentPhase → ComponentSpec → Parts → Parts
place ComponentPhase.ready c parts = parts
place ComponentPhase.failed c parts = parts
place ComponentPhase.submitting c parts = record parts { submitting = parts.submitting ++ c ∷ [] }
place ComponentPhase.deploying c parts = record parts { need_check = parts.need_check ++ c ∷ [] }
place ComponentPhase.unset c parts = record parts { need_deploy = parts.need_deploy ++ c ∷ [] }
place ComponentPhase.pending c parts = record parts { need_deploy = parts.need_deploy ++ c ∷ [] }

pub partition_loop : PhaseMap → Parts → List ComponentSpec → Parts
partition_loop phase_by_name parts [] = parts
partition_loop phase_by_name parts (c ∷ level) =
    partition_loop phase_by_name (place (phase_by_name c.name) c parts) level

pub partition_level : PhaseMap → List ComponentSpec → Parts
unfolding partition_loop
partition_level phase_by_name level =
    partition_loop phase_by_name (record { need_deploy = []; submitting = []; need_check = [] })
      level

-- A change of env.Status.Components.
abbrev pub set_components : (List ComponentStatus → List ComponentStatus) → M World (Unit {0})
set_components f = set_status (λ s. record s { components = f s.components })

-- `recordRuntimeFailure`: whether the retries are exhausted.
abbrev pub record_failure : String → String → M World Bool
record_failure name reason w =
    let (statuses, exhausted) = record_runtime_failure name reason w.env.status.components in
    let env = w.env in
    let s = env.status in
    (ok exhausted, record w { env = record env { status = record s { components = statuses } } })

-- `is_ready` is the checker, `show_duration` is time.Duration.String.
module _ (api : Api) (p : Platform) (show_duration : ℤ → String)
    (is_ready : String → String → Option ReadinessSpec → M Log (Bool × String)) where
  abbrev set_phase : String → ComponentPhase → M World (Unit {0})
  set_phase name phase = set_components (set_component_phase name phase)

  -- `time.Since(since) > deployTimeout`
  abbrev is_overdue : ℕ → ℤ → ℕ → Bool
  is_overdue since (pos timeout) now = ltb timeout (now - since)
  is_overdue since (negsuc timeout) now = true

  -- The state of the loop: allDone and retrying; none once the environment has failed.
  abbrev Checks : Type 0
  Checks = Option (Bool × Bool)

  probe : String → ComponentSpec → M World Bool
  probe target_ns c = do
    env ← get_env
    (ready, reason) ← call (is_ready target_ns (join env.name (join "-" c.name)) c.readiness)
    let done = do
      set_phase c.name ComponentPhase.ready
      set_components (reset_component_failure c.name)
      pure true
    if ready then done else pure false

  time_out : ComponentSpec → ℤ → M World Bool
  time_out c timeout = do
    exhausted ← record_failure c.name (join "readiness timeout after " (show_duration timeout))
    let give_up = do
      set_phase c.name ComponentPhase.failed
      set_failed api p "ReadinessTimeout" (
          join c.name (
            join " did not become ready within "
              (join (show_duration timeout) " (retries exhausted)")))
      pure true
    if exhausted then give_up else pure false

  -- The clock is read only for a component that is deploying.
  overdue : ComponentSpec → ℤ → M World Bool
  overdue c timeout w = elim (component_deploying_since c.name w.env.status.components) [
    | none ↦ (ok false, w)
    | some since ↦ (do now ← call (read_clock api); pure (is_overdue since timeout now)) w
  ]

  check_loop : String → ℤ → Bool → Bool → List ComponentSpec → M World Checks
  unfolding probe time_out overdue
  check_loop target_ns timeout all_done retrying [] = pure (some (all_done, retrying))
  check_loop target_ns timeout all_done retrying (c ∷ need_check) = do
    late ← overdue c timeout
    let missed = do
      gave_up ← time_out c timeout
      let next = check_loop target_ns timeout all_done true need_check
      if gave_up then pure none else next
    let checked = do
      ready ← probe target_ns c
      check_loop target_ns timeout (all_done && ready) retrying need_check
    if late then missed else checked

  pub check_readiness : String → List ComponentSpec → ℤ → M World ℕ
  unfolding check_loop
  check_readiness target_ns need_check timeout = do
    checks ← check_loop target_ns timeout true false need_check
    env ← get_env
    elim checks [
      | none ↦ pure 0
      | some (all_done, retrying) ↦ pure (
          if retrying
          then deploy_backoff env.status.components need_check
          else if all_done
          then requeue_immediate
          else requeue_after)
    ]
