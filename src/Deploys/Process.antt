-- ===== src/Deploys/Process.antt =====
-- internal/controller/deploy.go: `processLevel`, with the submission and the observation of a
-- level. What it does for shared components is an interface.
pub mod Rest
use petri_operator.Prelude.{
  ℕ, String, Bool, true, false, not, ◌||◌, Option, none, some, List, [], ◌∷◌, if◌then◌else◌, ◌==◌,
  i32_lt, ℤ, Map,
}
use Prim.Native.String.{◌++◌}
use petri_operator.Prelude.Effects.{
  Err, other, shared_not_ready, at_capacity, Result, ok, err, M, pure, fail, attempt, give, ◌>>=◌,
  ◌>>◌,
}
use petri_operator.Types.{
  ComponentSpec, ComponentPhase, ComponentStatus, ReadinessSpec, Environment, EnvironmentTemplate,
}
use petri_operator.Cluster.{Log, Api, read_clock}
use petri_operator.Platform.{Platform}
use petri_operator.Jobs.{JobPhase, JobState}
use petri_operator.Status.{
  PhaseMap, is_ready, find_component, set_component_phase, set_component_shared,
  reset_component_failure, set_component_deploying_since, deploy_backoff, requeue_after,
}
use petri_operator.Namespaces.{World, call, get_env}
use petri_operator.Environments.{set_failed, get_environment_template}
use petri_operator.Deploys.{
  Deployer, deploy_opts, each_component, Parts, partition_level, set_components, record_failure,
  check_readiness,
}

-- The keys and values of the binding secrets, by component.
abbrev pub Bindings : Type 0
Bindings = Map (Map String)

-- internal/controller/shared.go: bindingComponents, renderConsumerValues, submitShared and
-- observeShared, of which only the last changes the environment.
pub record SharedDeploys : Type 0 where
  pub binding_components : Environment → String → EnvironmentTemplate → M Log Bindings
  pub render_values : Environment → ComponentSpec → Bindings → Result ComponentSpec
  pub submit_shared : Environment → String → ComponentSpec → M Log ComponentPhase
  pub observe_shared : ComponentSpec → M World Bool

abbrev is_shared : ComponentSpec → Bool
is_shared c = not (c.shared_component_ref == "")

abbrev is_not_ready : Err → Bool
is_not_ready e = elim e.kind [ shared_not_ready ↦ true | _ ↦ false ]

abbrev is_at_capacity : Err → Bool
is_at_capacity e = elim e.kind [ at_capacity ↦ true | _ ↦ false ]

abbrev set_phase : String → ComponentPhase → M World (Unit {0})
set_phase name phase = set_components (set_component_phase name phase)

-- The retries in a component's status. Without one, the code dereferences nil: the panic ends the
-- pass, and is an error here.
abbrev retries_of : Option ComponentStatus → M World ℕ
retries_of none = fail (record { kind = other; text = "nil pointer dereference" })
retries_of (some cs) = pure cs.deploy_retries

module _ (api : Api) (p : Platform) (deployer : Deployer) (shared : SharedDeploys) where
  -- The body of the goroutines: the phase of a shared component, none for a release.
  submit_component :
      Environment → String → Bindings → ComponentSpec → M World (Option ComponentPhase)
  submit_component env target_ns bindings c =
      if is_shared c
      then (do phase ← call (shared.submit_shared env target_ns c); pure (some phase))
      else do
        rendered ← give (shared.render_values env c bindings)
        call (deployer.submit (deploy_opts env target_ns rendered))
        pure none

  -- The loop that stores the phases of the shared components.
  store_shared : List ComponentSpec → List (Result (Option ComponentPhase)) → M World (Unit {0})
  store_shared [] results = pure tt
  store_shared (c ∷ cs) [] = pure tt
  store_shared (c ∷ cs) (ok (some phase) ∷ results) = do
    set_phase c.name phase
    set_components (set_component_shared c.name)
    if is_ready phase then set_components (reset_component_failure c.name) else pure tt
    store_shared cs results
  store_shared (c ∷ cs) (ok none ∷ results) = store_shared cs results
  store_shared (c ∷ cs) (err e ∷ results) = store_shared cs results

  -- exhausted and stillRetrying; none once the environment has failed for want of capacity.
  abbrev pub Tally : Type 0
  Tally = Option (Bool × Bool)

  -- A failed submission: whether the retries are exhausted.
  record_submit : ComponentSpec → Err → M World Bool
  record_submit c e = do
    exhausted ← record_failure c.name e.text
    if exhausted then set_phase c.name ComponentPhase.failed else pure tt
    pure exhausted

  -- The loop over the errors.
  tally : Bool → Bool → List ComponentSpec → List (Result (Option ComponentPhase)) → M World Tally
  unfolding record_submit
  tally exhausted retrying [] results = pure (some (exhausted, retrying))
  tally exhausted retrying (c ∷ cs) [] = pure (some (exhausted, retrying))
  tally exhausted retrying (c ∷ cs) (ok _ ∷ results) = do
    if is_shared c then pure tt else set_phase c.name ComponentPhase.submitting
    tally exhausted retrying cs results
  tally exhausted retrying (c ∷ cs) (err e ∷ results) =
      let rest = tally exhausted retrying cs results in
      let failed = do
        last ← record_submit c e
        tally (exhausted || last) (retrying || not last) cs results
      in let full = do
        set_phase c.name ComponentPhase.failed
        set_failed api p "SharedComponentAtCapacity" c.name
        pure none
        in if is_not_ready e
          then rest
          else (if is_shared c then (if is_at_capacity e then full else failed) else failed)

  conclude : List ComponentSpec → Tally → M World ℕ
  conclude need none = pure 0
  conclude need (some (exhausted, retrying)) = do
    env ← get_env
    let give_up = do
      set_failed api p "DeployFailed" "one or more components failed to deploy"
      pure 0
    if exhausted
        then give_up
        else pure (if retrying then deploy_backoff env.status.components need else requeue_after)

  pub submit_deploys : String → List ComponentSpec → M World ℕ
  unfolding submit_component store_shared tally conclude
  submit_deploys target_ns need = do
    template ← get_environment_template api p
    env ← get_env
    bindings ← call (shared.binding_components env target_ns template)
    results ← each_component (submit_component env target_ns bindings) need
    store_shared need results
    counted ← tally false false need results
    conclude need counted

  -- stillRunning and retrying; none once the environment has failed.
  abbrev pub Watch : Type 0
  Watch = Option (Bool × Bool)

  watch_shared : ComponentSpec → M World Watch
  watch_shared c = do
    before ← get_env
    previous ← retries_of (find_component c.name before.status.components)
    done ← shared.observe_shared c
    after ← get_env
    current ← retries_of (find_component c.name after.status.components)
    pure (some (not done, i32_lt previous current))

  -- What the state of a release's Job means.
  watch_state : ComponentSpec → JobState → M World Watch
  watch_state c st = elim st.phase [
    | JobPhase.pending ↦ do set_phase c.name ComponentPhase.pending; pure (some (true, false))
    | JobPhase.running ↦ pure (some (true, false))
    | JobPhase.succeeded ↦ do
      set_phase c.name ComponentPhase.deploying
      now ← call (read_clock api)
      set_components (set_component_deploying_since c.name now)
      pure (some (false, false))
    | JobPhase.failed ↦ do
      exhausted ← record_failure c.name st.reason
      let give_up = do
        set_phase c.name ComponentPhase.failed
        set_failed api p "DeployFailed" (c.name ++ (": " ++ st.reason))
        pure none
      if exhausted then give_up else pure (some (false, true))
  ]

  watch_release : Environment → String → Bindings → ComponentSpec → M World Watch
  unfolding watch_state
  watch_release env target_ns bindings c = do
    rendered ← give (shared.render_values env c bindings)
    st ← call (deployer.observe (deploy_opts env target_ns rendered))
    watch_state c st

  watch : String → Bindings → Bool → Bool → List ComponentSpec → M World Watch
  unfolding watch_shared watch_release
  watch target_ns bindings running retrying [] = pure (some (running, retrying))
  watch target_ns bindings running retrying (c ∷ cs) = do
    env ← get_env
    seen ← if is_shared c then watch_shared c else watch_release env target_ns bindings c
    elim seen [
      | none ↦ pure none
      | some (r, t) ↦ watch target_ns bindings (running || r) (retrying || t) cs
    ]

  -- The requeue time if the pass ends here; none if readiness comes next.
  pub observe_deploys : String → List ComponentSpec → M World (Option ℕ)
  unfolding watch
  observe_deploys target_ns submitting = do
    template ← get_environment_template api p
    env ← get_env
    bindings ← call (shared.binding_components env target_ns template)
    seen ← watch target_ns bindings false false submitting
    after ← get_env
    elim seen [
      | none ↦ pure (some 0)
      | some (running, retrying) ↦ pure (
          if retrying
          then some (deploy_backoff after.status.components submitting)
          else if running
          then some requeue_after
          else none)
    ]

  -- `is_ready` is the checker, `show_duration` is time.Duration.String.
  module _ (show_duration : ℤ → String)
      (is_ready : String → String → Option ReadinessSpec → M Log (Bool × String)) where
    -- By the parts of the level: what is to be submitted, what was, and what runs.
    unfoldable pub process_parts :
        String → List ComponentSpec → List ComponentSpec → List ComponentSpec → ℤ → M World ℕ
    process_parts target_ns (c ∷ need) submitting need_check timeout =
        submit_deploys target_ns (c ∷ need)
    process_parts target_ns [] [] need_check timeout =
        check_readiness api p show_duration is_ready target_ns need_check timeout
    process_parts target_ns [] (c ∷ submitting) need_check timeout = do
      handled ← observe_deploys target_ns (c ∷ submitting)
      let check = check_readiness api p show_duration is_ready target_ns need_check timeout
      elim handled [ some requeue ↦ pure requeue | none ↦ check ]

    unfoldable pub process_level : String → List ComponentSpec → PhaseMap → ℤ → M World ℕ
    unfolding process_parts
    process_level target_ns level phase_by_name timeout =
        let parts = partition_level phase_by_name level in
        process_parts target_ns parts.need_deploy parts.submitting parts.need_check timeout
