-- ===== src/Environments/Reconcile.antt =====
-- internal/controller/ephemeralenvironment_controller.go: `reconcile`, of an environment that is
-- not being deleted. `process` is
-- `processLevel`, which is `process_level` in Deploys/Process.
pub mod Binding
pub mod Timing
pub mod Rest
mod Samples
use petri_operator.Prelude.{
  ℕ, zero, suc, ◌+◌, ◌-◌, String, Bool, true, false, not, ◌&&◌, ◌||◌, Option, none, some, List, [],
  ◌∷◌, ltb, leb, if◌then◌else◌, ◌==◌, ℤ, pos, is_zero,
}
use Prim.Native.String.{◌++◌, count}
use petri_operator.Prelude.Effects.{
  Err, namespace_not_managed, Result, ok, err, M, pure, fail, attempt, give, ◌>>=◌, ◌>>◌,
  ignore_not_found, is_not_found,
}
use petri_operator.Types.{
  ComponentSpec, ComponentStatus, ComponentPhase, Environment, EnvironmentStatus, EnvironmentPhase,
  EnvironmentTemplate,
}
use petri_operator.Types
use petri_operator.Cluster.{Log, Api, read_clock, remove_environment}
use petri_operator.Platform.{Platform}
use petri_operator.Status.{PhaseMap, all_ready, requeue_immediate}
use petri_operator.Graph.{
  BuildError, duplicated_component, unknown_dependency, cycle_dependencies, out_of_fuel, Built,
  build_levels,
}
use petri_operator.Namespaces.{
  World, call, get_env, set_status, Reconciler, target_namespace, namespace_bound, ns_prefix,
  allocate_namespace, create_namespace, quoted,
}
use petri_operator.Environments.Frontier.{
  phases_by_name, first_pending, overlong, next_try, messages,
}
use petri_operator.Environments.{
  resolve_deadline, resolve_deploy_timeout, is_phase, set_phase, set_condition, set_failed,
  get_environment_template, patch, locked_patch, join,
}

abbrev is_kind_not_managed : Err → Bool
is_kind_not_managed e = elim e.kind [ namespace_not_managed ↦ true | _ ↦ false ]

-- The requeue time that the code returns, and its `deadline` at that point.
abbrev pub Outcome : Type 0
Outcome = ℕ × Option ℕ

-- `cmp.Or` of the configured timeout and the constant `defaultDeployTimeout`, 15 minutes.
abbrev fallback : ℤ → ℤ
fallback configured = if is_zero configured then pos 900000000000 else configured

module _ (api : Api) (p : Platform) (r : Reconciler) (default_timeout : ℤ)
    (process : String → List ComponentSpec → PhaseMap → ℤ → M World ℕ) where
  abbrev is_bound : Environment → Bool
  is_bound env = p.is_condition_true env.status.conditions namespace_bound

  abbrev stop : Option ℕ → M World (Unit {0}) → M World Outcome
  stop deadline m = do m; pure (0, deadline)

  abbrev refuse : Option ℕ → String → String → M World Outcome
  refuse deadline reason text = stop deadline (set_failed api p reason text)

  abbrev enter_deploying : M World (Unit {0})
  enter_deploying = do
    t ← call (read_clock api)
    set_status (λ s. record s { deploy_started_at = some t; phase = EnvironmentPhase.deploying })

  abbrev needs_start : EnvironmentPhase → Option (List ComponentSpec) → Bool
  needs_start phase pending =
      not (is_phase phase EnvironmentPhase.deploying)
      && (elim pending [ some _ ↦ true | none ↦ not (is_phase phase EnvironmentPhase.ready) ])

  -- From the levels on, with the namespace bound.
  run_levels : String → Option ℕ → ℤ → List (List ComponentSpec) → M World Outcome
  run_levels target_ns deadline timeout levels = do
    env ← get_env
    let phases = phases_by_name env.status.components (λ _. ComponentPhase.unset)
    let pending = first_pending levels phases
    if needs_start env.status.phase pending then enter_deploying else pure tt
    elim pending [
      | some level ↦ do requeue ← process target_ns level phases timeout; pure (requeue, deadline)
      | none ↦ stop deadline (set_phase EnvironmentPhase.ready)
    ]

  -- The levels are known; the release names and the phase are still to be checked.
  deploy_ordered :
      String → Option ℕ → ℤ → List ComponentSpec → List (List ComponentSpec) → M World Outcome
  unfolding run_levels
  deploy_ordered target_ns deadline timeout components levels w =
      elim (overlong w.env.name components) [
        | some release ↦
            refuse deadline "InvalidConfiguration"
              ("release name " ++ (quoted release ++ " exceeds 53 characters")) w
        | none ↦
            (if is_phase w.env.status.phase EnvironmentPhase.failed
                then pure (0, deadline)
                else run_levels target_ns deadline timeout levels)
              w
      ]

  deploy : String → Option ℕ → ℤ → EnvironmentTemplate → M World Outcome
  unfolding deploy_ordered
  deploy target_ns deadline timeout template = elim (build_levels template.components) [
    | Built.err es ↦ refuse deadline "InvalidConfiguration" (messages es)
    | Built.ok levels ↦ deploy_ordered target_ns deadline timeout template.components levels
  ]

  -- The binding is stored before anything is deployed.
  bind : String → Option ℕ → ℤ → EnvironmentTemplate → M World Outcome
  unfolding deploy
  bind target_ns deadline timeout template = do
    env ← get_env
    let record_it = do
      set_condition api p true namespace_bound "NamespaceOwned"
          "Target namespace is bound to this environment UID"
      pure (requeue_immediate, deadline)
    if is_bound env then deploy target_ns deadline timeout template else record_it

  -- `createNamespace`, and another target if the namespace is not Petri's.
  claim : String → Option ℕ → ℤ → EnvironmentTemplate → M World Outcome
  unfolding bind
  claim target_ns deadline timeout template = do
    env ← get_env
    made ← attempt (call (create_namespace api p r env))
    let elsewhere = do
      allocate_namespace api p r (count target_ns - count ns_prefix + 4)
      pure (requeue_immediate, deadline)
    elim made [
      | ok _ ↦ bind target_ns deadline timeout template
      | err e ↦
          if not (is_kind_not_managed e)
          then fail e
          else if is_bound env
          then refuse deadline "NamespaceNotManaged" e.text
          else elsewhere
    ]

  proceed : String → Option ℕ → EnvironmentTemplate → M World Outcome
  unfolding claim
  proceed target_ns deadline template =
      elim (resolve_deploy_timeout p template.deploy_timeout (fallback default_timeout)) [
        | err e ↦ refuse deadline "InvalidConfiguration" ("invalid deployTimeout: " ++ e.text)
        | ok timeout ↦ claim target_ns deadline timeout template
      ]

  -- The deadline has passed.
  expire : M World Outcome
  expire = do
    set_phase EnvironmentPhase.terminating
    env ← get_env
    removed ← attempt (call (remove_environment api env.namespace env.name))
    give (ignore_not_found tt removed)
    pure (0, none)

  with_deadline : String → ℕ → EnvironmentTemplate → Option ℕ → M World Outcome
  unfolding expire proceed
  with_deadline target_ns now template deadline = do
    set_status (λ s. record s { expires_at = deadline })
    elim deadline [
      | none ↦ proceed target_ns none template
      | some d ↦ if leb d now then expire else proceed target_ns (some d) template
    ]

  with_time : String → EnvironmentTemplate → ℕ → M World Outcome
  unfolding with_deadline
  with_time target_ns template now w =
      elim (resolve_deadline p w.env.created w.env.spec.ttl template.ttl) [
        | ok deadline ↦ with_deadline target_ns now template deadline w
        | err e ↦
            (do set_status (λ s. record s { expires_at = none }); refuse none "InvalidTTL" e.text) w
      ]

  with_template : String → EnvironmentTemplate → M World Outcome
  unfolding with_time
  with_template target_ns template = do
    now ← call (read_clock api)
    with_time target_ns template now

  -- A change of the spec starts the deployment again.
  abbrev refresh : Environment → Environment
  refresh env =
      let s = env.status in
      let reset = record s {
        phase = EnvironmentPhase.unset;
        deploy_started_at = none;
        components = [];
        observed_generation = env.generation;
      } in
      if leb s.observed_generation env.generation && leb env.generation s.observed_generation
      then env
      else record env { status = reset }

  with_target : String → M World Outcome
  unfolding with_template
  with_target target_ns = do
    template ← attempt (get_environment_template api p)
    env ← get_env
    elim template [
      | ok t ↦ with_template target_ns t
      | err e ↦
          if is_not_found e
          then (do
            set_status (λ s. record s { expires_at = none })
            refuse none "TemplateNotFound" ("template " ++ (env.spec.template ++ " not found")))
          else fail e
    ]

  -- `reconcile` without its deferred function.
  pub body : M World Outcome
  unfolding with_target
  body w =
      if w.env.status.target_namespace == ""
      then (do allocate_namespace api p r 8; pure (requeue_immediate, none)) w
      else elim (target_namespace api p r w.env) [
        | err e ↦ refuse none "InvalidConfiguration" e.text w
        | ok target_ns ↦ with_target target_ns (record w { env = refresh w.env })
      ]

  -- The deferred cut of the requeue time.
  in_time : Result Outcome → M World ℕ
  unfolding next_try
  in_time (err e) = fail e
  in_time (ok (requeue, none)) = pure requeue
  in_time (ok (requeue, some deadline)) = do
    env ← get_env
    let cut = do now ← call (read_clock api); pure (next_try requeue deadline now)
    if is_phase env.status.phase EnvironmentPhase.terminating then pure requeue else cut

  abbrev differ : Bool → Bool → Bool
  differ b c = if b then not c else c

  -- The deferred patch: an allocation or a binding must not overwrite another writer's.
  settle : Environment → M World (Unit {0})
  settle original = do
    env ← get_env
    let moved =
        not (original.status.target_namespace == env.status.target_namespace)
        || differ (is_bound original) (is_bound env)
    if moved then locked_patch api p else patch api p original

  pub reconcile : M World ℕ
  unfolding body in_time settle
  reconcile w =
      let (res, w') = body w in
      let (requeue, w'') = in_time res w' in
      let (patched, w3) = settle w.env w'' in (join requeue patched, w3)
