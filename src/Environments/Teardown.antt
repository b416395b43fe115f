-- ===== src/Environments/Teardown.antt =====
-- internal/controller/ephemeralenvironment_controller.go: `reconcileDelete`, the deletion of an
-- environment. The cleanup of the components is an interface.
pub mod Completion
pub mod Finalizer
mod Samples
use petri_operator.Prelude.{
  ℕ, String, Bool, true, false, not, ◌&&◌, ◌||◌, ◌≡◌, Option, none, some, List, [], ◌∷◌,
  if◌then◌else◌, ◌==◌,
}
use petri_operator.Prelude.Effects.{
  Err, Result, ok, err, M, pure, fail, attempt, give, ◌>>=◌, ◌>>◌, ignore_not_found, is_not_found,
}
use petri_operator.Types.{
  Environment, EnvironmentStatus, EnvironmentTemplate, Namespace, terminating, failed,
}
use petri_operator.Cluster.{Log, Api, read_namespace, remove_namespace}
use petri_operator.Platform.{Platform}
use petri_operator.Status.{requeue_immediate}
use petri_operator.Namespaces.{
  World, call, get_env, set_status, Reconciler, owns_namespace, target_namespace, namespace_bound,
  ensure_deployer_role_binding,
}
use petri_operator.Environments.{
  finalizer, cleanup_complete, set_phase, set_condition, set_failed, remove_finalizer,
  get_environment_template, patch, locked_patch, join,
}

abbrev pub without_statuses : Environment → Environment
without_statuses env = let s = env.status in record env { status = record s { components = [] } }

-- All but the statuses of the components stays as it is.
abbrev pub Keeps : {A : Type 0} → M World A → Type 0
Keeps m = (w : World) → without_statuses (m w).1.env ≡ without_statuses w.env

-- What `reconcileDelete` calls to take the components down: `undeployAll` and then
-- `deprovisionShared`. The answer is whether it is done, and the time of the next try. Both write
-- the statuses of the components only.
pub record Cleanup : Type 0 where
  pub undeploy_all : String → EnvironmentTemplate → M World (Bool × ℕ)
  pub deprovision_shared : String → EnvironmentTemplate → M World (Bool × ℕ)
  pub undeploy_all_keeps : (ns : String) (t : EnvironmentTemplate) → Keeps (undeploy_all ns t)
  pub deprovision_shared_keeps :
      (ns : String) (t : EnvironmentTemplate) → Keeps (deprovision_shared ns t)

module _ (api : Api) (p : Platform) (r : Reconciler) (cleanup : Cleanup) where
  abbrev holds : Environment → String → Bool
  holds env type = p.is_condition_true env.status.conditions type

  -- `return ctrl.Result{}, err`
  abbrev pub stop : M World (Unit {0}) → M World ℕ
  stop m = do m; pure 0

  finish : M World ℕ
  finish = do
    set_condition api p true cleanup_complete "CleanupFinished"
        "Environment cleanup finished; target namespace can be deleted"
    pure requeue_immediate

  deprovision : String → EnvironmentTemplate → M World ℕ
  unfolding finish
  deprovision target_ns template = do
    (deprovisioned, again) ← cleanup.deprovision_shared target_ns template
    if deprovisioned then finish else pure again

  undeploy : String → EnvironmentTemplate → M World ℕ
  unfolding deprovision
  undeploy target_ns template = do
    (undeployed, later) ← cleanup.undeploy_all target_ns template
    if undeployed then deprovision target_ns template else pure later

  -- Undeploys the components and releases the shared ones.
  clean : String → EnvironmentTemplate → M World ℕ
  unfolding undeploy
  clean target_ns template = do
    bound ← attempt (call (ensure_deployer_role_binding api p r target_ns))
    give (ignore_not_found tt bound)
    undeploy target_ns template

  -- Without a template, or before the environment is bound, there is nothing to undeploy.
  tear_down : String → M World ℕ
  unfolding clean finish
  tear_down target_ns = do
    template ← attempt (get_environment_template api p)
    env ← get_env
    let start = set_phase terminating
    elim template [
      | err e ↦ if is_not_found e then (do start; finish) else fail e
      | ok t ↦
          if holds env namespace_bound then (do start; clean target_ns t) else (do start; finish)
    ]

  -- The namespace exists and is the environment's own.
  drop_namespace : Namespace → M World ℕ
  drop_namespace ns = do
    removed ← attempt (call (remove_namespace api ns.name ns.uid ns.resource_version))
    give (ignore_not_found tt removed)
    stop (remove_finalizer api p)

  not_managed : String → M World ℕ
  not_managed text = stop (set_failed api p "NamespaceNotManaged" text)

  abbrev release : M World ℕ
  release = stop (remove_finalizer api p)

  -- The recorded namespace is missing.
  no_namespace : Environment → M World ℕ
  unfolding not_managed
  no_namespace env =
      if holds env cleanup_complete
      then release
      else if holds env namespace_bound
      then not_managed
          "bound namespace is missing; admin cleanup of external allocations is required"
      else release

  -- The recorded namespace exists.
  some_namespace : Environment → String → Namespace → M World ℕ
  unfolding tear_down drop_namespace not_managed
  some_namespace env target_ns ns =
      if not (owns_namespace env ns)
      then (if holds env namespace_bound
          then not_managed "bound namespace ownership changed; admin cleanup is required"
          else release)
      else if holds env cleanup_complete
      then drop_namespace ns
      else tear_down target_ns

  with_target : Environment → String → M World ℕ
  unfolding no_namespace some_namespace
  with_target env target_ns = do
    answer ← attempt (call (read_namespace api r.has_reader target_ns))
    elim answer [
      | err e ↦ if is_not_found e then no_namespace env else fail e
      | ok ns ↦ some_namespace env target_ns ns
    ]

  -- `reconcileDelete` without its deferred patch.
  body : M World ℕ
  unfolding with_target
  body w =
      if w.env.status.target_namespace == ""
      then release w
      else elim (target_namespace api p r w.env) [
        | err e ↦ stop (set_failed api p "InvalidConfiguration" e.text) w
        | ok target_ns ↦ with_target w.env target_ns w
      ]

  -- The deferred patch, of the object as it is after the body.
  pub settle : Environment → M World (Unit {0})
  settle original = do
    env ← get_env
    let locked = not (holds original cleanup_complete) && holds env cleanup_complete
    let send = if locked then locked_patch api p else patch api p original
    if not (p.contains_finalizer env.finalizers finalizer) then pure tt else send

  pub reconcile_delete : M World ℕ
  unfolding body settle
  reconcile_delete w =
      let (res, w') = body w in let (patched, w'') = settle w.env w' in (join res patched, w'')
