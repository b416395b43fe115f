-- ===== src/Environments.antt =====
-- internal/controller/ephemeralenvironment_controller.go and internal/helpers/patcher.go: what the
-- reconciliation and the deletion of an environment share. Events and metrics are left out.
pub mod Deadlines
pub mod Frontier
pub mod Teardown
pub mod Reconcile
pub mod Requests
mod Samples
use petri_operator.Prelude.{
  ℕ, zero, suc, ◌+◌, String, Bool, true, false, not, ◌&&◌, ◌||◌, Option, none, some, List, ◌∷◌, ltb,
  leb, if◌then◌else◌, ◌==◌, ℤ, pos, negsuc,
}
use Prim.Native.String.{◌++◌}
use petri_operator.Prelude.Effects.{
  Err, other, Result, ok, err, M, pure, attempt, give, ◌>>=◌, ◌>>◌, ignore_not_found,
}
use petri_operator.Types.{
  Environment, EnvironmentStatus, EnvironmentPhase, unset, pending, deploying, ready, failed,
  terminating, EnvironmentTemplate, Condition,
}
use petri_operator.Cluster.{
  Log, Api, write_finalizers, write_status, read_template, remove_environment,
}
use petri_operator.Platform.{Platform}
use petri_operator.Namespaces.{World, call, get_env, set_status}

abbrev pub finalizer : String
finalizer = "petri.run/cleanup"

abbrev pub cleanup_complete : String
cleanup_complete = "CleanupComplete"

abbrev invalid : {A : Type 0} → String → Result A
invalid text = err (record { kind = other; text = text })

-- A positive duration is added to the time of creation; zero is no deadline.
abbrev deadline_after : ℕ → ℤ → Result (Option ℕ)
deadline_after created (pos zero) = ok none
deadline_after created (pos (suc n)) = ok (some (created + suc n))
deadline_after created (negsuc n) = invalid "duration must be non-negative"

abbrev bind_result : {A B : Type 0} → Result A → (A → Result B) → Result B
bind_result (ok a) f = f a
bind_result (err e) f = err e

pub resolve_deadline : Platform → ℕ → String → String → Result (Option ℕ)
resolve_deadline p created env_ttl template_ttl =
    let value = if env_ttl == "" then template_ttl else env_ttl in
    if value == "" then ok none else bind_result (p.parse_duration value) (deadline_after created)

abbrev positive : ℤ → Result ℤ
positive (pos zero) = invalid "deployTimeout must be positive"
positive (pos (suc n)) = ok (pos (suc n))
positive (negsuc n) = invalid "deployTimeout must be positive"

pub resolve_deploy_timeout : Platform → String → ℤ → Result ℤ
resolve_deploy_timeout p template_timeout fallback =
    if template_timeout == ""
    then ok fallback
    else bind_result (p.parse_duration template_timeout) positive

abbrev pub is_phase : EnvironmentPhase → EnvironmentPhase → Bool
is_phase unset unset = true
is_phase pending pending = true
is_phase deploying deploying = true
is_phase ready ready = true
is_phase failed failed = true
is_phase terminating terminating = true
is_phase _ _ = false

abbrev pub set_phase : EnvironmentPhase → M World (Unit {0})
set_phase phase = set_status (λ s. record s { phase = phase })

module _ (api : Api) (p : Platform) where
  abbrev pub set_condition : Bool → String → String → String → M World (Unit {0})
  set_condition is_true type reason message = do
    env ← get_env
    set_status (λ s. record s {
      conditions = p.set_condition s.conditions (record {
        type = type;
        is_true = is_true;
        reason = reason;
        message = message;
        observed_generation = env.generation;
      });
    })

  abbrev pub set_failed : String → String → M World (Unit {0})
  set_failed reason message = do set_condition false "Ready" reason message; set_phase failed

  -- The object in memory loses the finalizer before the patch is sent.
  pub remove_finalizer : M World (Unit {0})
  remove_finalizer w =
      let env = w.env in
      let fs = p.remove_finalizer env.finalizers finalizer in
      call (write_finalizers api env.namespace env.name fs)
        (record w { env = record env { finalizers = fs } })

  abbrev pub get_environment_template : M World EnvironmentTemplate
  get_environment_template = do
    env ← get_env
    call (read_template api env.namespace env.spec.template)

  -- `StatusPatcher.Patch`: nothing to send for an unchanged object.
  abbrev pub patch : Environment → M World (Unit {0})
  patch original = do
    env ← get_env
    let send = do
      sent ← attempt (call (write_status api false env))
      give (ignore_not_found tt sent)
    if p.deep_equal original env then pure tt else send

  -- A patch that the server refuses if the object has changed since it was read.
  abbrev pub locked_patch : M World (Unit {0})
  locked_patch = do env ← get_env; call (write_status api true env)

-- `errors.Join(err, patchErr)` where the patch failed. The kind is the first error's.
abbrev pub join : {A B : Type 0} → Result A → Result B → Result A
join r (ok _) = r
join (ok _) (err e) = err e
join (err e) (err f) = err (record e { text = e.text ++ ("\n" ++ f.text) })
