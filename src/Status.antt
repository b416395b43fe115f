-- ===== src/Status.antt =====
-- internal/controller/component_status.go: the statuses of an environment's components. The code
-- changes `env.Status.Components` through a pointer to the first entry of a name; here each
-- function returns the new list. Durations are nanoseconds.
pub mod Lookup
pub mod Backoff
mod Samples
use petri_operator.Prelude.{
  ℕ, zero, ◌+◌, ◌*◌, ◌^◌, ◌%◌, String, Bool, true, false, ◌&&◌, ◌||◌, Option, none, some, List, [],
  ◌∷◌, ◌++◌, ltb, leb, if◌then◌else◌, ◌==◌, i32_inc, i32_lt, not, ◌≡◌,
}
use petri_operator.Types.{
  ComponentSpec, ComponentStatus, ComponentPhase, unset, pending, submitting, deploying, ready,
  failed,
}

-- internal/controller/ephemeralenvironment_controller.go: the constants of the retries.
abbrev pub requeue_after : ℕ
requeue_after = 10000000000

abbrev pub requeue_immediate : ℕ
requeue_immediate = 1000000000

abbrev pub max_deploy_retries : ℕ
max_deploy_retries = 5

abbrev pub max_deploy_backoff : ℕ
max_deploy_backoff = 300000000000

pub ComponentPhase-discrete : Discrete ComponentPhase
ComponentPhase-discrete = hlevel

abbrev pub is_ready : ComponentPhase → Bool
is_ready ready = true
is_ready _ = false

abbrev pub PhaseMap : Type 0
PhaseMap = String → ComponentPhase

pub all_ready : List ComponentSpec → PhaseMap → Bool
all_ready [] phase_by_name = true
all_ready (c ∷ level) phase_by_name =
    if is_ready (phase_by_name c.name) then all_ready level phase_by_name else false

unfoldable pub find_component : String → List ComponentStatus → Option ComponentStatus
find_component name [] = none
find_component name (cs ∷ statuses) =
    if cs.name == name then some cs else find_component name statuses

-- The write through the pointer that `findComponent` returns; nothing if it is nil.
unfoldable pub modify_component :
    String → (ComponentStatus → ComponentStatus) → List ComponentStatus → List ComponentStatus
modify_component name f [] = []
modify_component name f (cs ∷ statuses) =
    if cs.name == name then f cs ∷ statuses else cs ∷ modify_component name f statuses

abbrev pub new_status : String → ComponentPhase → ComponentStatus
new_status name phase = record {
  name = name;
  shared = false;
  phase = phase;
  deploy_retries = 0;
  deploying_since = none;
  last_failure_reason = "";
}

unfoldable pub set_component_phase :
    String → ComponentPhase → List ComponentStatus → List ComponentStatus
unfolding find_component modify_component
set_component_phase name phase statuses = elim (find_component name statuses) [
  | some _ ↦ modify_component name (λ cs. record cs { phase = phase }) statuses
  | none ↦ statuses ++ new_status name phase ∷ []
]

pub set_component_shared : String → List ComponentStatus → List ComponentStatus
unfolding modify_component
set_component_shared name statuses =
    modify_component name (λ cs. record cs { shared = true }) statuses

abbrev pub failed_once : String → ComponentStatus → ComponentStatus
failed_once reason cs = record cs {
  deploy_retries = i32_inc cs.deploy_retries;
  last_failure_reason = reason;
  phase = pending;
  deploying_since = none;
}

-- The new statuses, and whether the retries are exhausted.
unfoldable pub record_runtime_failure :
    String → String → List ComponentStatus → List ComponentStatus × Bool
unfolding find_component modify_component
record_runtime_failure name reason statuses = elim (find_component name statuses) [
  | some cs ↦ (
    modify_component name (failed_once reason) statuses,
    not (i32_lt (failed_once reason cs).deploy_retries max_deploy_retries),
  )
  | none ↦ (
    statuses
        ++ record (new_status name pending) { deploy_retries = 1; last_failure_reason = reason }
          ∷ [],
    leb max_deploy_retries 1,
  )
]

pub reset_component_failure : String → List ComponentStatus → List ComponentStatus
unfolding modify_component
reset_component_failure name statuses =
    modify_component name (λ cs. record cs { deploy_retries = 0; last_failure_reason = "" })
      statuses

abbrev start_deploying : ℕ → ComponentStatus → ComponentStatus
start_deploying t cs = elim cs.deploying_since [
  | none ↦ record cs { deploying_since = some t }
  | some _ ↦ cs
]

pub set_component_deploying_since : String → ℕ → List ComponentStatus → List ComponentStatus
unfolding modify_component
set_component_deploying_since name t statuses = modify_component name (start_deploying t) statuses

unfoldable pub component_deploying_since : String → List ComponentStatus → Option ℕ
unfolding find_component
component_deploying_since name statuses = elim (find_component name statuses) [
  | some cs ↦ cs.deploying_since
  | none ↦ none
]

abbrev pub is_named : String → List ComponentSpec → Bool
is_named name [] = false
is_named name (c ∷ cs) = if c.name == name then true else is_named name cs

-- The loop over `env.Status.Components`.
pub max_retries_of : ℕ → List ComponentSpec → List ComponentStatus → ℕ
max_retries_of max_retries components [] = max_retries
max_retries_of max_retries components (cs ∷ statuses) =
    max_retries_of
      (if is_named cs.name components && i32_lt max_retries cs.deploy_retries
        then cs.deploy_retries
        else max_retries)
      components statuses

-- `requeueAfter << maxRetries` is an int64: 2 ^ 63 and more stand for negative numbers.
pub backoff_of : ℕ → ℕ
backoff_of max_retries =
    let backoff = requeue_after * 2 ^ max_retries % 18446744073709551616 in
    if ltb max_deploy_backoff backoff || leb 9223372036854775808 backoff || leb backoff 0
    then max_deploy_backoff
    else backoff

pub deploy_backoff : List ComponentStatus → List ComponentSpec → ℕ
unfolding max_retries_of backoff_of
deploy_backoff statuses components = backoff_of (max_retries_of 0 components statuses)
