-- ===== src/Status/Lookup.antt =====
-- How the writes to the component statuses are read back.
use petri_operator.Prelude.{
  ℕ, zero, suc, ◌+◌, ◌<◌, String, Bool, some, none, List, [], ◌∷◌, ◌++◌, ◌≡◌, refl, arith, ◌==◌,
  if◌then◌else◌, eq_iff, leb,
}
use petri_operator.Types.{ComponentPhase, ComponentStatus, pending}
use petri_operator.Status.{
  find_component, modify_component, set_component_phase, new_status, record_runtime_failure,
  failed_once, max_deploy_retries,
}

-- A write through the pointer reaches the entry that a lookup of its name finds, and no other.
find_component-modify_component :
    (name j : String) (f : ComponentStatus → ComponentStatus) (statuses : List ComponentStatus)
    → ((cs : ComponentStatus) → (f cs).name ≡ cs.name)
    → find_component j (modify_component name f statuses) ≡ (
        if name == j
        then elim (find_component j statuses) [ none ↦ none | some cs ↦ some (f cs) ]
        else find_component j statuses)
unfolding find_component modify_component
find_component-modify_component name j f [] keep = ground arith
find_component-modify_component name j f (cs ∷ statuses) keep = ground (
  arith,
  keep cs,
  eq_iff cs.name name,
  eq_iff cs.name j,
  eq_iff name j,
  find_component-modify_component name j f statuses keep,
)

find_component-snoc :
    (j : String) (statuses : List ComponentStatus) (cs : ComponentStatus)
    → find_component j (statuses ++ cs ∷ []) ≡ elim (find_component j statuses) [
      | some found ↦ some found
      | none ↦ if cs.name == j then some cs else none
    ]
unfolding find_component
find_component-snoc j [] cs = refl
find_component-snoc j (x ∷ statuses) cs = ground (arith, find_component-snoc j statuses cs)

abbrev status_or_new : String → List ComponentStatus → ComponentStatus
status_or_new name statuses = elim (find_component name statuses) [
  | some cs ↦ cs
  | none ↦ new_status name pending
]

-- `setComponentPhase` gives the component's entry the phase and leaves the rest of it, or makes a
-- fresh entry if there is none. The entries of other names stay.
find_component-set_component_phase :
    (name j : String) (phase : ComponentPhase) (statuses : List ComponentStatus)
    → find_component j (set_component_phase name phase statuses) ≡ (
        if name == j
        then some (record (status_or_new name statuses) { phase = phase })
        else find_component j statuses)
unfolding set_component_phase
find_component-set_component_phase name j phase statuses = ground (
  arith,
  eq_iff name j,
  find_component-modify_component name j (λ cs. record cs { phase = phase }) statuses (λ cs. refl),
  find_component-snoc j statuses (new_status name phase),
)

-- `recordRuntimeFailure` counts the failure, keeps its reason, makes the component pending with
-- its deploy clock cleared, and leaves the entries of other names.
find_component-record_runtime_failure :
    (name j reason : String) (statuses : List ComponentStatus)
    → find_component j (record_runtime_failure name reason statuses).0 ≡ (
        if name == j
        then some (failed_once reason (status_or_new name statuses))
        else find_component j statuses)
unfolding record_runtime_failure
find_component-record_runtime_failure name j reason statuses = ground (
  arith,
  eq_iff name j,
  find_component-modify_component name j (failed_once reason) statuses (λ cs. refl),
  find_component-snoc j statuses
      (record (new_status name pending) { deploy_retries = 1; last_failure_reason = reason }),
)

-- The failures recorded so far for a component; none if it has no entry.
unfoldable pub retries : String → List ComponentStatus → ℕ
retries name statuses = (status_or_new name statuses).deploy_retries

record_runtime_failure_exhausted :
    (name reason : String) (statuses : List ComponentStatus)
    → retries name statuses < 2147483647
    → (record_runtime_failure name reason statuses).1
      ≡ leb max_deploy_retries (retries name statuses + 1)
unfolding record_runtime_failure retries
record_runtime_failure_exhausted name reason statuses h = ground arith

-- n failures of one component in a row, and what the last of them returned.
abbrev pub fail_times : ℕ → String → String → List ComponentStatus → List ComponentStatus × Bool
fail_times zero name reason statuses = record_runtime_failure name reason statuses
fail_times (suc n) name reason statuses =
    fail_times n name reason (record_runtime_failure name reason statuses).0

retries-record_runtime_failure :
    (name reason : String) (statuses : List ComponentStatus)
    → retries name statuses < 2147483647
    → retries name (record_runtime_failure name reason statuses).0 ≡ retries name statuses + 1
unfolding retries
retries-record_runtime_failure name reason statuses h =
    ground
      (arith, eq_iff name name, find_component-record_runtime_failure name name reason statuses)

-- However the statuses began, n + 1 failures of a component in a row raise its counter by n + 1,
-- and the last of them reports the retries as exhausted exactly if the counter has reached five,
-- as long as the counter fits an int32.
pub fail_times_exhausted :
    (n : ℕ) (name reason : String) (statuses : List ComponentStatus)
    → retries name statuses + n < 2147483647
    → (retries name (fail_times n name reason statuses).0 ≡ retries name statuses + suc n)
      × ((fail_times n name reason statuses).1
          ≡ leb max_deploy_retries (retries name statuses + suc n))
fail_times_exhausted zero name reason statuses h = (
  retries-record_runtime_failure name reason statuses (omega arith),
  record_runtime_failure_exhausted name reason statuses (omega arith),
)
fail_times_exhausted (suc n) name reason statuses h =
    let once = retries-record_runtime_failure name reason statuses (omega arith) in
    ground
      (arith, fail_times_exhausted n name reason (record_runtime_failure name reason statuses).0)
