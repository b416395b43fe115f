-- ===== src/Environments/Frontier.antt =====
-- internal/controller/ephemeralenvironment_controller.go: the pure steps of `reconcile`, from the
-- components' statuses to the level that is deployed next, and the time of the next try.
use petri_operator.Prelude.{
  ℕ, ◌-◌, String, ◌||◌, Option, none, some, List, [], ◌∷◌, ltb, leb, if◌then◌else◌, ◌==◌,
}
use Prim.Native.String.{◌++◌, count}
use petri_operator.Types.{ComponentSpec, ComponentStatus}
use petri_operator.Status.{PhaseMap, all_ready}
use petri_operator.Graph.{
  BuildError, duplicated_component, unknown_dependency, cycle_dependencies, out_of_fuel,
}

-- A later status of a name overrides an earlier one.
abbrev pub phases_by_name : List ComponentStatus → PhaseMap → PhaseMap
phases_by_name [] m = m
phases_by_name (cs ∷ statuses) m =
    phases_by_name statuses (λ name. if cs.name == name then cs.phase else m name)

-- The level of `firstPending`.
pub first_pending : List (List ComponentSpec) → PhaseMap → Option (List ComponentSpec)
first_pending [] phase_by_name = none
first_pending (level ∷ levels) phase_by_name =
    let rest = first_pending levels phase_by_name in
    if all_ready level phase_by_name then rest else some level

-- The first component whose release name is longer than helm allows.
abbrev pub overlong : String → List ComponentSpec → Option String
overlong env_name [] = none
overlong env_name (c ∷ components) =
    let rest = overlong env_name components in
    let release = env_name ++ ("-" ++ c.name) in
    if leb (count release) 53 then rest else some release

-- The time of the next try is cut to the time left until the deadline.
unfoldable pub next_try : ℕ → ℕ → ℕ → ℕ
next_try requeue deadline now =
    let remaining = if leb deadline now then 1 else deadline - now in
    if leb requeue 0 || ltb remaining requeue then remaining else requeue

-- `err.Error()` of the errors that `BuildLevels` joins.
abbrev pub message : BuildError → String
message (duplicated_component name) = "duplicated component: " ++ name
message (unknown_dependency dep name) = "unknown dependency " ++ (dep ++ (" in component " ++ name))
message cycle_dependencies = "cycle dependencies found"
message out_of_fuel = ""

abbrev pub messages : List BuildError → String
messages [] = ""
messages (e ∷ []) = message e
messages (e ∷ es) = message e ++ ("\n" ++ messages es)
