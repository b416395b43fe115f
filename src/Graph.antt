-- ===== src/Graph.antt =====
-- internal/graph/kahn.go: deployment levels by Kahn's algorithm.
pub mod Counting
pub mod Relax
pub mod Setup
pub mod Rounds
pub mod Levels
pub mod Start
pub mod Correct
pub mod Results
pub mod Cover
pub mod Samples
use petri_operator.Prelude.{
  ℕ, zero, suc, String, Option, none, some, List, [], ◌∷◌, ◌++◌, ltb, if◌then◌else◌, length, ℤ, pos,
  pred_ℤ, is_zero, Map, empty, put, at,
}
use petri_operator.Types.{ComponentSpec, zero_component}

pub data BuildError : Type 0 where
  duplicated_component : String → BuildError
  unknown_dependency : String → String → BuildError
  cycle_dependencies : BuildError
  -- Not an error of the code: the rounds given to the model's loop ran out.
  out_of_fuel : BuildError

pub data Built : Type 0 where
  ok : List (List ComponentSpec) → Built
  err : List BuildError → Built

-- The first loop: `inDegree`, and the errors for names met twice.
pub count_degrees : Map ℤ → List BuildError → List ComponentSpec → Map ℤ × List BuildError
count_degrees degree errs [] = (degree, errs)
count_degrees degree errs (c ∷ cs) = elim (degree c.name) [
  | some _ ↦ count_degrees degree (errs ++ duplicated_component c.name ∷ []) cs
  | none ↦ count_degrees (put c.name (pos (length c.depends_on)) degree) errs cs
]

pub record Links : Type 0 where
  pub adjacency : Map (List String)
  pub queue : List String
  pub errs : List BuildError

-- The body of the loop over `c.DependsOn`.
pub link_dep : Map ℤ → String → Links → String → Links
link_dep degree name s dep = elim (degree dep) [
  | none ↦ record s { errs = s.errs ++ unknown_dependency dep name ∷ [] }
  | some _ ↦ record s { adjacency = put dep (at [] s.adjacency dep ++ name ∷ []) s.adjacency }
]

pub link_deps : Map ℤ → String → Links → List String → Links
link_deps degree name s [] = s
link_deps degree name s (dep ∷ deps) = link_deps degree name (link_dep degree name s dep) deps

abbrev pub enqueue_free : ComponentSpec → Links → Links
enqueue_free c s = elim c.depends_on [ [] ↦ record s { queue = s.queue ++ c.name ∷ [] } | _ ↦ s ]

-- The second loop: `adjacency`, the first queue, and the errors for unknown names.
pub link : Map ℤ → Links → List ComponentSpec → Links
link degree s [] = s
link degree s (c ∷ cs) = link degree (enqueue_free c (link_deps degree c.name s c.depends_on)) cs

pub index : Map ComponentSpec → List ComponentSpec → Map ComponentSpec
index by_name [] = by_name
index by_name (c ∷ cs) = index (put c.name c by_name) cs

-- The loop over `adjacency[name]`. `next` is the part of the queue behind `levelSize`.
pub relax : Map ℤ → List String → List String → Map ℤ × List String
relax degree next [] = (degree, next)
relax degree next (dep ∷ deps) =
    let left = pred_ℤ (at (pos 0) degree dep) in
    relax (put dep left degree) (if is_zero left then next ++ dep ∷ [] else next) deps

-- The loop over `queue[:levelSize]`, with the level that it collects.
pub visit_level :
    Map (List String)
    → Map ComponentSpec
    → Map ℤ
    → List String
    → List ComponentSpec
    → List String
    → Map ℤ × List String × List ComponentSpec
visit_level adjacency by_name degree next level [] = (degree, next, level)
visit_level adjacency by_name degree next level (name ∷ queue) =
    let (degree', next') = relax degree next (at [] adjacency name) in
    visit_level adjacency by_name degree' next' (level ++ at zero_component by_name name ∷ []) queue

-- `for len(queue) > 0`, with one unit of fuel for a round.
pub level_loop :
    ℕ
    → Map (List String)
    → Map ComponentSpec
    → Map ℤ
    → List String
    → List (List ComponentSpec)
    → Option (List (List ComponentSpec))
level_loop zero adjacency by_name degree queue levels = none
level_loop (suc fuel) adjacency by_name degree [] levels = some levels
level_loop (suc fuel) adjacency by_name degree (name ∷ queue) levels =
    let (degree', next, level) = visit_level adjacency by_name degree [] [] (name ∷ queue) in
    level_loop fuel adjacency by_name degree' next (levels ++ level ∷ [])

pub count_visited : ℕ → List (List ComponentSpec) → ℕ
count_visited visited [] = visited
count_visited visited (level ∷ levels) =
    count_visited (Prim.Native.Nat.◌+◌ visited (length level)) levels

abbrev pub check_cycle : List ComponentSpec → Option (List (List ComponentSpec)) → Built
check_cycle components none = err (out_of_fuel ∷ [])
check_cycle components (some levels) =
    if ltb (count_visited 0 levels) (length components)
    then err (cycle_dependencies ∷ [])
    else ok levels

abbrev pub no_links : Links
no_links = record { adjacency = empty; queue = []; errs = [] }

-- `BuildLevels` behind its first return.
pub build_linked : Map ℤ → List ComponentSpec → Built
build_linked degree components =
    let s = link degree no_links components in
    elim s.errs [
      | [] ↦ check_cycle components (
          level_loop (suc (length components)) s.adjacency (index empty components) degree s.queue
            [])
      | e ∷ es ↦ err (e ∷ es)
    ]

pub build_levels : List ComponentSpec → Built
build_levels components =
    let (degree, errs) = count_degrees empty [] components in
    elim errs [ [] ↦ build_linked degree components | e ∷ es ↦ err (e ∷ es) ]
