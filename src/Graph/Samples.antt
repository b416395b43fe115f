-- ===== src/Graph/Samples.antt =====
-- Levels of three components.
use petri_operator.Prelude.{
  ℕ, String, ◌≡◌, refl, List, [], ◌∷◌, arith, All, if◌then◌else◌, ◌==◌, ◌⊎◌,
}
use petri_operator.Types.{ComponentSpec}
use petri_operator.Graph.{
  Built, BuildError, cycle_dependencies, build_levels, build_linked, count_degrees, link, link_deps,
  link_dep, index, level_loop, visit_level, relax, count_visited,
}
use petri_operator.Graph.Correct.{IsLevelling, IsValid, IsRanked}
use petri_operator.Graph.Results.{
  build_levels-IsLevelling, build_levels_accepts, build_levels_total, IsNameError,
}
use petri_operator.Fixtures.{component, components, levels}

pub built : build_levels components ≡ Built.ok levels
unfolding build_levels build_linked count_degrees link link_deps link_dep index level_loop
    visit_level relax count_visited
built = refl

build_levels-IsLevelling_example : IsValid components × IsLevelling components levels
build_levels-IsLevelling_example = build_levels-IsLevelling components levels built

abbrev rank : String → ℕ
rank s = if s == "db" then 0 else if s == "cache" then 1 else 2

ranked : IsRanked rank components
ranked = ((omega arith, (omega arith, tt)), (tt, ((omega arith, tt), tt)))

build_levels_accepts_example :
    (l : List (List ComponentSpec)) × (build_levels components ≡ Built.ok l)
build_levels_accepts_example =
    build_levels_accepts components rank (build_levels-IsLevelling components levels built).0 ranked

-- Two components that need each other.
abbrev knot : List ComponentSpec
knot = component "a" ("b" ∷ []) ∷ component "b" ("a" ∷ []) ∷ []

knot_refused : build_levels knot ≡ Built.err (cycle_dependencies ∷ [])
unfolding build_levels build_linked count_degrees link link_deps link_dep index level_loop
    visit_level relax count_visited
knot_refused = refl

build_levels_total_example :
    ((l : List (List ComponentSpec)) × (build_levels knot ≡ Built.ok l))
    ⊎ ((errs : List BuildError) × (build_levels knot ≡ Built.err errs) × All IsNameError errs)
    ⊎ (build_levels knot ≡ Built.err (cycle_dependencies ∷ []))
build_levels_total_example = build_levels_total knot
