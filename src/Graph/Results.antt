-- ===== src/Graph/Results.antt =====
-- `BuildLevels` as a whole: soundness, completeness, and its errors.
use petri_operator.Prelude.{
  ℕ, ◌≤◌, String, ◌≡◌, ap, subst, ◌∙◌, List, [], ◌∷◌, ◌++◌, arith, length, All, All-append,
  List-cases, ltb, Map, ℤ, pos, put, Option-cases, Bool-cases, inl, inr, empty, ◌⊎◌, count,
}
use petri_operator.Types.{ComponentSpec}
use petri_operator.Graph.{
  BuildError, Links, ok, err, duplicated_component, unknown_dependency, cycle_dependencies,
  out_of_fuel, count_degrees, link_dep, link_deps, link, no_links, enqueue_free, count_visited,
  build_linked, build_levels,
}
use petri_operator.Graph.Levels.{IsFinal}
use petri_operator.Graph.Start.{names-IsDistinct, linked-IsKnown}
use petri_operator.Graph.Correct.{
  IsLevelling, IsValid, IsRanked, build_levels_end, complete_of_visited, visited_of_rank,
}

ok-IsValid :
    (cs : List ComponentSpec) (levels : List (List ComponentSpec))
    → build_levels cs ≡ ok levels
    → IsValid cs
unfolding build_levels build_linked
ok-IsValid cs levels h = elim (List-cases (count_degrees empty [] cs).1) [
  | inr (x, r, e) ↦ absurd (ground arith)
  | inl unique ↦ elim (List-cases (link (count_degrees empty [] cs).0 no_links cs).errs) [
    | inr (x, r, e) ↦ absurd (ground arith)
    | inl linked ↦ record {
      distinct = names-IsDistinct cs unique;
      known = linked-IsKnown cs unique linked;
    }
  ]
]

levelling :
    (cs : List ComponentSpec) (valid : IsValid cs) (out : List (List ComponentSpec))
    (final : IsFinal cs out)
    → length cs ≤ count_visited 0 out
    → IsLevelling cs out
levelling cs valid out final all = record {
  complete =
      λ x. ap (count x) final.collected.placed_names ∙ complete_of_visited cs valid out final all x;
  genuine = final.collected.genuine;
  layered = final.collected.layered;
}

-- If `BuildLevels` returns levels, the names are distinct, every dependency is known, and the
-- levels hold exactly the given components, each once, and each in a level behind those of all
-- its dependencies.
pub build_levels-IsLevelling :
    (cs : List ComponentSpec) (levels : List (List ComponentSpec))
    → build_levels cs ≡ ok levels
    → IsValid cs × IsLevelling cs levels
build_levels-IsLevelling cs levels h =
    let valid = ok-IsValid cs levels h in
    let (out, e, final) = build_levels_end cs valid in
    elim (Bool-cases (ltb (count_visited 0 out) (length cs))) [
      | inl few ↦ absurd (ground arith)
      | inr all ↦
          let same : out ≡ levels = ground arith in
          (valid, subst (IsLevelling cs) same (levelling cs valid out final (ground arith)))
    ]

-- A list of components with distinct names and known dependencies that has a rank, a number for
-- each name that is smaller at each dependency, is never refused.
pub build_levels_accepts :
    (cs : List ComponentSpec) (rank : String → ℕ)
    → IsValid cs
    → IsRanked rank cs
    → (levels : List (List ComponentSpec)) × (build_levels cs ≡ ok levels)
build_levels_accepts cs rank valid ranked =
    let (out, e, final) = build_levels_end cs valid in
    let all = visited_of_rank cs valid out final rank ranked in (out, ground arith)

-- The errors of the loops in front of the level loop are about names.
abbrev pub IsNameError : BuildError → Type 0
IsNameError (duplicated_component _) = Unit
IsNameError (unknown_dependency _ _) = Unit
IsNameError cycle_dependencies = ⊥
IsNameError out_of_fuel = ⊥

count_degrees-IsNameError :
    (m : Map ℤ) (errs : List BuildError) (cs : List ComponentSpec)
    → All IsNameError errs
    → All IsNameError (count_degrees m errs cs).1
unfolding count_degrees
count_degrees-IsNameError m errs [] h = h
count_degrees-IsNameError m errs (c ∷ cs) h = elim (Option-cases (m c.name)) [
  | inl e ↦
      rw (e, count_degrees)
        (count_degrees-IsNameError (put c.name (pos (length c.depends_on)) m) errs cs h)
  | inr (v, e) ↦
      rw (e, count_degrees)
        (count_degrees-IsNameError m (errs ++ duplicated_component c.name ∷ []) cs
          (All-append IsNameError errs (duplicated_component c.name ∷ []) h (tt, tt)))
]

link_deps-IsNameError :
    (degree : Map ℤ) (name : String) (s : Links) (deps : List String)
    → All IsNameError s.errs
    → All IsNameError (link_deps degree name s deps).errs
unfolding link_deps link_dep
link_deps-IsNameError degree name s [] h = h
link_deps-IsNameError degree name s (d ∷ deps) h =
    link_deps-IsNameError degree name (link_dep degree name s d) deps
      (elim (Option-cases (degree d)) [
        | inl e ↦
            rw (e, link_dep)
              (All-append IsNameError s.errs (unknown_dependency d name ∷ []) h (tt, tt))
        | inr (v, e) ↦ rw (e, link_dep) h
      ])

link-IsNameError :
    (degree : Map ℤ) (s : Links) (cs : List ComponentSpec)
    → All IsNameError s.errs
    → All IsNameError (link degree s cs).errs
unfolding link
link-IsNameError degree s [] h = h
link-IsNameError degree s (c ∷ cs) h =
    let t = link_deps degree c.name s c.depends_on in
    let kept : (enqueue_free c t).errs ≡ t.errs = ground arith in
    link-IsNameError degree (enqueue_free c t) cs
      (rw kept (link_deps-IsNameError degree c.name s c.depends_on h))

-- `BuildLevels` ends on every input: it returns levels, or errors about names alone, or the cycle
-- error alone; the rounds given to the model's loop never run out.
pub build_levels_total :
    (cs : List ComponentSpec)
    → ((levels : List (List ComponentSpec)) × (build_levels cs ≡ ok levels))
      ⊎ ((errs : List BuildError) × (build_levels cs ≡ err errs) × All IsNameError errs)
      ⊎ (build_levels cs ≡ err (cycle_dependencies ∷ []))
unfolding build_levels build_linked
build_levels_total cs = elim (List-cases (count_degrees empty [] cs).1) [
  | inr (x, r, e) ↦
      inr (inl (x ∷ r, ground arith, rw e at (count_degrees-IsNameError empty [] cs tt)))
  | inl unique ↦ elim (List-cases (link (count_degrees empty [] cs).0 no_links cs).errs) [
    | inr (x, r, e) ↦ inr (
        inl (
          x ∷ r,
          ground arith,
          rw e at (link-IsNameError (count_degrees empty [] cs).0 no_links cs tt),
        ))
    | inl linked ↦
        let valid : IsValid cs = record {
          distinct = names-IsDistinct cs unique;
          known = linked-IsKnown cs unique linked;
        } in
        let (out, e, final) = build_levels_end cs valid in
        elim (Bool-cases (ltb (count_visited 0 out) (length cs))) [
          | inl few ↦ inr (inr (e ∙ ground arith))
          | inr all ↦ inl (out, e ∙ ground arith)
        ]
  ]
]
