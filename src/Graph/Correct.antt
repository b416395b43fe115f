-- ===== src/Graph/Correct.antt =====
-- What `BuildLevels` returns.
use petri_operator.Prelude.{
  ℕ, suc, zero, ◌+◌, ◌≤◌, ◌<◌, String, some, ◌≡◌, refl, ap, List, [], ◌∷◌, arith, ◌==◌, length,
  length-append, length-map, All, count, count-append, flatten, Option-cases, Bool-cases, inl, inr,
  empty, eq_iff, subst,
}
use petri_operator.Types.{ComponentSpec, names}
use petri_operator.Graph.{
  count_degrees, link, index, no_links, count_visited, check_cycle, build_linked, build_levels,
}
use petri_operator.Graph.Counting.{
  IsDistinct, find, find-name, covered-le, covered_comm, covered_full, covered_of_All, All-of_count,
  count-names_of_none, count-names_of_find,
}
use petri_operator.Graph.Levels.{IsLayered, IsFinal, level_loop_lem}
use petri_operator.Graph.Start.{
  IsKnown, index-find, linked-IsWired, linked-IsRound, unique_of_distinct, linked_of_known,
  find_of_count,
}

count_visited_lem :
    (n : ℕ) (levels : List (List ComponentSpec))
    → count_visited n levels ≡ n + length (flatten levels)
unfolding count_visited
count_visited_lem n [] = omega arith
count_visited_lem n (l ∷ levels) =
    omega (arith, count_visited_lem (n + length l) levels, length-append l (flatten levels))

pub All-find :
    (P : ComponentSpec → Type 0) (x : String) (cs : List ComponentSpec) (c : ComponentSpec)
    → All P cs
    → find x cs ≡ some c
    → P c
All-find P x [] c h e = absurd (ground arith)
All-find P x (b ∷ cs) c h e = elim (Bool-cases (b.name == x)) [
  | inl hit ↦ subst P (ground arith) h.0
  | inr miss ↦ All-find P x cs c h.1 (ground arith)
]

All-count : (P : String → Type 0) (x : String) (xs : List String) → All P xs → 0 < count x xs → P x
All-count P x [] h m = absurd (omega arith)
All-count P x (y ∷ xs) h m = elim (Bool-cases (y == x)) [
  | inl hit ↦ subst P ((eq_iff y x).0 hit) h.0
  | inr miss ↦ All-count P x xs h.1 (ground arith)
]

-- A levelling: the components as given, each once, behind its dependencies.
pub record IsLevelling (cs : List ComponentSpec) (levels : List (List ComponentSpec)) : Type 0 where
  pub complete : (x : String) → count x (names (flatten levels)) ≡ count x (names cs)
  pub genuine : All (λ c. find c.name cs ≡ some c) (flatten levels)
  pub layered : IsLayered [] levels

-- The names are distinct, and every dependency is one of them.
pub record IsValid (cs : List ComponentSpec) : Type 0 where
  pub distinct : IsDistinct (names cs)
  pub known : IsKnown cs cs

abbrev pub IsRanked : (String → ℕ) → List ComponentSpec → Type 0
IsRanked rank cs = All (λ c. All (λ d. rank d < rank c.name) c.depends_on) cs

module _ (cs : List ComponentSpec) (valid : IsValid cs) where
  unique : (count_degrees empty [] cs).1 ≡ []
  unique = unique_of_distinct cs valid.distinct

  linked : (link (count_degrees empty [] cs).0 no_links cs).errs ≡ []
  linked = linked_of_known cs unique valid.known

  pub build_levels_end :
      (out : List (List ComponentSpec)) × (build_levels cs ≡ check_cycle cs (some out))
      × IsFinal cs out
  unfolding build_levels build_linked
  build_levels_end =
      let (out, e, final) =
        level_loop_lem cs (link (count_degrees empty [] cs).0 no_links cs).adjacency
          (linked-IsWired cs unique linked) (index empty cs) (index-find cs unique)
          (suc (length cs)) (count_degrees empty [] cs).0 []
          (link (count_degrees empty [] cs).0 no_links cs).queue []
          (linked-IsRound cs unique linked)
          (record { placed_names = refl; genuine = tt; layered = tt }) (omega arith) in
      (out, rw (unique, build_levels, linked, build_linked, e) refl, final)

  module _ (out : List (List ComponentSpec)) (final : IsFinal cs out) where
    open final use {placed, round}

    visited-placed : count_visited 0 out ≡ length placed
    visited-placed = omega (
      arith,
      count_visited_lem 0 out,
      length-map (λ (c : ComponentSpec). c.name) (flatten out),
      ap length final.collected.placed_names,
    )

    placed-IsDistinct : IsDistinct placed
    placed-IsDistinct x = elim (Option-cases (find x cs)) [
      | inl e ↦ omega (arith, round.foreign x e, count-append x placed [])
      | inr (c, e) ↦ ground (arith, round.queued x c e, count-append x placed [])
    ]

    placed_named : All (λ x. count x (names cs) ≡ 1) placed
    placed_named =
        All-of_count (λ x. count x (names cs) ≡ 1) placed
          λ x m. elim (Option-cases (find x cs)) [
            | inl e ↦ absurd (omega (arith, round.foreign x e, count-append x placed []))
            | inr (c, e) ↦ omega (arith, count-names_of_find x cs c e, valid.distinct x)
          ]

    -- As many names as components were placed, so every component is.
    pub complete_of_visited :
        length cs ≤ count_visited 0 out → (x : String) → count x placed ≡ count x (names cs)
    complete_of_visited all x = elim (Option-cases (find x cs)) [
      | inl e ↦
          omega (arith, round.foreign x e, count-append x placed [], count-names_of_none x cs e)
      | inr (c, e) ↦
          let one =
            All-count (λ y. count y placed ≡ 1) x (names cs) each (count-names_of_find x cs c e) in
          omega (arith, one, count-names_of_find x cs c e, valid.distinct x)
    ]
      where
        each : All (λ y. count y placed ≡ 1) (names cs)
        each = covered_full placed (names cs) placed-IsDistinct (
            omega (
              arith,
              visited-placed,
              covered_comm placed (names cs),
              covered_of_All (names cs) placed placed_named,
              covered-le placed (names cs) placed-IsDistinct,
              length-map (λ (c : ComponentSpec). c.name) cs,
            ))

    -- Below a rank that falls along dependencies every component is placed.
    placed_of_rank :
        (rank : String → ℕ)
        → IsRanked rank cs
        → (n : ℕ) (x : String) → rank x < n
        → 0 < count x (names cs)
        → count x placed ≡ 1
    placed_of_rank rank ranked zero x lt m = absurd (omega arith)
    placed_of_rank rank ranked (suc n) x lt m =
        let (c, e) = find_of_count x cs m in
        let falls = All-find (λ c. All (λ d. rank d < rank c.name) c.depends_on) x cs c ranked e in
        let known =
          All-find (λ c. All (λ d. 0 < count d (names cs)) c.depends_on) x cs c valid.known e in
        let below : All (λ d. count d placed ≡ 1) c.depends_on =
          All-of_count (λ d. count d placed ≡ 1) c.depends_on
            λ d k.
              placed_of_rank rank ranked n d
                (omega (
                  arith,
                  ap rank (find-name x cs c e),
                  All-count (λ y. rank y < rank c.name) d c.depends_on falls k,
                ))
                (All-count (λ y. 0 < count y (names cs)) d c.depends_on known k) in
        ground (
          arith,
          covered_of_All placed c.depends_on below,
          round.queued x c e,
          count-append x placed [],
        )

    pub visited_of_rank : (rank : String → ℕ) → IsRanked rank cs → length cs ≤ count_visited 0 out
    visited_of_rank rank ranked = omega (
      arith,
      visited-placed,
      covered_comm placed (names cs),
      covered_of_All placed (names cs) (
          All-of_count (λ x. count x placed ≡ 1) (names cs)
            λ x m. placed_of_rank rank ranked (suc (rank x)) x (omega arith) m),
      covered-le (names cs) placed valid.distinct,
      length-map (λ (c : ComponentSpec). c.name) cs,
    )
