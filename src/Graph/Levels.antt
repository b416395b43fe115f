-- ===== src/Graph/Levels.antt =====
-- The level loop ends within its fuel, and what its levels are.
use petri_operator.Prelude.{
  ℕ, suc, zero, ◌+◌, ◌≤◌, ◌<◌, String, some, ◌≡◌, refl, sym, ◌∙◌, List, [], ◌∷◌, ◌++◌, map, arith,
  length, length-append, length-map, All, All-append, flatten, flatten-snoc, count, count-append,
  Map, at, ℤ, Option-cases, inl, inr, append_assoc, append-nil, map-append, subst, at-some,
}
use petri_operator.Types.{ComponentSpec, names, zero_component}
use petri_operator.Graph.{level_loop, relax}
use petri_operator.Graph.Counting.{
  covered, IsDistinct, All-of_count, covered-le, covered_full, find, find-name, count-names_of_find,
  adjacent, length-le_of_covered,
}
use petri_operator.Graph.Relax.{visit_level_lem}
use petri_operator.Graph.Rounds.{IsWired, IsRound, placed-IsDistinct, IsRound-IsRound}

-- Each dependency of a component of a level is the name of a component of an earlier level.
abbrev pub IsLayered : List String → List (List ComponentSpec) → Type 0
IsLayered earlier [] = Unit
IsLayered earlier (level ∷ levels) =
    All (λ c. All (λ d. count d earlier ≡ 1) c.depends_on) level
    × IsLayered (earlier ++ names level) levels

IsLayered-snoc :
    (earlier : List String) (levels : List (List ComponentSpec)) (level : List ComponentSpec)
    → IsLayered earlier levels
    → All (λ c. All (λ d. count d (earlier ++ names (flatten levels)) ≡ 1) c.depends_on) level
    → IsLayered earlier (levels ++ level ∷ [])
IsLayered-snoc earlier [] level h new = (rw (append-nil earlier) at new, tt)
IsLayered-snoc earlier (l ∷ levels) level h new = (
  h.0,
  IsLayered-snoc (earlier ++ names l) levels level h.1
      (subst (λ p. All (λ c. All (λ d. count d p ≡ 1) c.depends_on) level) same new),
)
  where
    same : earlier ++ names (l ++ flatten levels) ≡ (earlier ++ names l) ++ names (flatten levels)
    same = simp (map-append, append_assoc)

-- The levels hold the components of the placed names, as they were given.
pub record IsCollected (cs : List ComponentSpec) (placed : List String)
    (levels : List (List ComponentSpec)) : Type 0 where
  pub placed_names : names (flatten levels) ≡ placed
  pub genuine : All (λ c. find c.name cs ≡ some c) (flatten levels)
  pub layered : IsLayered [] levels

-- What the loop returns: all that can be placed is placed.
pub record IsFinal (cs : List ComponentSpec) (levels : List (List ComponentSpec)) : Type 0 where
  pub placed : List String
  pub degree : Map ℤ
  pub collected : IsCollected cs placed levels
  pub round : IsRound cs degree placed []

abbrev IsReady : List ComponentSpec → List String → String → Type 0
IsReady cs placed x =
    (c : ComponentSpec) × (find x cs ≡ some c) × All (λ d. count d placed ≡ 1) c.depends_on

module _ (cs : List ComponentSpec) (adjacency : Map (List String)) (w : IsWired cs adjacency)
    (by_name : Map ComponentSpec) (indexed : (x : String) → by_name x ≡ find x cs) where
  abbrev collect : List String → List ComponentSpec
  collect queue = map (λ x. at zero_component by_name x) queue

  collect_lem :
      (placed queue : List String)
      → All (IsReady cs placed) queue
      → (names (collect queue) ≡ queue)
        × All (λ c. find c.name cs ≡ some c) (collect queue)
        × All (λ c. All (λ d. count d placed ≡ 1) c.depends_on) (collect queue)
  collect_lem placed [] h = (refl, tt, tt)
  collect_lem placed (x ∷ queue) (ready, h) =
      let (c, e, deps) = ready in
      let (same, genuine, placed_deps) = collect_lem placed queue h in
      let named = find-name x cs c e in
      rw (at-some zero_component by_name x c (indexed x ∙ e))
        (cc, (subst (λ y. find y cs ≡ some c) (sym named) e, genuine), (deps, placed_deps))

  module _ (degree : Map ℤ) (placed queue : List String) (r : IsRound cs degree placed queue) where
    queue-IsReady : All (IsReady cs placed) queue
    queue-IsReady = All-of_count (IsReady cs placed) queue λ x m. elim (Option-cases (find x cs)) [
      | inl e ↦ absurd (omega (arith, r.foreign x e, count-append x placed queue))
      | inr (c, e) ↦ (c, e, covered_full placed c.depends_on placed_once (full x c e m))
    ]
      where
        placed_once : IsDistinct placed
        placed_once y = omega (
          arith,
          placed-IsDistinct cs adjacency w degree placed queue r y,
          count-append y placed queue,
        )

        full :
            (x : String) (c : ComponentSpec)
            → find x cs ≡ some c
            → 0 < count x queue
            → covered placed c.depends_on ≡ length c.depends_on
        full x c e m = ground (
          arith,
          r.queued x c e,
          count-append x placed queue,
          covered-le placed c.depends_on placed_once,
        )

    placed-le : length (placed ++ queue) ≤ length cs
    placed-le = omega (
      arith,
      length-map (λ (c : ComponentSpec). c.name) cs,
      length-le_of_covered (placed ++ queue) (names cs)
          (placed-IsDistinct cs adjacency w degree placed queue r)
          (All-of_count (λ x. count x (names cs) ≡ 1) (placed ++ queue) named),
    )
      where
        named : (x : String) → 0 < count x (placed ++ queue) → count x (names cs) ≡ 1
        named x m = elim (Option-cases (find x cs)) [
          | inl e ↦ absurd (omega (arith, r.foreign x e))
          | inr (c, e) ↦ omega (arith, count-names_of_find x cs c e, w.distinct x)
        ]

    -- The level of the queue joins the collected ones.
    round-IsCollected :
        (levels : List (List ComponentSpec))
        → IsCollected cs placed levels
        → IsCollected cs (placed ++ queue) (levels ++ collect queue ∷ [])
    round-IsCollected levels h =
        let (same, genuine, ready) = collect_lem placed queue queue-IsReady in
        record {
          placed_names = rw (flatten-snoc levels (collect queue)) (
              cc (
                map-append (λ (c : ComponentSpec). c.name) (flatten levels) (collect queue),
                h.placed_names,
                same,
              ));
          genuine = rw (flatten-snoc levels (collect queue)) (
              All-append (λ c. find c.name cs ≡ some c) (flatten levels) (collect queue) h.genuine
                genuine);
          layered = IsLayered-snoc [] levels (collect queue) h.layered (
              subst (λ p. All (λ c. All (λ d. count d p ≡ 1) c.depends_on) (collect queue))
                (sym h.placed_names) ready);
        }

  pub level_loop_lem :
      (fuel : ℕ) (degree : Map ℤ) (placed queue : List String) (levels : List (List ComponentSpec))
      → IsRound cs degree placed queue
      → IsCollected cs placed levels
      → length cs < fuel + length placed
      → (out : List (List ComponentSpec)) × (level_loop fuel adjacency by_name degree queue levels
          ≡ some out)
        × IsFinal cs out
  unfolding level_loop
  level_loop_lem zero degree placed queue levels r h enough =
      absurd (omega (arith, placed-le degree placed queue r, length-append placed queue))
  level_loop_lem (suc fuel) degree placed [] levels r h enough =
      (levels, refl, record { placed = placed; degree = degree; collected = h; round = r })
  level_loop_lem (suc fuel) degree placed (x ∷ queue) levels r h enough =
      let next = relax degree [] (adjacent adjacency (x ∷ queue)) in
      let (out, e, final) =
        level_loop_lem fuel next.0 (placed ++ x ∷ queue) next.1 (levels ++ collect (x ∷ queue) ∷ [])
          (IsRound-IsRound cs adjacency w degree placed (x ∷ queue) r)
          (round-IsCollected degree placed (x ∷ queue) r levels h)
          (omega (arith, length-append placed (x ∷ queue))) in
      (out, rw (visit_level_lem adjacency by_name degree [] [] (x ∷ queue)) e, final)
