-- ===== src/Graph/Start.antt =====
-- From the first loops of `BuildLevels` to the head of its level loop.
use petri_operator.Prelude.{
  ◌+◌, ◌≤◌, ◌<◌, String, some, ◌≡◌, refl, ◌∙◌, List, [], ◌∷◌, arith, length, All, All-map, count,
  Map, ℤ, pos, Option-cases, inl, inr, empty, put, eq_iff,
}
use petri_operator.Types.{ComponentSpec, names}
use petri_operator.Graph.{
  BuildError, Links, count_degrees, link_dep, link_deps, link, index, no_links, enqueue_free,
}
use petri_operator.Graph.Counting.{
  IsDistinct, find, find-name, count-names_of_find, count-names_of_none, covered-nil,
}
use petri_operator.Graph.Setup.{
  known, full_degree, count_degrees_lem, link_lem, index_lem, edges_of_find, free_of_find,
}
use petri_operator.Graph.Rounds.{IsWired, IsRound}

-- Every dependency names a component.
abbrev pub IsKnown : List ComponentSpec → List ComponentSpec → Type 0
IsKnown all cs = All (λ c. All (λ d. 0 < count d (names all)) c.depends_on) cs

module _ (cs : List ComponentSpec) (unique : (count_degrees empty [] cs).1 ≡ []) where
  abbrev degrees : Map ℤ
  degrees = (count_degrees empty [] cs).0

  pub names-IsDistinct : IsDistinct (names cs)
  names-IsDistinct x = omega (arith, (count_degrees_lem x empty [] cs unique).1)

  degrees_lem : (x : String) → degrees x ≡ full_degree (find x cs)
  degrees_lem x = (count_degrees_lem x empty [] cs unique).2

  pub index-find : (x : String) → index empty cs x ≡ find x cs
  index-find x = index_lem x empty cs (names-IsDistinct x) ∙ ground arith

  module _ (linked : (link degrees no_links cs).errs ≡ []) where
    pub linked-IsWired : IsWired cs (link degrees no_links cs).adjacency
    linked-IsWired = record {
      distinct = names-IsDistinct;
      edges_to = λ x c e p. ground (
        arith,
        (link_lem x p degrees no_links cs linked).3,
        edges_of_find x p cs (names-IsDistinct x),
      );
      no_edges_to = λ x e p. ground (
        arith,
        (link_lem x p degrees no_links cs linked).3,
        edges_of_find x p cs (names-IsDistinct x),
      );
    }

    pub linked-IsRound : IsRound cs degrees [] (link degrees no_links cs).queue
    linked-IsRound = record {
      degree_of = λ x c e. rw (covered-nil c.depends_on) (ground (arith, degrees_lem x));
      queued = λ x c e. rw (covered-nil c.depends_on) (
          ground (
            arith,
            (link_lem x x degrees no_links cs linked).2,
            free_of_find x cs (names-IsDistinct x),
            find-name x cs c e,
            eq_iff c.name x,
          ));
      foreign = λ x e. ground (
        arith,
        (link_lem x x degrees no_links cs linked).2,
        free_of_find x cs (names-IsDistinct x),
      );
    }

    pub linked-IsKnown : IsKnown cs cs
    linked-IsKnown =
        All-map cs (λ c. All-map c.depends_on named) (link_lem "" "" degrees no_links cs linked).1
      where
        named : (d : String) → known (degrees d) ≡ 1 → 0 < count d (names cs)
        named d h = elim (Option-cases (find d cs)) [
          | inl e ↦ absurd (ground (arith, degrees_lem d))
          | inr (c, e) ↦ count-names_of_find d cs c e
        ]

-- The other way round: distinct names and known dependencies give no error.
count_degrees_of_distinct :
    (m : Map ℤ) (errs : List BuildError) (cs : List ComponentSpec)
    → ((x : String) → count x (names cs) + known (m x) ≤ 1)
    → (count_degrees m errs cs).1 ≡ errs
unfolding count_degrees
count_degrees_of_distinct m errs [] h = refl
count_degrees_of_distinct m errs (c ∷ cs) h = elim (Option-cases (m c.name)) [
  | inl new ↦
      rw (new, count_degrees)
        (count_degrees_of_distinct (put c.name (pos (length c.depends_on)) m) errs cs
          (λ x. ground (arith, h x, h c.name, eq_iff c.name c.name, eq_iff c.name x)))
  | inr (v, old) ↦ absurd (ground (arith, h c.name, eq_iff c.name c.name))
]

link_deps_of_known :
    (degree : Map ℤ) (name : String) (s : Links) (deps : List String)
    → All (λ d. known (degree d) ≡ 1) deps
    → (link_deps degree name s deps).errs ≡ s.errs
unfolding link_deps
link_deps_of_known degree name s [] h = refl
link_deps_of_known degree name s (d ∷ deps) h =
    link_deps_of_known degree name (link_dep degree name s d) deps h.1
    ∙ unfold link_dep in ground arith

link_of_known :
    (degree : Map ℤ) (s : Links) (cs : List ComponentSpec)
    → All (λ c. All (λ d. known (degree d) ≡ 1) c.depends_on) cs
    → (link degree s cs).errs ≡ s.errs
unfolding link
link_of_known degree s [] h = refl
link_of_known degree s (c ∷ cs) h =
    let t = link_deps degree c.name s c.depends_on in
    let kept : (enqueue_free c t).errs ≡ t.errs = ground arith in
    link_of_known degree (enqueue_free c t) cs h.1
    ∙ kept
    ∙ link_deps_of_known degree c.name s c.depends_on h.0

pub unique_of_distinct :
    (cs : List ComponentSpec) → IsDistinct (names cs) → (count_degrees empty [] cs).1 ≡ []
unique_of_distinct cs h = count_degrees_of_distinct empty [] cs (λ x. omega (arith, h x))

pub find_of_count :
    (x : String) (cs : List ComponentSpec)
    → 0 < count x (names cs)
    → (c : ComponentSpec) × (find x cs ≡ some c)
find_of_count x cs h = elim (Option-cases (find x cs)) [
  | inl e ↦ absurd (omega (arith, count-names_of_none x cs e))
  | inr found ↦ found
]

pub linked_of_known :
    (cs : List ComponentSpec) (unique : (count_degrees empty [] cs).1 ≡ [])
    → IsKnown cs cs
    → (link (count_degrees empty [] cs).0 no_links cs).errs ≡ []
linked_of_known cs unique h =
    link_of_known (count_degrees empty [] cs).0 no_links cs
      (All-map cs (λ c. All-map c.depends_on has_degree) h)
  where
    has_degree : (d : String) → 0 < count d (names cs) → known ((count_degrees empty [] cs).0 d) ≡ 1
    has_degree d m = let (c, e) = find_of_count d cs m in ground (arith, degrees_lem cs unique d)
