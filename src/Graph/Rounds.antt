-- ===== src/Graph/Rounds.antt =====
-- The invariant of the level loop, and one round of it.
use petri_operator.Prelude.{
  ℕ, ◌+◌, ◌-◌, ◌≤◌, String, some, none, ◌≡◌, refl, List, [], ◌∷◌, ◌++◌, arith, if◌then◌else◌,
  length, ltb, count, count-append, Map, at, ℤ, pos, Option-cases, inl, inr,
}
use petri_operator.Types.{ComponentSpec, names}
use petri_operator.Graph.{relax}
use petri_operator.Graph.Counting.{
  covered, IsDistinct, covered-cons, covered-append, covered-le, find, adjacent,
}
use petri_operator.Graph.Relax.{reaches, relax_counts, relax_absent}

-- The maps that the first loops leave, for the given components.
pub record IsWired (cs : List ComponentSpec) (adjacency : Map (List String)) : Type 0 where
  pub distinct : IsDistinct (names cs)
  pub edges_to :
      (x : String) (c : ComponentSpec)
      → find x cs ≡ some c
      → (p : String) → count x (at [] adjacency p) ≡ count p c.depends_on
  pub no_edges_to : (x : String) → find x cs ≡ none → (p : String) → count x (at [] adjacency p) ≡ 0

-- 1 if all dependencies of a component are placed.
abbrev pub settled : List String → ComponentSpec → ℕ
settled placed c = if ltb (covered placed c.depends_on) (length c.depends_on) then 0 else 1

-- At the head of the loop: `placed` are the names of the finished levels.
pub record IsRound (cs : List ComponentSpec) (degree : Map ℤ) (placed queue : List String)
    : Type 0 where
  pub degree_of :
      (x : String) (c : ComponentSpec)
      → find x cs ≡ some c
      → degree x ≡ some (pos (length c.depends_on - covered placed c.depends_on))
  pub queued :
      (x : String) (c : ComponentSpec)
      → find x cs ≡ some c
      → count x (placed ++ queue) ≡ settled placed c
  pub foreign : (x : String) → find x cs ≡ none → count x (placed ++ queue) ≡ 0

module _ (cs : List ComponentSpec) (adjacency : Map (List String)) (w : IsWired cs adjacency) where
  count-adjacent :
      (x : String) (c : ComponentSpec)
      → find x cs ≡ some c
      → (p : List String) → count x (adjacent adjacency p) ≡ covered p c.depends_on
  count-adjacent x c e [] = omega (arith, petri_operator.Graph.Counting.covered-nil c.depends_on)
  count-adjacent x c e (y ∷ p) = omega (
    arith,
    count-append x (at [] adjacency y) (adjacent adjacency p),
    w.edges_to x c e y,
    covered-cons y p c.depends_on,
    count-adjacent x c e p,
  )

  count-adjacent-none :
      (x : String) → find x cs ≡ none → (p : List String) → count x (adjacent adjacency p) ≡ 0
  count-adjacent-none x e [] = refl
  count-adjacent-none x e (y ∷ p) = omega (
    arith,
    count-append x (at [] adjacency y) (adjacent adjacency p),
    w.no_edges_to x e y,
    count-adjacent-none x e p,
  )

  module _ (degree : Map ℤ) (placed queue : List String) (r : IsRound cs degree placed queue) where
    pub placed-IsDistinct : IsDistinct (placed ++ queue)
    placed-IsDistinct x = elim (Option-cases (find x cs)) [
      | inl e ↦ omega (arith, r.foreign x e)
      | inr (c, e) ↦ ground (arith, r.queued x c e)
    ]

    abbrev after : Map ℤ × List String
    after = relax degree [] (adjacent adjacency queue)

    fits : (ds : List String) → covered placed ds + covered queue ds ≤ length ds
    fits ds =
        omega
          (arith, covered-append placed queue ds, covered-le (placed ++ queue) ds placed-IsDistinct)

    relaxed :
        (x : String) (c : ComponentSpec) (e : find x cs ≡ some c)
        → let k = length c.depends_on - covered placed c.depends_on in
          let n = covered queue c.depends_on in
          (after.0 x ≡ some (pos (k - n))) × (count x after.1 ≡ reaches k n)
    relaxed x c e =
        let k = length c.depends_on - covered placed c.depends_on in
        let few : count x (adjacent adjacency queue) ≤ k =
          omega (arith, count-adjacent x c e queue, fits c.depends_on) in
        let (left, new) =
          rw (count-adjacent x c e queue) at
            (relax_counts x k degree [] (adjacent adjacency queue) (r.degree_of x c e) few) in
        (left, ground arith)

    -- A round keeps the invariant: its queue is placed, and what it queued is the next.
    pub IsRound-IsRound : IsRound cs after.0 (placed ++ queue) after.1
    IsRound-IsRound = record {
      degree_of =
          λ x c e. rw (covered-append placed queue c.depends_on) (ground (arith, relaxed x c e));
      queued = λ x c e. ground (
        arith,
        r.queued x c e,
        relaxed x c e,
        fits c.depends_on,
        covered-append placed queue c.depends_on,
        count-append x (placed ++ queue) after.1,
      );
      foreign = λ x e. omega (
        arith,
        r.foreign x e,
        count-append x (placed ++ queue) after.1,
        (relax_absent x degree [] (adjacent adjacency queue) (count-adjacent-none x e queue)).1,
      );
    }
