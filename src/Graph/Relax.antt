-- ===== src/Graph/Relax.antt =====
-- The loop over an adjacency list: each occurrence of a name lowers its degree by one, and the
-- name is queued when the degree reaches zero.
use petri_operator.Prelude.{
  ℕ, suc, zero, ◌+◌, ◌-◌, ◌≤◌, String, some, ◌≡◌, refl, List, [], ◌∷◌, ◌++◌, map, arith, ◌==◌,
  if◌then◌else◌, Bool-cases, inl, inr, count, count-append, eq_iff, Map, at, put, ℤ, pos, pred_ℤ,
  is_zero, append_assoc, append-nil, leb, ltb, ◌&&◌,
}
use petri_operator.Types.{ComponentSpec, zero_component}
use petri_operator.Graph.{relax, visit_level}
use petri_operator.Graph.Counting.{adjacent}

-- 1 if a degree `k` reaches zero within `n` steps.
abbrev pub reaches : ℕ → ℕ → ℕ
reaches k n = if ltb 0 k && leb k n then 1 else 0

pub relax_absent :
    (x : String) (degree : Map ℤ) (next l : List String)
    → count x l ≡ 0
    → ((relax degree next l).0 x ≡ degree x) × (count x (relax degree next l).1 ≡ count x next)
unfolding relax
relax_absent x degree next [] h = (refl, refl)
relax_absent x degree next (y ∷ l) h =
    let left = pred_ℤ (at (pos 0) degree y) in
    let next' = if is_zero left then next ++ y ∷ [] else next in
    ground (arith, relax_absent x (put y left degree) next' l, count-append x next (y ∷ []))

pub relax_counts :
    (x : String) (k : ℕ) (degree : Map ℤ) (next l : List String)
    → degree x ≡ some (pos k)
    → count x l ≤ k
    → ((relax degree next l).0 x ≡ some (pos (k - count x l)))
      × (count x (relax degree next l).1 ≡ count x next + reaches k (count x l))
unfolding relax
relax_counts x zero degree next [] e h = ground arith
relax_counts x (suc k) degree next [] e h = ground arith
relax_counts x zero degree next (y ∷ l) e h =
    let left = pred_ℤ (at (pos 0) degree y) in
    let next' = if is_zero left then next ++ y ∷ [] else next in
    ground (arith, relax_counts x zero (put y left degree) next' l, count-append x next (y ∷ []))
relax_counts x (suc k) degree next (y ∷ l) e h =
    let left = pred_ℤ (at (pos 0) degree y) in
    let next' = if is_zero left then next ++ y ∷ [] else next in
    elim (Bool-cases (y == x)) [
      | inl hit ↦ ground (
        arith,
        eq_iff y x,
        relax_counts x k (put y left degree) next' l,
        count-append x next (y ∷ []),
      )
      | inr miss ↦
          ground (
            arith,
            relax_counts x (suc k) (put y left degree) next' l,
            count-append x next (y ∷ []),
          )
    ]

relax-append :
    (degree : Map ℤ) (next l m : List String)
    → relax degree next (l ++ m) ≡ relax (relax degree next l).0 (relax degree next l).1 m
unfolding relax
relax-append degree next [] m = refl
relax-append degree next (y ∷ l) m =
    let left = pred_ℤ (at (pos 0) degree y) in
    relax-append (put y left degree) (if is_zero left then next ++ y ∷ [] else next) l m

-- A level is one long run of the inner loop, and collects the components of its names.
pub visit_level_lem :
    (adjacency : Map (List String)) (by_name : Map ComponentSpec) (degree : Map ℤ)
    (next : List String) (level : List ComponentSpec) (queue : List String)
    → visit_level adjacency by_name degree next level queue ≡ (
      (relax degree next (adjacent adjacency queue)).0,
      (relax degree next (adjacent adjacency queue)).1,
      level ++ map (λ x. at zero_component by_name x) queue,
    )
unfolding visit_level
visit_level_lem adjacency by_name degree next level [] = unfold relax in cc (append-nil level)
visit_level_lem adjacency by_name degree next level (x ∷ queue) =
    let l = at [] adjacency x in
    cc (
      visit_level_lem adjacency by_name (relax degree next l).0 (relax degree next l).1
          (level ++ at zero_component by_name x ∷ []) queue,
      relax-append degree next l (adjacent adjacency queue),
      append_assoc level (at zero_component by_name x ∷ [])
          (map (λ y. at zero_component by_name y) queue),
    )
