-- ===== src/Graph/Setup.antt =====
-- What the first loops of `BuildLevels` leave in their maps.
use petri_operator.Prelude.{
  ℕ, ◌+◌, ◌≤◌, String, Option, some, none, ◌≡◌, refl, List, [], ◌∷◌, ◌++◌, arith, ◌==◌,
  if◌then◌else◌, length, ◌∙◌, Option-cases, inl, inr, All, snoc-ne-nil, count, count-append, eq_iff,
  Map, at, put, ℤ, pos,
}
use petri_operator.Types.{ComponentSpec, names}
use petri_operator.Graph.{
  BuildError, Links, count_degrees, link_dep, link_deps, enqueue_free, link, index,
}
use petri_operator.Graph.Counting.{find, find-none}

abbrev pub known {ℓ} : {V : Type ℓ} → Option V → ℕ
known none = 0
known (some _) = 1

abbrev pub full_degree : Option ComponentSpec → Option ℤ
full_degree none = none
full_degree (some c) = some (pos (length c.depends_on))

abbrev pub or_else {ℓ} : {V : Type ℓ} → Option V → Option V → Option V
or_else none o = o
or_else (some v) o = some v

degree_in-put :
    (x : String) (m : Map ℤ) (c : ComponentSpec) (cs : List ComponentSpec)
    → m c.name ≡ none
    → count x (names cs) + known (put c.name (pos (length c.depends_on)) m x) ≤ 1
    → (count x (names (c ∷ cs)) + known (m x) ≤ 1)
      × (or_else (put c.name (pos (length c.depends_on)) m x) (full_degree (find x cs))
          ≡ or_else (m x) (full_degree (find x (c ∷ cs))))
degree_in-put x m c cs new h = (ground (arith, eq_iff c.name x), ground (arith, eq_iff c.name x))

-- With no error recorded, the names are distinct and each has its degree.
pub count_degrees_lem :
    (x : String) (m : Map ℤ) (errs : List BuildError) (cs : List ComponentSpec)
    → (count_degrees m errs cs).1 ≡ []
    → (errs ≡ [])
      × (count x (names cs) + known (m x) ≤ 1)
      × ((count_degrees m errs cs).0 x ≡ or_else (m x) (full_degree (find x cs)))
unfolding count_degrees
count_degrees_lem x m errs [] h = ground arith
count_degrees_lem x m errs (c ∷ cs) h = elim (Option-cases (m c.name)) [
  | inl new ↦
      let m' = put c.name (pos (length c.depends_on)) m in
      let ih = count_degrees_lem x m' errs cs (rw (new, count_degrees) at h) in
      let step = degree_in-put x m c cs new ih.1 in
      rw (new, count_degrees) (ih.0, step.0, ih.2 ∙ step.1)
  | inr (v, old) ↦
      let errs' = errs ++ BuildError.duplicated_component c.name ∷ [] in
      let ih = count_degrees_lem x m errs' cs (rw (old, count_degrees) at h) in
      absurd (snoc-ne-nil errs (BuildError.duplicated_component c.name) ih.0)
]

link_dep_lem :
    (x p : String) (degree : Map ℤ) (name : String) (s : Links) (d : String)
    → (link_dep degree name s d).errs ≡ []
    → (s.errs ≡ [])
      × (known (degree d) ≡ 1)
      × ((link_dep degree name s d).queue ≡ s.queue)
      × (count x (at [] (link_dep degree name s d).adjacency p)
          ≡ count x (at [] s.adjacency p) + (if name == x then if d == p then 1 else 0 else 0))
unfolding link_dep
link_dep_lem x p degree name s d h =
    let old = at [] s.adjacency d in
    ground (
      arith,
      snoc-ne-nil s.errs (BuildError.unknown_dependency d name),
      count-append x old (name ∷ []),
      eq_iff d p,
    )

link_deps_lem :
    (x p : String) (degree : Map ℤ) (name : String) (s : Links) (deps : List String)
    → (link_deps degree name s deps).errs ≡ []
    → (s.errs ≡ [])
      × All (λ d. known (degree d) ≡ 1) deps
      × ((link_deps degree name s deps).queue ≡ s.queue)
      × (count x (at [] (link_deps degree name s deps).adjacency p)
          ≡ count x (at [] s.adjacency p) + (if name == x then count p deps else 0))
unfolding link_deps
link_deps_lem x p degree name s [] h = (h, tt, refl, ground arith)
link_deps_lem x p degree name s (d ∷ deps) h =
    let ih = link_deps_lem x p degree name (link_dep degree name s d) deps h in
    let one = link_dep_lem x p degree name s d ih.0 in
    (one.0, (one.1, ih.1), ih.2 ∙ one.2, ground arith)

-- The edges into `x` from `p`, and whether `x` has no dependency, over all components of that name.
abbrev edges : String → String → List ComponentSpec → ℕ
edges x p [] = 0
edges x p (c ∷ cs) = (if c.name == x then count p c.depends_on else 0) + edges x p cs

abbrev free_one : String → ComponentSpec → ℕ
free_one x c = if c.name == x then elim c.depends_on [ [] ↦ 1 | _ ↦ 0 ] else 0

abbrev pub free : String → List ComponentSpec → ℕ
free x [] = 0
free x (c ∷ cs) = free_one x c + free x cs

enqueue_free_lem :
    (x : String) (c : ComponentSpec) (s : Links)
    → ((enqueue_free c s).errs ≡ s.errs)
      × ((enqueue_free c s).adjacency ≡ s.adjacency)
      × (count x (enqueue_free c s).queue ≡ count x s.queue + free_one x c)
enqueue_free_lem x c s = ground (arith, count-append x s.queue (c.name ∷ []))

pub link_lem :
    (x p : String) (degree : Map ℤ) (s : Links) (cs : List ComponentSpec)
    → (link degree s cs).errs ≡ []
    → (s.errs ≡ [])
      × All (λ c. All (λ d. known (degree d) ≡ 1) c.depends_on) cs
      × (count x (link degree s cs).queue ≡ count x s.queue + free x cs)
      × (count x (at [] (link degree s cs).adjacency p)
          ≡ count x (at [] s.adjacency p) + edges x p cs)
unfolding link
link_lem x p degree s [] h = (h, tt, omega arith, omega arith)
link_lem x p degree s (c ∷ cs) h =
    let t = link_deps degree c.name s c.depends_on in
    let ih = link_lem x p degree (enqueue_free c t) cs h in
    let freed = enqueue_free_lem x c t in
    let linked = link_deps_lem x p degree c.name s c.depends_on (cc) in
    (linked.0, (linked.1, ih.1), ground arith, ground arith)

pub index_lem :
    (x : String) (by_name : Map ComponentSpec) (cs : List ComponentSpec)
    → count x (names cs) ≤ 1
    → index by_name cs x ≡ or_else (find x cs) (by_name x)
unfolding index
index_lem x by_name [] h = refl
index_lem x by_name (c ∷ cs) h =
    ground (arith, index_lem x (put c.name c by_name) cs, find-none x cs)

pub edges_of_find :
    (x p : String) (cs : List ComponentSpec)
    → count x (names cs) ≤ 1
    → edges x p cs ≡ elim (find x cs) [ none ↦ 0 | some c ↦ count p c.depends_on ]
edges_of_find x p [] h = refl
edges_of_find x p (c ∷ cs) h = ground (arith, edges_of_find x p cs, find-none x cs)

pub free_of_find :
    (x : String) (cs : List ComponentSpec)
    → count x (names cs) ≤ 1
    → free x cs ≡ elim (find x cs) [ none ↦ 0 | some c ↦ free_one x c ]
free_of_find x [] h = refl
free_of_find x (c ∷ cs) h = ground (arith, free_of_find x cs, find-none x cs)
