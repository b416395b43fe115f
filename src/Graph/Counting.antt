-- ===== src/Graph/Counting.antt =====
-- Counting names in lists: no code, the arithmetic that the proofs about the levels share.
use petri_operator.Prelude.{
  ℕ, ◌+◌, ◌≤◌, ◌<◌, String, Option, none, some, ◌≡◌, refl, List, [], ◌∷◌, ◌++◌, arith, ◌==◌,
  if◌then◌else◌, length, All, count, eq_iff, Map, at,
}
use petri_operator.Types.{ComponentSpec, names}

-- How many entries of `ds` stand in `p`, each as often as it stands there.
abbrev pub covered : List String → List String → ℕ
covered p [] = 0
covered p (d ∷ ds) = count d p + covered p ds

-- No name stands twice.
abbrev pub IsDistinct : List String → Type 0
IsDistinct p = (x : String) → count x p ≤ 1

pub covered-nil : (ds : List String) → covered [] ds ≡ 0
covered-nil [] = refl
covered-nil (d ∷ ds) = omega (arith, covered-nil ds)

pub covered-cons :
    (x : String) (p ds : List String) → covered (x ∷ p) ds ≡ count x ds + covered p ds
covered-cons x p [] = omega arith
covered-cons x p (d ∷ ds) = ground (arith, covered-cons x p ds, eq_iff x d, eq_iff d x)

pub covered_comm : (p ds : List String) → covered p ds ≡ covered ds p
covered_comm [] ds = covered-nil ds
covered_comm (x ∷ p) ds = omega (arith, covered-cons x p ds, covered_comm p ds)

pub covered-append : (p q ds : List String) → covered (p ++ q) ds ≡ covered p ds + covered q ds
covered-append [] q ds = omega (arith, covered-nil ds)
covered-append (x ∷ p) q ds =
    omega (arith, covered-cons x (p ++ q) ds, covered-cons x p ds, covered-append p q ds)

pub covered-le : (p ds : List String) → IsDistinct p → covered p ds ≤ length ds
covered-le p [] h = omega arith
covered-le p (d ∷ ds) h = omega (arith, h d, covered-le p ds h)

pub covered_full :
    (p ds : List String) → IsDistinct p → covered p ds ≡ length ds → All (λ d. count d p ≡ 1) ds
covered_full p [] h e = tt
covered_full p (d ∷ ds) h e = (
  omega (arith, h d, covered-le p ds h),
  covered_full p ds h (omega (arith, h d, covered-le p ds h)),
)

pub covered_of_All : (p ds : List String) → All (λ d. count d p ≡ 1) ds → covered p ds ≡ length ds
covered_of_All p [] h = refl
covered_of_All p (d ∷ ds) h = omega (arith, covered_of_All p ds h.1)

pub All-of_count {ℓ} :
    (P : String → Type ℓ) (xs : List String) → ((x : String) → 0 < count x xs → P x) → All P xs
All-of_count P [] h = tt
All-of_count P (y ∷ ys) h =
    (h y (ground (arith, eq_iff y y)), All-of_count P ys (λ x m. h x (ground arith)))

-- Distinct entries that all stand in `q` are at most as many as `q` has.
pub length-le_of_covered :
    (p q : List String) → IsDistinct p → All (λ x. count x q ≡ 1) p → length p ≤ length q
length-le_of_covered p q h all =
    omega (arith, covered_of_All q p all, covered_comm q p, covered-le p q h)

-- The component of a name.
abbrev pub find : String → List ComponentSpec → Option ComponentSpec
find x [] = none
find x (c ∷ cs) = if c.name == x then some c else find x cs

pub find-none : (x : String) (cs : List ComponentSpec) → count x (names cs) ≡ 0 → find x cs ≡ none
find-none x [] h = refl
find-none x (c ∷ cs) h = ground (arith, find-none x cs)

pub count-names_of_none :
    (x : String) (cs : List ComponentSpec) → find x cs ≡ none → count x (names cs) ≡ 0
count-names_of_none x [] h = refl
count-names_of_none x (c ∷ cs) h = ground (arith, count-names_of_none x cs)

pub count-names_of_find :
    (x : String) (cs : List ComponentSpec) (c : ComponentSpec)
    → find x cs ≡ some c
    → 0 < count x (names cs)
count-names_of_find x [] c h = absurd (ground arith)
count-names_of_find x (b ∷ cs) c h = ground (arith, count-names_of_find x cs c)

pub find-name :
    (x : String) (cs : List ComponentSpec) (c : ComponentSpec) → find x cs ≡ some c → c.name ≡ x
find-name x [] c h = absurd (ground arith)
find-name x (b ∷ cs) c h = ground (arith, eq_iff b.name x, find-name x cs c)

-- The concatenation of the adjacency lists of some names.
abbrev pub adjacent : Map (List String) → List String → List String
adjacent adjacency [] = []
adjacent adjacency (x ∷ p) = at [] adjacency x ++ adjacent adjacency p
