-- ===== src/Graph/Cover.antt =====
-- What holds of the components of a levelling holds of the components that were given.
use petri_operator.Prelude.{
  ◌<◌, some, ◌≡◌, subst, List, [], ◌∷◌, arith, eq_iff, All, All-map, All-append, count, flatten,
}
use petri_operator.Types.{ComponentSpec, names}
use petri_operator.Graph.Counting.{IsDistinct, find, find-name, count-names_of_find}
use petri_operator.Graph.Start.{find_of_count}
use petri_operator.Graph.Correct.{IsLevelling, IsValid, All-find}

abbrev IsFound : List ComponentSpec → ComponentSpec → Type 0
IsFound cs c = find c.name cs ≡ some c

IsFound-cons :
    (b : ComponentSpec) (cs ds : List ComponentSpec)
    → IsDistinct (names (b ∷ cs))
    → All (IsFound cs) ds
    → All (IsFound (b ∷ cs)) ds
IsFound-cons b cs [] h all = tt
IsFound-cons b cs (d ∷ ds) h (e, all) = (
  ground (arith, e, h d.name, count-names_of_find d.name cs d e, eq_iff b.name d.name),
  IsFound-cons b cs ds h all,
)

IsFound-self : (cs : List ComponentSpec) → IsDistinct (names cs) → All (IsFound cs) cs
IsFound-self [] h = tt
IsFound-self (c ∷ cs) h = (
  ground (arith, eq_iff c.name c.name),
  IsFound-cons c cs cs h (IsFound-self cs (λ x. ground (arith, h x))),
)

All-flatten :
    (P : ComponentSpec → Type 0) (levels : List (List ComponentSpec))
    → All (All P) levels
    → All P (flatten levels)
All-flatten P [] h = tt
All-flatten P (l ∷ levels) h = All-append P l (flatten levels) h.0 (All-flatten P levels h.1)

pub All-of_levels :
    (P : ComponentSpec → Type 0) (cs : List ComponentSpec) (levels : List (List ComponentSpec))
    → IsValid cs
    → IsLevelling cs levels
    → All (All P) levels
    → All P cs
All-of_levels P cs levels valid levelling h =
    let inside = flatten levels in
    let transfer : (c : ComponentSpec) → IsFound cs c → P c = λ c e.
      let some_name : 0 < count c.name (names inside) =
        ground (arith, levelling.complete c.name, count-names_of_find c.name cs c e) in
      let (c', e') = find_of_count c.name inside some_name in
      let genuine : find c'.name cs ≡ some c' =
        All-find (IsFound cs) c.name inside c' levelling.genuine e' in
      let same : find c.name cs ≡ some c' =
        subst (λ x. find x cs ≡ some c') (find-name c.name inside c' e') genuine in
      let equal : c' ≡ c = ground (arith, e, same) in
      subst P equal (All-find P c.name inside c' (All-flatten P levels h) e') in
    All-map cs transfer (IsFound-self cs valid.distinct)
