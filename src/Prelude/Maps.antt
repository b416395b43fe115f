-- ===== src/Prelude/Maps.antt =====
-- A Go map with text keys, as the function that reads it.
use Prim.Native.String.{String}
use mathlib.Core.Path.{◌≡◌, refl}
use mathlib.Core.List.{List, [], ◌∷◌}
use text.Mathlib.TextEquality.{eq_iff}
use mathlib.Core.Option.{Option, none, some}
use native.Mathlib.Omega.{arith}
use petri_operator.Prelude.Tests.{◌==◌, if◌then◌else◌}

abbrev pub Map {ℓ} : Type ℓ → Type ℓ
Map V = String → Option V

abbrev pub empty {ℓ} : {V : Type ℓ} → Map V
empty k = none

-- m[k] = v
abbrev pub put {ℓ} : {V : Type ℓ} → String → V → Map V → Map V
put k v m j = if k == j then some v else m j

-- m[k], with the zero value of the type for a missing key.
abbrev pub at {ℓ} : {V : Type ℓ} → V → Map V → String → V
at d m k = elim (m k) [ none ↦ d | some v ↦ v ]

pub at-some {ℓ} :
    {V : Type ℓ} (d : V) (m : Map V) (k : String) (v : V) → m k ≡ some v → at d m k ≡ v
at-some d m k v e = ground arith

-- A Go map as the list of its entries, in the order in which a range visits them.
module _ {ℓ} {V : Type ℓ} where
  abbrev pub lookup : String → List (String × V) → Option V
  lookup name [] = none
  lookup name (entry ∷ entries) =
      let (n, x) = entry in if n == name then some x else lookup name entries

  -- m[name] = x
  abbrev pub insert : String → V → List (String × V) → List (String × V)
  insert name x [] = (name, x) ∷ []
  insert name x (entry ∷ entries) =
      if entry.0 == name then (entry.0, x) ∷ entries else entry ∷ insert name x entries

  pub lookup-insert :
      (name other : String) (x : V) (entries : List (String × V))
      → lookup other (insert name x entries)
        ≡ (if name == other then some x else lookup other entries)
  lookup-insert name other x [] = refl
  lookup-insert name other x (entry ∷ entries) =
      let step = lookup-insert name other x entries in
      ground (arith, step, eq_iff entry.0 name, eq_iff entry.0 other, eq_iff name other)

  -- maps.Copy(m, from); the keys of a map differ, so the order does not matter.
  abbrev pub copy_into : List (String × V) → List (String × V) → List (String × V)
  copy_into m [] = m
  copy_into m ((k, v) ∷ from) = insert k v (copy_into m from)

  abbrev pub or_else : Option V → Option V → Option V
  or_else none o = o
  or_else (some v) o = some v

  pub lookup-copy_into :
      (k : String) (m from : List (String × V))
      → lookup k (copy_into m from) ≡ or_else (lookup k from) (lookup k m)
  lookup-copy_into k m [] = refl
  lookup-copy_into k m ((j, v) ∷ from) =
      ground (arith, lookup-insert j k v (copy_into m from), lookup-copy_into k m from)
