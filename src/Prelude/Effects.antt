-- ===== src/Prelude/Effects.antt =====
-- Handlers that change a state and may return an error. The state outlives the error, as the
-- objects behind the code's pointers do.
use Prim.Native.String.{String, ◌++◌}
use mathlib.Core.Bool.{Bool, true, false}
use mathlib.Core.Path.{◌≡◌, refl, ap}
use mathlib.Core.Logic.{◌⊎◌, inl, inr}

-- What the code tests of an error, through wrapping: `apierrors.Is...` and `errors.Is`.
pub data Kind : Type 0 where
  not_found already_exists conflict other : Kind
  namespace_not_managed shared_not_ready at_capacity : Kind

pub record Err : Type 0 where
  pub kind : Kind
  pub text : String

pub data Result {ℓ} (A : Type ℓ) : Type ℓ where
  ok : A → Result A
  err : Err → Result A

abbrev pub M : Type 0 → Type 0 → Type 0
M S A = S → Result A × S

module _ {S A : Type 0} where
  abbrev pub pure : A → M S A
  pure a s = (ok a, s)

  abbrev pub fail : Err → M S A
  fail e s = (err e, s)

  -- The result as a value, for code that looks at the error.
  abbrev pub attempt : M S A → M S (Result A)
  attempt m s = let (r, s') = m s in (ok r, s')

module _ {S A B : Type 0} where
  abbrev pub and_then : Result A → (A → M S B) → M S B
  and_then (ok a) f = f a
  and_then (err e) f = fail e

  infixl 5 ◌>>=◌ ◌>>◌
  abbrev pub ◌>>=◌ : M S A → (A → M S B) → M S B
  m >>= f = λ s. let (r, s') = m s in and_then r f s'

  abbrev pub ◌>>◌ : M S A → M S B → M S B
  m >> k = m >>= λ _. k

abbrev pub is_not_found : Err → Bool
is_not_found e = elim e.kind [ not_found ↦ true | _ ↦ false ]

abbrev pub is_already_exists : Err → Bool
is_already_exists e = elim e.kind [ already_exists ↦ true | _ ↦ false ]

abbrev pub is_conflict : Err → Bool
is_conflict e = elim e.kind [ conflict ↦ true | _ ↦ false ]

-- `client.IgnoreNotFound`
abbrev pub ignore_not_found : {A : Type 0} → A → Result A → Result A
ignore_not_found a (ok b) = ok b
ignore_not_found a (err e) = elim e.kind [ not_found ↦ ok a | _ ↦ err e ]

-- fmt.Errorf with the error's text after a prefix, and the error wrapped.
abbrev pub wrap : {A : Type 0} → String → Err → Result A
wrap prefix e = err (record e { text = prefix ++ e.text })

-- Returns a result as it is.
abbrev pub give : {S A : Type 0} → Result A → M S A
give r s = (r, s)

pub Result-cases : {A : Type 0} (r : Result A) → ((a : A) × (r ≡ ok a)) ⊎ ((e : Err) × (r ≡ err e))
Result-cases (ok a) = inl (a, refl)
Result-cases (err e) = inr (e, refl)

abbrev from_result : {A : Type 0} → A → Result A → A
from_result a (ok b) = b
from_result a (err e) = a

pub ok-injective : {A : Type 0} {a b : A} → ok a ≡ ok b → a ≡ b
ok-injective {A} {a} {b} e = ap (λ r. from_result a r) e
