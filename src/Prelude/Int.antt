-- ===== src/Prelude/Int.antt =====
-- The signed integers: `negsuc n` is -(n + 1).
use Prim.Native.Nat.{ℕ, zero, suc, ◌-◌}
use petri_operator.Prelude.Tests.{leb}
use mathlib.Core.Bool.{Bool, true, false}

pub data ℤ : Type 0 where
  pos : ℕ → ℤ
  negsuc : ℕ → ℤ

-- x - 1
abbrev pub pred_ℤ : ℤ → ℤ
pred_ℤ (pos zero) = negsuc 0
pred_ℤ (pos (suc n)) = pos n
pred_ℤ (negsuc n) = negsuc (suc n)

-- x == 0
abbrev pub is_zero : ℤ → Bool
is_zero (pos zero) = true
is_zero (pos (suc n)) = false
is_zero (negsuc n) = false

-- x < 0
abbrev pub is_neg : ℤ → Bool
is_neg (pos n) = false
is_neg (negsuc n) = true

-- x + 1
abbrev pub suc_ℤ : ℤ → ℤ
suc_ℤ (pos n) = pos (suc n)
suc_ℤ (negsuc zero) = pos 0
suc_ℤ (negsuc (suc n)) = negsuc n

-- n ≤ x
abbrev pub at_least : ℕ → ℤ → Bool
at_least n (pos m) = leb n m
at_least zero (negsuc m) = false
at_least (suc n) (negsuc m) = false

-- The int32 of a number from -2 ^ 31 to 2 ^ 31 - 1.
abbrev pub to_i32 : ℤ → ℕ
to_i32 (pos n) = n
to_i32 (negsuc n) = 4294967295 - n
