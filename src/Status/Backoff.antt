-- ===== src/Status/Backoff.antt =====
-- The backoff between retries.
use petri_operator.Prelude.{
  ℕ, zero, suc, ◌+◌, ◌-◌, ◌*◌, ◌^◌, ◌%◌, ◌≤◌, ◌<◌, Bool, true, ◌&&◌, List, ◌≡◌, refl, sym, subst,
  ◌∙◌, arith, ltb, leb, if◌then◌else◌, ap, Bool-cases, inl, inr,
}
use native.Mathlib.Nat.{suc-add, pow-suc, mul-mod_right}
use petri_operator.Types.{ComponentSpec, ComponentStatus}
use petri_operator.Status.{
  requeue_after, max_deploy_backoff, max_retries_of, backoff_of, deploy_backoff,
}

-- The delay that is meant: it doubles with each retry up to five minutes, with no overflow.
abbrev pub capped_delay : ℕ → ℕ
capped_delay r = if ltb r 5 then requeue_after * 2 ^ r else max_deploy_backoff

agrees : ℕ → Bool
unfolding backoff_of
agrees r = leb (backoff_of r) (capped_delay r) && leb (capped_delay r) (backoff_of r)

agree_below : ℕ → Bool
agree_below zero = true
agree_below (suc n) = agrees n && agree_below n

agreement : (r : ℕ) → agrees r ≡ true → backoff_of r ≡ capped_delay r
unfolding agrees
agreement r h = ground arith

agree_below_sound : (n r : ℕ) → agree_below n ≡ true → r < n → backoff_of r ≡ capped_delay r
unfolding agree_below
agree_below_sound zero r h lt = absurd (omega arith)
agree_below_sound (suc n) r h lt = elim (Bool-cases (ltb r n)) [
  | inl below ↦ agree_below_sound n r (ground arith) (ground arith)
  | inr last ↦ let same : r ≡ n = ground arith in rw same (agreement n (ground arith))
]

-- From 54 doublings on all 64 bits are shifted out.
shifted_out : (k : ℕ) → (q : ℕ) × (requeue_after * 2 ^ (k + 54) ≡ 18446744073709551616 * q)
shifted_out zero = (9765625, refl)
shifted_out (suc k) =
    let (q, e) = shifted_out k in
    let more : 2 ^ (suc k + 54) ≡ 2 ^ (k + 54) * 2 = rw suc-add (pow-suc 2 (k + 54)) in
    (q * 2, omega (arith, more, e))

all_shifted_out :
    (r q : ℕ)
    → 5 ≤ r
    → requeue_after * 2 ^ r ≡ 18446744073709551616 * q
    → backoff_of r ≡ capped_delay r
unfolding backoff_of
all_shifted_out r q h e =
    let gone : requeue_after * 2 ^ r % 18446744073709551616 ≡ 0 =
      ap (λ t. t % 18446744073709551616) e ∙ mul-mod_right 18446744073709551616 q in
    ground arith

table : agree_below 54 ≡ true
unfolding agree_below agrees
table = refl

-- The shift of an int64 wraps around from 30 doublings on, and is all zero from 54 on. The test
-- for a delay past the cap or not above 0 catches each such value, so the backoff is 10 s doubled
-- with each retry, capped at 300 s, for every number of retries.
pub backoff_of_exact : (r : ℕ) → backoff_of r ≡ capped_delay r
backoff_of_exact r = elim (Bool-cases (ltb r 54)) [
  | inl small ↦ agree_below_sound 54 r table (ground arith)
  | inr large ↦
      let (q, e) = shifted_out (r - 54) in
      let same : r ≡ r - 54 + 54 = ground arith in
      all_shifted_out r q (ground arith) (ap (λ t. requeue_after * 2 ^ t) same ∙ e)
]

capped_delay_bounds :
    (r : ℕ) → (requeue_after ≤ capped_delay r) × (capped_delay r ≤ max_deploy_backoff)
capped_delay_bounds zero = omega arith
capped_delay_bounds (suc zero) = omega arith
capped_delay_bounds (suc (suc zero)) = omega arith
capped_delay_bounds (suc (suc (suc zero))) = omega arith
capped_delay_bounds (suc (suc (suc (suc zero)))) = omega arith
capped_delay_bounds (suc (suc (suc (suc (suc r))))) = ground arith

-- The requeue delay after failed deploys lies between 10 s and 300 s.
pub deploy_backoff_bounds :
    (statuses : List ComponentStatus) (components : List ComponentSpec)
    → (requeue_after ≤ deploy_backoff statuses components)
      × (deploy_backoff statuses components ≤ max_deploy_backoff)
unfolding deploy_backoff
deploy_backoff_bounds statuses components =
    let r = max_retries_of 0 components statuses in
    subst (λ d. (requeue_after ≤ d) × (d ≤ max_deploy_backoff)) (sym (backoff_of_exact r))
      (capped_delay_bounds r)
