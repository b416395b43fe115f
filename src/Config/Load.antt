-- ===== src/Config/Load.antt =====
-- What a configuration that loads is like.
use petri_operator.Prelude.{
  ℕ, zero, suc, ◌≤◌, String, true, false, ◌≡◌, refl, sym, ltb, ◌==◌, ◌&&◌, ℤ, pos, negsuc, is_zero,
  is_neg, arith, eq_iff, inl, inr, ◌⊎◌, ◌↔◌, Bool-cases, if◌then◌else◌,
}
use petri_operator.Prelude.Effects.{Result, ok, Result-cases, ok-injective}
use petri_operator.Config.{
  Config, Floats, second, judge_duration, check_duration, check_limits, validate, read_config, load,
  apply_defaults, default_rate_limit_options,
}

-- The text is empty, or a duration that is 0 or at least `least`.
abbrev pub IsDuration : (String → Result ℤ) → ℕ → String → Type 0
IsDuration parse least value =
    (value ≡ "") ⊎ ((n : ℕ) × (parse value ≡ ok (pos n)) × ((n ≡ 0) ⊎ (least ≤ n)))

abbrev pub IsPositive : ℤ → Type 0
IsPositive x = (n : ℕ) × (x ≡ pos (suc n))

not_neg : (x : ℤ) → is_neg x ≡ false → (n : ℕ) × (x ≡ pos n)
not_neg (pos n) h = (n, refl)
not_neg (negsuc n) h = absurd (ground arith)

defaulted : (x : ℤ) (n : ℕ) → is_neg x ≡ false → IsPositive (if is_zero x then pos (suc n) else x)
defaulted (pos zero) n h = (n, refl)
defaulted (pos (suc m)) n h = (m, refl)
defaulted (negsuc m) n h = absurd (ground arith)

judge_deadline :
    (d : ℤ)
    → judge_duration "jobDeadline" d ≡ ok tt
    → (n : ℕ) × (d ≡ pos n) × ((n ≡ 0) ⊎ (second ≤ n))
unfolding judge_duration
judge_deadline (negsuc n) h = absurd (ground arith)
judge_deadline (pos n) h = elim (Bool-cases (ltb 0 n && ltb n second)) [
  | inl e ↦ absurd (ground (arith, e, h))
  | inr e ↦ (
    n,
    refl,
    elim (Bool-cases (ltb 0 n)) [
      | inl f ↦ inr (ground (arith, e, f))
      | inr f ↦ inl (ground (arith, f))
    ],
  )
]

judge_timeout :
    (d : ℤ)
    → judge_duration "defaultDeployTimeout" d ≡ ok tt
    → (n : ℕ) × (d ≡ pos n) × ((n ≡ 0) ⊎ (0 ≤ n))
unfolding judge_duration
judge_timeout (negsuc n) h = absurd (ground arith)
judge_timeout (pos n) h = (n, refl, inr (omega arith))

judge_timeout' : (n : ℕ) → (n ≡ 0) ⊎ (0 ≤ n) → judge_duration "defaultDeployTimeout" (pos n) ≡ ok tt
unfolding judge_duration
judge_timeout' n h = refl

judge_deadline' : (n : ℕ) → (n ≡ 0) ⊎ (second ≤ n) → judge_duration "jobDeadline" (pos n) ≡ ok tt
unfolding judge_duration
judge_deadline' n (inl e) = rw e refl
judge_deadline' n (inr e) = ground (arith, e)

module _ (parse : String → Result ℤ) (name : String) (least : ℕ)
    (sound : (d : ℤ)
      → judge_duration name d ≡ ok tt
      → (n : ℕ) × (d ≡ pos n) × ((n ≡ 0) ⊎ (least ≤ n)))
    (complete : (n : ℕ) → (n ≡ 0) ⊎ (least ≤ n) → judge_duration name (pos n) ≡ ok tt) where
  check_duration_iff :
      (value : String) → check_duration parse name value ≡ ok tt ↔ IsDuration parse least value
  unfolding check_duration
  check_duration_iff value = (
    λ h. elim (Bool-cases (value == "")) [
      | inl e ↦ inl (ground (arith, e, eq_iff value ""))
      | inr e ↦ elim (Result-cases (parse value)) [
        | inr (x, f) ↦ absurd (ground (arith, e, f, h))
        | inl (d, f) ↦
            let (n, same, fits) = sound d (rw (e, f) at h) in inr (n, rw (f, same) refl, fits)
      ]
    ],
    λ d. elim d [
      | inl e ↦ rw e refl
      | inr (n, f, fits) ↦ elim (Bool-cases (value == "")) [
        | inl e ↦ rw e refl
        | inr e ↦ rw (e, f) (complete n fits)
      ]
    ],
  )

module _ {F : Type 0} (floats : Floats F) (parse : String → Result ℤ) where
  -- What Load asks of the configuration that it reads.
  abbrev pub IsAdmissible : Config F → Type 0
  IsAdmissible c =
      IsDuration parse 0 c.controllers.default_deploy_timeout
      × IsDuration parse second c.controllers.job_deadline
      × (is_neg c.controllers.max_concurrent_reconciles ≡ false)
      × (floats.is_negative c.controllers.qps ≡ false)
      × (is_neg c.controllers.burst ≡ false)

  -- A limit after the defaults: the default in place of 0, and else the limit itself.
  abbrev pub IsLimit : ℕ → ℤ → ℤ → Type 0
  IsLimit default (pos zero) y = y ≡ pos default
  IsLimit default x y = y ≡ x

  -- A configuration is another one with the defaults: 4 concurrent reconciliations, 10 reconciliations
  -- per second and a burst of 100 where the other one has 0, and all else as it is.
  abbrev pub IsDefaulted : Config F → Config F → Type 0
  IsDefaulted raw c =
      (many burst : ℤ) × ((rate : F) × (IsLimit 4 raw.controllers.max_concurrent_reconciles many)
        × (IsLimit 100 raw.controllers.burst burst)
        × (((floats.is_nothing raw.controllers.qps ≡ true) × (rate ≡ floats.ten))
            ⊎ ((floats.is_nothing raw.controllers.qps ≡ false) × (rate ≡ raw.controllers.qps)))
        × (c ≡ record raw {
          controllers = record raw.controllers {
            max_concurrent_reconciles = many;
            qps = rate;
            burst = burst;
          };
        }))

  limit : (n : ℕ) (x : ℤ) → IsLimit n x (if is_zero x then pos n else x)
  limit n (pos zero) = refl
  limit n (pos (suc m)) = refl
  limit n (negsuc m) = refl

  limit_unique : (n : ℕ) (x y : ℤ) → IsLimit n x y → y ≡ (if is_zero x then pos n else x)
  limit_unique n (pos zero) y h = h
  limit_unique n (pos (suc m)) y h = h
  limit_unique n (negsuc m) y h = h

  abbrev rate_of : F → F
  rate_of qps = if floats.is_nothing qps then floats.ten else qps

  apply_defaults-IsDefaulted :
      (raw c : Config F) → c ≡ apply_defaults floats raw ↔ IsDefaulted raw c
  unfolding apply_defaults default_rate_limit_options
  apply_defaults-IsDefaulted raw c =
      let many = raw.controllers.max_concurrent_reconciles in
      let qps = raw.controllers.qps in
      (
        λ h. (
          (if is_zero many then pos 4 else many),
          (if is_zero raw.controllers.burst then pos 100 else raw.controllers.burst),
          (
            rate_of qps,
            limit 4 many,
            limit 100 raw.controllers.burst,
            elim (Bool-cases (floats.is_nothing qps)) [
              | inl e ↦ inl (e, rw e refl)
              | inr e ↦ inr (e, rw e refl)
            ],
            h,
          ),
        ),
        λ (m, b, (q, few, small, slow, same)).
            let rate : q ≡ rate_of qps = elim slow [
              | inl (e, f) ↦ rw (e, f) refl
              | inr (e, f) ↦ rw (e, f) refl
            ] in
            rw
              (
                same,
                limit_unique 4 many m few,
                limit_unique 100 raw.controllers.burst b small,
                rate,
              )
              refl,
      )

  check_limits_ok :
      (raw c : Config F)
      → check_limits floats raw ≡ ok c
      → (is_neg raw.controllers.max_concurrent_reconciles ≡ false)
        × (floats.is_negative raw.controllers.qps ≡ false)
        × (is_neg raw.controllers.burst ≡ false)
        × (c ≡ apply_defaults floats raw)
  unfolding check_limits
  check_limits_ok raw c h = elim (Bool-cases (is_neg raw.controllers.max_concurrent_reconciles)) [
    | inl e ↦ absurd (ground (arith, rw e at h))
    | inr e ↦ elim (Bool-cases (floats.is_negative raw.controllers.qps)) [
      | inl f ↦ absurd (ground (arith, rw (e, f) at h))
      | inr f ↦ elim (Bool-cases (is_neg raw.controllers.burst)) [
        | inl g ↦ absurd (ground (arith, rw (e, f, g) at h))
        | inr g ↦ (e, f, g, sym (ok-injective (rw (e, f, g) at h)))
      ]
    ]
  ]

  validate_ok :
      (raw c : Config F)
      → validate floats parse raw ≡ ok c
      → IsAdmissible raw × (c ≡ apply_defaults floats raw)
  unfolding validate
  validate_ok raw c h =
      let timeout = raw.controllers.default_deploy_timeout in
      let deadline = raw.controllers.job_deadline in
      elim (Result-cases (check_duration parse "defaultDeployTimeout" timeout)) [
        | inr (x, e) ↦ absurd (ground (arith, rw e at h))
        | inl (tt, e) ↦ elim (Result-cases (check_duration parse "jobDeadline" deadline)) [
          | inr (x, f) ↦ absurd (ground (arith, rw (e, f) at h))
          | inl (tt, f) ↦
              let (few, slow, small, same) = check_limits_ok raw c (rw (e, f) at h) in
              (
                (
                  (check_duration_iff parse "defaultDeployTimeout" 0 judge_timeout judge_timeout'
                        timeout).0
                      e,
                  (check_duration_iff parse "jobDeadline" second judge_deadline judge_deadline'
                        deadline).0
                      f,
                  few,
                  slow,
                  small,
                ),
                same,
              )
        ]
      ]

  validate_accepts :
      (raw : Config F)
      → IsAdmissible raw
      → validate floats parse raw ≡ ok (apply_defaults floats raw)
  unfolding validate check_limits
  validate_accepts raw (timeout, deadline, few, slow, small) =
      rw
        (
          (check_duration_iff parse "defaultDeployTimeout" 0 judge_timeout judge_timeout'
                raw.controllers.default_deploy_timeout).1
              timeout,
          (check_duration_iff parse "jobDeadline" second judge_deadline judge_deadline'
                raw.controllers.job_deadline).1
              deadline,
          few,
          slow,
          small,
        )
        refl

  module _ (read_file : String → Result String) (unmarshal : String → Result (Config F)) where
    -- `Load` returns a configuration exactly if it reads an admissible one, whose durations are
    -- empty or parse, the job deadline as 0 or at least a second, and whose numbers are not
    -- negative; it returns that one with 4 concurrent reconciliations, 10 reconciliations per second
    -- and a burst of 100 in place of zeros, and nothing else changed.
    pub load_iff :
        (path : String) (c : Config F)
        → load floats read_file unmarshal parse path ≡ ok c ↔ (
            (raw : Config F) × (read_config floats read_file unmarshal path ≡ ok raw)
            × IsAdmissible raw
            × IsDefaulted raw c)
    unfolding load
    load_iff path c = (
      λ h. elim (Result-cases (read_config floats read_file unmarshal path)) [
        | inr (x, e) ↦ absurd (ground (arith, rw e at h))
        | inl (raw, e) ↦
            let (admissible, same) = validate_ok raw c (rw e at h) in
            (raw, e, admissible, (apply_defaults-IsDefaulted raw c).0 same)
      ],
      λ (raw, e, admissible, defaults).
          rw (e, (apply_defaults-IsDefaulted raw c).1 defaults) (validate_accepts raw admissible),
    )

    -- If the default rate is neither zero nor negative, then a configuration that `Load` returns
    -- allows a positive number of concurrent reconciliations, a positive burst and a rate that is
    -- neither zero nor negative, and its job deadline is empty, zero or at least a second.
    load-IsUsable :
        floats.is_negative floats.ten ≡ false
        → floats.is_nothing floats.ten ≡ false
        → (path : String) (c : Config F) → load floats read_file unmarshal parse path ≡ ok c
        → IsPositive c.controllers.max_concurrent_reconciles
          × IsPositive c.controllers.burst
          × (floats.is_negative c.controllers.qps ≡ false)
          × (floats.is_nothing c.controllers.qps ≡ false)
          × IsDuration parse second c.controllers.job_deadline
    unfolding apply_defaults default_rate_limit_options
    load-IsUsable positive some_rate path c h =
        let (raw, read, (timeout, deadline, few, slow, small), defaults) = (load_iff path c).0 h in
        let same = (apply_defaults-IsDefaulted raw c).1 defaults in
        rw same (
          defaulted raw.controllers.max_concurrent_reconciles 3 few,
          defaulted raw.controllers.burst 99 small,
          elim (Bool-cases (floats.is_nothing raw.controllers.qps)) [
            | inl e ↦ rw e positive
            | inr e ↦ rw e slow
          ],
          elim (Bool-cases (floats.is_nothing raw.controllers.qps)) [
            | inl e ↦ rw e some_rate
            | inr e ↦ rw e e
          ],
          deadline,
        )
