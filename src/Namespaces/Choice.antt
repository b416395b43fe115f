-- ===== src/Namespaces/Choice.antt =====
-- The choice of a namespace: which names are accepted, and which are allocated.
use petri_operator.Prelude.{
  ℕ, zero, suc, ◌+◌, ◌*◌, ◌-◌, ◌%◌, ◌≤◌, ◌<◌, String, true, not, ◌&&◌, ◌≡◌, ◌≢◌, refl, sym, ap, ◌∙◌,
  leb, ◌==◌, arith, eq_iff, inl, inr, Bool-cases, ◌↔◌,
}
use petri_operator.Prelude.Effects.{ok, ok-injective}
use petri_operator.Types.{Environment}
use petri_operator.Cluster.{Api}
use petri_operator.Platform.{Platform}
use petri_operator.Namespaces.{Reconciler, candidate, is_candidate, target_namespace}

module _ (api : Api) (p : Platform) (r : Reconciler) where
  -- The environment has a UID, and its target is a candidate of it: the prefix and 8, 12, ... or
  -- 52 characters of the digest.
  abbrev pub IsAssigned : Environment → Type 0
  IsAssigned env =
      (env.uid ≢ "")
      × ((n : ℕ) × (8 ≤ n)
          × (n ≤ 52)
          × (n % 4 ≡ 0)
          × (env.status.target_namespace ≡ candidate api p r env.uid n))

  is_candidate_sound :
      (fuel n : ℕ) (env : Environment)
      → is_candidate api p r fuel n env ≡ true
      → 8 ≤ n
      → n % 4 ≡ 0
      → IsAssigned env
  unfolding is_candidate
  is_candidate_sound zero n env h low even = absurd (ground arith)
  is_candidate_sound (suc fuel) n env h low even =
      let target = env.status.target_namespace in
      elim (Bool-cases (not (env.uid == "") && target == candidate api p r env.uid n)) [
        | inl hit ↦ (
          ground (arith, eq_iff env.uid ""),
          (n, low, ground arith, even, ground (arith, eq_iff target (candidate api p r env.uid n))),
        )
        | inr miss ↦ is_candidate_sound fuel (n + 4) env (ground arith) (omega arith) (omega arith)
      ]

  is_candidate_complete :
      (fuel n m : ℕ) (env : Environment)
      → env.uid ≢ ""
      → n ≤ m
      → m ≤ 52
      → (m - n) % 4 ≡ 0
      → m < n + 4 * fuel
      → env.status.target_namespace ≡ candidate api p r env.uid m
      → is_candidate api p r fuel n env ≡ true
  unfolding is_candidate
  is_candidate_complete zero n m env u low high even enough e = absurd (omega arith)
  is_candidate_complete (suc fuel) n m env u low high even enough e =
      let rest = is_candidate api p r fuel (n + 4) env in
      elim (Bool-cases (leb m n)) [
        | inl here ↦
            let same : m ≡ n = ground arith in
            let found : env.status.target_namespace ≡ candidate api p r env.uid n =
              e ∙ ap (candidate api p r env.uid) same in
            ground (
              arith,
              found,
              eq_iff env.uid "",
              eq_iff env.status.target_namespace (candidate api p r env.uid n),
            )
        | inr later ↦
            let less : n < m = ground arith in
            let next =
              is_candidate_complete fuel (n + 4) m env u (ground arith) high (ground arith)
                (omega arith) e in
            ground (arith, next)
      ]

  -- `targetNamespace` returns a name exactly if that is the recorded target, the environment has a
  -- UID, and the target is a candidate of it: the prefix and 8, 12, ... or 52 characters of the
  -- digest.
  pub target_namespace_iff :
      (env : Environment) (name : String)
      → target_namespace api p r env ≡ ok name
        ↔ (IsAssigned env × (name ≡ env.status.target_namespace))
  unfolding target_namespace
  target_namespace_iff env name = (
    λ h. elim (Bool-cases (is_candidate api p r 45 8 env)) [
      | inl found ↦ (
        is_candidate_sound 45 8 env found (omega arith) (omega arith),
        ok-injective (sym (rw found at h)),
      )
      | inr missing ↦ absurd (ground (arith, missing, h))
    ],
    λ ((u, (n, low, high, even, e)), same).
        let found = is_candidate_complete 45 8 n env u low high (omega arith) (omega arith) e in
        rw (found, same) refl,
  )
