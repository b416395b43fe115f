-- ===== src/SharedComponents/Instance/Stable.antt =====
-- Which entries the secret of an instance gets.
use petri_operator.Prelude.{
  String, true, ◌≡◌, ◌≢◌, refl, sym, ap, ◌∙◌, Option, none, some, List, [], ◌∷◌, eq_iff, arith, inl,
  inr, ◌⊎◌, All, Map, put, empty, Bool-cases, Option-cases,
}
use petri_operator.Prelude.Effects.{Err, ok, err, Result-cases, ok-injective, is_not_found}
use petri_operator.Types.Shared.{InstanceSecret, InstanceKey}
use petri_operator.Cluster.{Log, Api, get_secret, create_secret, update_secret}
use petri_operator.Jobs.Provisioner.{shared_namespace}
use petri_operator.SecretGen.{random_text}
use petri_operator.SharedComponents.Instance.{
  kept, fill, store, fill_and_store, ensure_instance_secret,
}

-- The keys of a map differ.
abbrev pub IsAbsent : String → List (String × InstanceKey) → Type 0
IsAbsent key keys = All (λ entry. entry.0 ≢ key) keys

abbrev pub IsDistinct : List (String × InstanceKey) → Type 0
IsDistinct [] = Unit
IsDistinct ((key, k) ∷ keys) = IsAbsent key keys × IsDistinct keys

-- A static key has its value. A generated key has the value that it had, if it had one.
abbrev pub IsStored : Api → Option (Map String) → Map String → String × InstanceKey → Type 0
IsStored api old entries (key, k) = elim k.generate [
  | none ↦ entries key ≡ some k.value
  | some g ↦
      (v : String) × (entries key ≡ some v) × ((w : String) → kept api old key ≡ some w → v ≡ w)
]

put_other : {V : Type 0} (k j : String) (v : V) (m : Map V) → k ≢ j → put k v m j ≡ m j
put_other k j v m ne = ground (arith, ne, eq_iff k j)

put_self : {V : Type 0} (k : String) (v : V) (m : Map V) → put k v m k ≡ some v
put_self k v m = ground (arith, eq_iff k k)

module _ (api : Api) (old : Option (Map String)) where
  abbrev Filled : List (String × InstanceKey) → Map String → Map String → Type 0
  Filled keys entries out =
      All (IsStored api old out) keys × ((key : String) → IsAbsent key keys → out key ≡ entries key)

  after :
      (key : String) (k : InstanceKey) (v : String) (keys : List (String × InstanceKey))
      (entries out : Map String)
      → (out key ≡ some v → IsStored api old out (key, k))
      → IsAbsent key keys
      → Filled keys (put key v entries) out
      → Filled ((key, k) ∷ keys) entries out
  after key k v keys entries out stored absent (all, others) = (
    (stored (others key absent ∙ put_self key v entries), all),
    λ j (ne, rest). others j rest ∙ put_other key j v entries ne,
  )

  fill_ok :
      (keys : List (String × InstanceKey)) (entries out : Map String) (log : Log)
      → IsDistinct keys
      → (fill api old keys entries log).0 ≡ ok out
      → Filled keys entries out
  unfolding fill
  fill_ok [] entries out log d h = (tt, λ key absent. ap (λ m. m key) (sym (ok-injective h)))
  fill_ok ((key, k) ∷ keys) entries out log (absent, d) h =
      let next = λ (v : String) (l : Log). fill_ok keys (put key v entries) out l d in
      elim (Option-cases k.generate) [
        | inl e ↦
            after key k k.value keys entries out (λ stored. rw e stored) absent
              (next k.value log (rw (e, fill) at h))
        | inr (g, e) ↦ elim (Option-cases (kept api old key)) [
          | inr (v, f) ↦
              after key k v keys entries out
                (λ stored. rw e (v, stored, λ w same. ground (arith, f, same))) absent
                (next v log (rw (e, f, fill) at h))
          | inl f ↦
              let drawn = random_text api g.length g.charset log in
              elim (Result-cases drawn.0) [
                | inr (x, m) ↦ absurd (ground (arith, rw (e, f, m, fill) at h))
                | inl (v, m) ↦
                    after key k v keys entries out
                      (λ stored. rw e (v, stored, λ w same. absurd (ground (arith, f, same))))
                      absent (next v drawn.1 (rw (e, f, m, fill) at h))
              ]
        ]
      ]

module _ (api : Api) (spec : InstanceSecret) (distinct : IsDistinct spec.keys) where
  -- The last call wrote the entries and succeeded: an update of a secret that was found, and else
  -- a creation.
  abbrev pub HasStored : Option (Map String) → Map String → Log → Log → Type 0
  HasStored none entries before log' =
      (api.secret_created shared_namespace spec.name entries before ≡ ok tt)
      × (log' ≡ create_secret shared_namespace spec.name entries ∷ before)
  HasStored (some _) entries before log' =
      (api.secret_updated shared_namespace spec.name entries before ≡ ok tt)
      × (log' ≡ update_secret shared_namespace spec.name entries ∷ before)

  store-HasStored :
      (old : Option (Map String)) (entries : Map String) (log : Log)
      → (store api old spec.name entries log).0 ≡ ok tt
      → HasStored old entries log (store api old spec.name entries log).1
  unfolding store
  store-HasStored none entries log h = (h, refl)
  store-HasStored (some _) entries log h = (h, refl)

  -- Such entries were written by the last call.
  abbrev pub IsWritten : Option (Map String) → Log → Type 0
  IsWritten old log' =
      (entries : Map String) × ((before : Log) × All (IsStored api old entries) spec.keys
        × HasStored old entries before log')

  fill_and_store_ok :
      (old : Option (Map String)) (log : Log)
      → (fill_and_store api old spec log).0 ≡ ok tt
      → IsWritten old (fill_and_store api old spec log).1
  unfolding fill_and_store
  fill_and_store_ok old log h =
      let filled = fill api old spec.keys empty log in
      elim (Result-cases filled.0) [
        | inr (x, e) ↦ absurd (ground (arith, rw e at h))
        | inl (entries, e) ↦ rw e (
          entries,
          (
            filled.1,
            (fill_ok api old spec.keys empty entries log distinct e).0,
            store-HasStored old entries filled.1 (rw e at h),
          ),
        )
      ]

  -- The secret was read first, and found or missing.
  abbrev pub IsEnsured : Log → Log → Type 0
  IsEnsured log log' =
      ((old : Map String) × (api.secret_at shared_namespace spec.name log ≡ ok old)
        × IsWritten (some old) log')
      ⊎ ((e : Err) × (api.secret_at shared_namespace spec.name log ≡ err e)
          × (is_not_found e ≡ true)
          × IsWritten none log')

  -- If `ensureInstanceSecret` succeeds for a secret with distinct keys, then it has ended with the
  -- update of the secret that it found, or the creation of a missing one, and in what it wrote every
  -- static key has the value of the provider and every generated key a value, which is the value
  -- that the secret had for it if it had one.
  pub ensure_instance_secret-IsWritten :
      (log : Log)
      → (ensure_instance_secret api (some spec) log).0 ≡ ok tt
      → IsEnsured log (ensure_instance_secret api (some spec) log).1
  unfolding ensure_instance_secret
  ensure_instance_secret-IsWritten log h =
      let asked = get_secret shared_namespace spec.name ∷ log in
      elim (Result-cases (api.secret_at shared_namespace spec.name log)) [
        | inl (old, e) ↦ inl (old, e, rw e (fill_and_store_ok (some old) asked (rw e at h)))
        | inr (x, e) ↦ elim (Bool-cases (is_not_found x)) [
          | inl f ↦ inr (x, e, f, rw (e, f) (fill_and_store_ok none asked (rw (e, f) at h)))
          | inr f ↦ absurd (ground (arith, rw (e, f) at h))
        ]
      ]
