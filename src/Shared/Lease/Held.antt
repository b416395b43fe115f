-- ===== src/Shared/Lease/Held.antt =====
-- For which leases a controller has not asked for the deletion after its calls.
use petri_operator.Prelude.{
  String, Bool, ◌≡◌, refl, sym, ap, ◌∙◌, Option, none, some, [], ◌∷◌, ltb, arith, inl, inr, ◌⊎◌,
  Bool-cases, Option-cases,
}
use petri_operator.Prelude.Effects.{
  Result, ok, M, Result-cases, ok-injective, is_not_found, is_already_exists,
}
use petri_operator.Cluster.{Log, Api, create_lease, delete_lease, now, get_lease}
use petri_operator.Cluster
use petri_operator.Shared.Lease.{
  new_lease, lease_name, expiry_of, create, replace, acquire_provision_lease,
  release_provision_lease, with_lease,
}

module _ (api : Api) where
  -- A call of the log created the lease, and no later call asks for its deletion by its UID and its
  -- resource version. Whether the server grants the deletion is not said.
  abbrev pub IsUnreleased : Cluster.Lease → Log → Type 0
  IsUnreleased l [] = ⊥
  IsUnreleased l (create_lease x ∷ log) = (api.lease_created x log ≡ ok l) ⊎ IsUnreleased l log
  IsUnreleased l (delete_lease namespace name uid version ∷ log) =
      IsUnreleased l log × ((uid ≡ l.uid) × (version ≡ l.resource_version) → ⊥)
  IsUnreleased l (_ ∷ log) = IsUnreleased l log

  -- The action asks for the deletion of every lease that it creates.
  abbrev pub IsLeaseFree : {A : Type 0} → M Log A → Type 0
  IsLeaseFree m = (log : Log) (l : Cluster.Lease) → IsUnreleased l (m log).1 → IsUnreleased l log

  create-IsUnreleased :
      (lease : Cluster.Lease) (log : Log) (l : Cluster.Lease)
      → IsUnreleased l (create api lease log).1
      → ((create api lease log).0 ≡ ok (some l)) ⊎ IsUnreleased l log
  unfolding create
  create-IsUnreleased lease log l h = elim (Result-cases (api.lease_created lease log)) [
    | inl (made, e) ↦ elim (rw e at h) [
      | inl same ↦ inl (rw e (ap (λ x. ok (some x)) (ok-injective (sym e ∙ same))))
      | inr old ↦ inr old
    ]
    | inr (x, e) ↦ elim (Bool-cases (is_already_exists x)) [
      | inl f ↦ elim (rw (e, f) at h) [
        | inl same ↦ absurd (ground (arith, e, same))
        | inr old ↦ inr old
      ]
      | inr f ↦ elim (rw (e, f) at h) [
        | inl same ↦ absurd (ground (arith, e, same))
        | inr old ↦ inr old
      ]
    ]
  ]

  replace-IsUnreleased :
      (existing lease : Cluster.Lease) (log : Log) (l : Cluster.Lease)
      → IsUnreleased l (replace api existing lease log).1
      → ((replace api existing lease log).0 ≡ ok (some l)) ⊎ IsUnreleased l log
  unfolding replace
  replace-IsUnreleased existing lease log l h = elim (Option-cases (expiry_of existing)) [
    | inl e ↦ inr (rw (e, replace) at h)
    | inr (expiry, e) ↦ elim (Bool-cases (ltb expiry (api.time_at log))) [
      | inr f ↦ inr (rw (e, f, replace) at h)
      | inl f ↦
          let asked = now ∷ log in
          let gone =
            delete_lease existing.namespace existing.name existing.uid existing.resource_version
            ∷ asked in
          let again : IsUnreleased l (create api lease gone).1
              → ((create api lease gone).0 ≡ ok (some l)) ⊎ IsUnreleased l log =
            λ k. elim (create-IsUnreleased lease gone l k) [ inl x ↦ inl x | inr y ↦ inr y.0 ] in
          elim (Result-cases (
            api.lease_deleted existing.namespace existing.name existing.uid
              existing.resource_version asked)) [
                | inl (tt, g) ↦ rw (e, f, g, replace) (again (rw (e, f, g, replace) at h))
                | inr (x, g) ↦ elim (Bool-cases (is_not_found x)) [
                  | inl n ↦ rw (e, f, g, n, replace) (again (rw (e, f, g, n, replace) at h))
                  | inr n ↦ inr (rw (e, f, g, n, replace) at h).0
                ]
              ]
    ]
  ]

  -- A lease that is unreleased after `acquireProvisionLease` is the one that it returns, or was so
  -- before.
  acquire-IsUnreleased :
      (live : Bool) (name namespace holder : String) (log : Log) (l : Cluster.Lease)
      → IsUnreleased l (acquire_provision_lease api live name namespace holder log).1
      → ((acquire_provision_lease api live name namespace holder log).0 ≡ ok (some l))
        ⊎ IsUnreleased l log
  unfolding acquire_provision_lease
  acquire-IsUnreleased live name namespace holder log l h =
      let timed = now ∷ log in
      let asked = get_lease live namespace (lease_name name) ∷ timed in
      let lease = new_lease name namespace holder (api.time_at log) in
      elim (Result-cases (api.lease_at live namespace (lease_name name) timed)) [
        | inl (existing, e) ↦ rw e (replace-IsUnreleased existing lease asked l (rw e at h))
        | inr (x, e) ↦ elim (Bool-cases (is_not_found x)) [
          | inl n ↦ rw (e, n) (create-IsUnreleased lease asked l (rw (e, n) at h))
          | inr n ↦ inr (rw (e, n) at h)
        ]
      ]

  -- A creation of the lease is the last call, and the server returned this lease.
  abbrev pub IsCreated : Cluster.Lease → Cluster.Lease → Log → Type 0
  IsCreated lease l after =
      (before : Log) × (after ≡ create_lease lease ∷ before)
      × (api.lease_created lease before ≡ ok l)

  create-IsCreated :
      (lease : Cluster.Lease) (log : Log) (l : Cluster.Lease)
      → (create api lease log).0 ≡ ok (some l)
      → IsCreated lease l (create api lease log).1
  unfolding create
  create-IsCreated lease log l h = elim (Result-cases (api.lease_created lease log)) [
    | inl (made, e) ↦ rw e (log, refl, ground (arith, e, rw e at h))
    | inr (x, e) ↦ elim (Bool-cases (is_already_exists x)) [
      | inl f ↦ absurd (ground (arith, rw (e, f) at h))
      | inr f ↦ absurd (ground (arith, rw (e, f) at h))
    ]
  ]

  replace-IsCreated :
      (existing lease : Cluster.Lease) (log : Log) (l : Cluster.Lease)
      → (replace api existing lease log).0 ≡ ok (some l)
      → IsCreated lease l (replace api existing lease log).1
  unfolding replace
  replace-IsCreated existing lease log l h = elim (Option-cases (expiry_of existing)) [
    | inl e ↦ absurd (ground (arith, rw (e, replace) at h))
    | inr (expiry, e) ↦ elim (Bool-cases (ltb expiry (api.time_at log))) [
      | inr f ↦ absurd (ground (arith, rw (e, f, replace) at h))
      | inl f ↦
          let asked = now ∷ log in
          let gone =
            delete_lease existing.namespace existing.name existing.uid existing.resource_version
            ∷ asked in
          elim (Result-cases (
            api.lease_deleted existing.namespace existing.name existing.uid
              existing.resource_version asked)) [
                | inl (tt, g) ↦
                    rw (e, f, g, replace)
                      (create-IsCreated lease gone l (rw (e, f, g, replace) at h))
                | inr (x, g) ↦ elim (Bool-cases (is_not_found x)) [
                  | inl n ↦
                      rw (e, f, g, n, replace)
                        (create-IsCreated lease gone l (rw (e, f, g, n, replace) at h))
                  | inr n ↦ absurd (ground (arith, rw (e, f, g, n, replace) at h))
                ]
              ]
    ]
  ]

  -- A lease that `acquireProvisionLease` returns is the new one that it asked the server to create.
  pub acquire-IsCreated :
      (live : Bool) (name namespace holder : String) (log : Log) (l : Cluster.Lease)
      → (acquire_provision_lease api live name namespace holder log).0 ≡ ok (some l)
      → IsCreated
          (new_lease name namespace holder (api.time_at log))
          l
          (acquire_provision_lease api live name namespace holder log).1
  unfolding acquire_provision_lease
  acquire-IsCreated live name namespace holder log l h =
      let timed = now ∷ log in
      let asked = get_lease live namespace (lease_name name) ∷ timed in
      let lease = new_lease name namespace holder (api.time_at log) in
      elim (Result-cases (api.lease_at live namespace (lease_name name) timed)) [
        | inl (existing, e) ↦ rw e (replace-IsCreated existing lease asked l (rw e at h))
        | inr (x, e) ↦ elim (Bool-cases (is_not_found x)) [
          | inl n ↦ rw (e, n) (create-IsCreated lease asked l (rw (e, n) at h))
          | inr n ↦ absurd (ground (arith, rw (e, n) at h))
        ]
      ]

  -- The lease of a body under one is asked to be deleted, whatever the body returns.
  pub with_lease-IsLeaseFree :
      {A : Type 0} (live : Bool) (name namespace holder : String) (busy body : M Log A)
      → IsLeaseFree busy
      → IsLeaseFree body
      → IsLeaseFree
          (with_lease api (acquire_provision_lease api live name namespace holder) busy body)
  unfolding with_lease release_provision_lease
  with_lease-IsLeaseFree live name namespace holder busy body quiet free log l h =
      let got = acquire_provision_lease api live name namespace holder log in
      let back = acquire-IsUnreleased live name namespace holder log l in
      elim (Result-cases got.0) [
        | inr (x, e) ↦ elim (back (rw e at h)) [
          | inl same ↦ absurd (ground (arith, e, same))
          | inr old ↦ old
        ]
        | inl (none, e) ↦ elim (back (quiet got.1 l (rw e at h))) [
          | inl same ↦ absurd (ground (arith, e, same))
          | inr old ↦ old
        ]
        | inl (some mine, e) ↦
            let (held, other) = released mine got.1 (rw e at h) in
            elim (back (free got.1 l held)) [
              | inl same ↦ absurd (
                  other (
                    ap (λ x. x.uid) (mine_is e same),
                    ap (λ x. x.resource_version) (mine_is e same),
                  ))
              | inr old ↦ old
            ]
      ]
    where
      released :
          (mine : Cluster.Lease) (log1 : Log)
          → IsUnreleased l
              (delete_lease mine.namespace mine.name mine.uid mine.resource_version ∷ (body log1).1)
          → IsUnreleased l (body log1).1
            × ((mine.uid ≡ l.uid) × (mine.resource_version ≡ l.resource_version) → ⊥)
      released mine log1 k = k

      mine_is :
          {r : Result (Option Cluster.Lease)} {mine : Cluster.Lease}
          → r ≡ ok (some mine)
          → r ≡ ok (some l)
          → mine ≡ l
      mine_is e f = cc
