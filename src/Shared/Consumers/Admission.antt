-- ===== src/Shared/Consumers/Admission.antt =====
-- What a registered consumer has been through, and the release of its lease.
use petri_operator.Prelude.{
  none, some, zero, suc, ◌<◌, String, Bool, false, not, ◌||◌, ◌≡◌, refl, ◌∷◌, leb, ◌==◌, ℤ, pos,
  negsuc, length, arith, eq_iff, inl, inr, ◌⊎◌, Bool-cases, List,
}
use petri_operator.Prelude.Effects.{ok, Result-cases}
use petri_operator.Types.{Environment, Namespace}
use petri_operator.Types.Shared.{SharedComponent}
use petri_operator.Cluster.{
  Log, Api, label, set_label, get_namespace, patch_labels, list_labelled, get_shared,
}
use petri_operator.Cluster
use petri_operator.Shared.{shared_label}
use petri_operator.Shared.Lease.{
  new_lease, acquire_provision_lease, with_lease, release_provision_lease,
}
use petri_operator.Shared.Lease.Held.{
  IsUnreleased, IsLeaseFree, with_lease-IsLeaseFree, IsCreated, acquire-IsCreated,
}
use petri_operator.Shared.Consumers.{
  is_closed, is_consumer, label_consumer, check_capacity, admit, register_consumer, not_ready,
}

module _ (api : Api) (live : Bool) where
  label_consumer-IsLeaseFree :
      (target_ns name : String) → IsLeaseFree api (label_consumer api live target_ns name)
  unfolding label_consumer
  label_consumer-IsLeaseFree target_ns name log l h =
      elim (Result-cases (api.namespace_at live target_ns log)) [
        | inr (x, e) ↦ (rw e at h)
        | inl (ns, e) ↦ elim (Bool-cases (label (shared_label name) ns.labels == "true")) [
          | inl f ↦ (rw (e, f) at h)
          | inr f ↦ (rw (e, f) at h)
        ]
      ]

  check_capacity-IsLeaseFree :
      (target_ns name : String) (max : ℤ)
      → IsLeaseFree api (check_capacity api live target_ns name max)
  unfolding check_capacity is_consumer
  check_capacity-IsLeaseFree target_ns name (pos zero) log l h = h
  check_capacity-IsLeaseFree target_ns name (negsuc n) log l h = h
  check_capacity-IsLeaseFree target_ns name (pos (suc n)) log l h =
      let asked = get_namespace live target_ns ∷ log in
      elim (Result-cases (api.namespace_at live target_ns log)) [
        | inr (x, e) ↦ (rw e at h)
        | inl (ns, e) ↦ elim (Bool-cases (label (shared_label name) ns.labels == "true")) [
          | inl f ↦ (rw (e, f) at h)
          | inr f ↦ elim (Result-cases (api.labelled_of live (shared_label name) asked)) [
            | inr (x, g) ↦ (rw (e, f, g) at h)
            | inl (nss, g) ↦ elim (Bool-cases (leb (suc n) (length nss))) [
              | inl k ↦ (rw (e, f, g, k) at h)
              | inr k ↦ (rw (e, f, g, k) at h)
            ]
          ]
        ]
      ]

  -- The limit leaves room for the namespace: there is none, or the namespace is a consumer already,
  -- or there are fewer consumers than the limit. The second log is the first with these calls.
  abbrev pub HasRoom : (target_ns name : String) → ℤ → Log → Log → Type 0
  HasRoom target_ns name (pos zero) log log' = log' ≡ log
  HasRoom target_ns name (negsuc n) log log' = log' ≡ log
  HasRoom target_ns name (pos (suc n)) log log' =
      let asked = get_namespace live target_ns ∷ log in
      ((ns : Namespace) × (api.namespace_at live target_ns log ≡ ok ns)
        × (label (shared_label name) ns.labels ≡ "true")
        × (log' ≡ asked))
      ⊎ ((nss : List Namespace) × (api.labelled_of live (shared_label name) asked ≡ ok nss)
          × (length nss < suc n)
          × (log' ≡ list_labelled live (shared_label name) ∷ asked))

  -- The namespace that was read bears the label, or a patch that adds it to the labels succeeded.
  abbrev pub IsLabelled : (target_ns name : String) → Log → Log → Type 0
  IsLabelled target_ns name log log' =
      let asked = get_namespace live target_ns ∷ log in
      (ns : Namespace) × (api.namespace_at live target_ns log ≡ ok ns)
      × (((label (shared_label name) ns.labels ≡ "true") × (log' ≡ asked))
          ⊎ ((patched : Namespace) × (patched
                ≡ record ns { labels = set_label (shared_label name) "true" ns.labels })
              × (api.labels_patched patched asked ≡ ok tt)
              × (log' ≡ patch_labels patched ∷ asked)))

  label_consumer_ok :
      (target_ns name : String) (log : Log)
      → (label_consumer api live target_ns name log).0 ≡ ok tt
      → IsLabelled target_ns name log (label_consumer api live target_ns name log).1
  unfolding label_consumer
  label_consumer_ok target_ns name log h =
      elim (Result-cases (api.namespace_at live target_ns log)) [
        | inr (x, e) ↦ absurd (ground (arith, rw e at h))
        | inl (ns, e) ↦ elim (Bool-cases (label (shared_label name) ns.labels == "true")) [
          | inl f ↦ (
            ns,
            e,
            inl ((eq_iff (label (shared_label name) ns.labels) "true").0 f, rw (e, f) refl),
          )
          | inr f ↦ (
            ns,
            e,
            inr (
              record ns { labels = set_label (shared_label name) "true" ns.labels },
              refl,
              rw (e, f) at h,
              rw (e, f) refl,
            ),
          )
        ]
      ]

  check_capacity_ok :
      (target_ns name : String) (max : ℤ) (log : Log)
      → (check_capacity api live target_ns name max log).0 ≡ ok tt
      → HasRoom target_ns name max log (check_capacity api live target_ns name max log).1
  unfolding check_capacity is_consumer
  check_capacity_ok target_ns name (pos zero) log h = refl
  check_capacity_ok target_ns name (negsuc n) log h = refl
  check_capacity_ok target_ns name (pos (suc n)) log h =
      let asked = get_namespace live target_ns ∷ log in
      elim (Result-cases (api.namespace_at live target_ns log)) [
        | inr (x, e) ↦ absurd (ground (arith, rw e at h))
        | inl (ns, e) ↦ elim (Bool-cases (label (shared_label name) ns.labels == "true")) [
          | inl f ↦
              inl (ns, e, (eq_iff (label (shared_label name) ns.labels) "true").0 f, rw (e, f) refl)
          | inr f ↦ elim (Result-cases (api.labelled_of live (shared_label name) asked)) [
            | inr (x, g) ↦ absurd (ground (arith, rw (e, f, g) at h))
            | inl (nss, g) ↦ elim (Bool-cases (leb (suc n) (length nss))) [
              | inl k ↦ absurd (ground (arith, rw (e, f, g, k) at h))
              | inr k ↦ inr (nss, g, ground (arith, k), rw (e, f, g, k) refl)
            ]
          ]
        ]
      ]

  module _ (target_ns namespace name : String) where
    -- The shared component was open when it was read, there was room, the namespace was labelled,
    -- and a read after that found the same component, still open, before the time was up.
    abbrev pub IsAdmitted : Log → SharedComponent → Type 0
    IsAdmitted log sc =
        (first : SharedComponent) × ((checked labelled : Log) × (api.shared_at live namespace name
              log
            ≡ ok first)
          × (is_closed first ≡ false)
          × HasRoom target_ns first.name first.spec.max_consumers
              (get_shared live namespace name ∷ log) checked
          × IsLabelled target_ns first.name checked labelled
          × (api.shared_at live namespace name labelled ≡ ok sc)
          × (sc.uid ≡ first.uid)
          × (is_closed sc ≡ false)
          × (api.context_at (get_shared live namespace name ∷ labelled) ≡ ok tt))

    admit_ok :
        (log : Log) (sc : SharedComponent)
        → (admit api live target_ns namespace name log).0 ≡ ok sc
        → IsAdmitted log sc
    unfolding admit
    admit_ok log sc h =
        let asked = get_shared live namespace name ∷ log in
        elim (Result-cases (api.shared_at live namespace name log)) [
          | inr (x, e) ↦ absurd (ground (arith, rw e at h))
          | inl (first, e) ↦ elim (Bool-cases (is_closed first)) [
            | inl f ↦ absurd (ground (arith, rw (e, f) at h))
            | inr f ↦
                let max = first.spec.max_consumers in
                let roomy = check_capacity api live target_ns first.name max asked in
                elim (Result-cases roomy.0) [
                  | inr (x, g) ↦ absurd (ground (arith, rw (e, f, g) at h))
                  | inl (tt, g) ↦
                      let marked = label_consumer api live target_ns first.name roomy.1 in
                      elim (Result-cases marked.0) [
                        | inr (x, k) ↦ absurd (ground (arith, rw (e, f, g, k) at h))
                        | inl (tt, k) ↦
                            elim (Result-cases (api.shared_at live namespace name marked.1)) [
                              | inr (x, m) ↦ absurd (ground (arith, rw (e, f, g, k, m) at h))
                              | inl (again, m) ↦
                                  elim (Bool-cases
                                    (not (again.uid == first.uid) || is_closed again)) [
                                      | inl n ↦ absurd (ground (arith, rw (e, f, g, k, m, n) at h))
                                      | inr n ↦
                                          let last = get_shared live namespace name ∷ marked.1 in
                                          elim (Result-cases (api.context_at last)) [
                                            | inr (x, o) ↦
                                                absurd
                                                  (ground (arith, rw (e, f, g, k, m, n, o) at h))
                                            | inl (tt, o) ↦
                                                let same : ok again ≡ ok sc =
                                                  rw (e, f, g, k, m, n, o) at h in
                                                (
                                                  first,
                                                  (
                                                    roomy.1,
                                                    marked.1,
                                                    e,
                                                    f,
                                                    check_capacity_ok target_ns first.name max asked
                                                        g,
                                                    label_consumer_ok target_ns first.name roomy.1
                                                        k,
                                                    ground (arith, m, same),
                                                    ground (
                                                      arith,
                                                      n,
                                                      same,
                                                      eq_iff again.uid first.uid,
                                                    ),
                                                    ground (arith, n, same),
                                                    o,
                                                  ),
                                                )
                                          ]
                                    ]
                            ]
                      ]
                ]
          ]
        ]

    admit-IsLeaseFree : IsLeaseFree api (admit api live target_ns namespace name)
    unfolding admit
    admit-IsLeaseFree log l h = elim (Result-cases (api.shared_at live namespace name log)) [
      | inr (x, e) ↦ (rw e at h)
      | inl (first, e) ↦ elim (Bool-cases (is_closed first)) [
        | inl f ↦ (rw (e, f) at h)
        | inr f ↦
            let asked = get_shared live namespace name ∷ log in
            let max = first.spec.max_consumers in
            let roomy = check_capacity api live target_ns first.name max asked in
            let free = check_capacity-IsLeaseFree target_ns first.name max asked l in
            elim (Result-cases roomy.0) [
              | inr (x, g) ↦ free (rw (e, f, g) at h)
              | inl (tt, g) ↦
                  let marked = label_consumer api live target_ns first.name roomy.1 in
                  let free' = label_consumer-IsLeaseFree target_ns first.name roomy.1 l in
                  elim (Result-cases marked.0) [
                    | inr (x, k) ↦ free (free' (rw (e, f, g, k) at h))
                    | inl (tt, k) ↦
                        elim (Result-cases (api.shared_at live namespace name marked.1)) [
                          | inr (x, m) ↦ free (free' (rw (e, f, g, k, m) at h))
                          | inl (again, m) ↦
                              elim (Bool-cases (not (again.uid == first.uid) || is_closed again)) [
                                | inl n ↦ free (free' (rw (e, f, g, k, m, n) at h))
                                | inr n ↦
                                    let last = get_shared live namespace name ∷ marked.1 in
                                    elim (Result-cases (api.context_at last)) [
                                      | inr (x, o) ↦ free (free' (rw (e, f, g, k, m, n, o) at h))
                                      | inl (tt, o) ↦ free (free' (rw (e, f, g, k, m, n, o) at h))
                                    ]
                              ]
                        ]
                  ]
            ]
      ]
    ]

    -- For every lease that its calls create, `registerConsumer` asks for the deletion by UID and
    -- resource version after that, whatever it returns: a lease that is unreleased after its calls
    -- was so before them. Whether the server grants the deletion is not said.
    pub register_consumer-IsLeaseFree :
        (env : Environment) (log : Log) (l : Cluster.Lease)
        → IsUnreleased api l (register_consumer api live env target_ns namespace name log).1
        → IsUnreleased api l log
    unfolding register_consumer
    register_consumer-IsLeaseFree env =
        with_lease-IsLeaseFree api live name namespace env.name not_ready
          (admit api live target_ns namespace name) (λ log l h. h) admit-IsLeaseFree

    -- If `registerConsumer` succeeds, then it holds the lease that the server created for it while
    -- it reads the shared component, which is neither being deleted nor unready; the limit of
    -- consumers is none, or not reached, or the namespace is a consumer already; the namespace
    -- bears the label when it is read again, or a patch that adds it succeeds; and a last read before the time is up finds the same component, neither
    -- being deleted nor unready.
    pub register_consumer-IsAdmitted :
        (env : Environment) (log : Log) (sc : SharedComponent)
        → (register_consumer api live env target_ns namespace name log).0 ≡ ok sc
        → (l : Cluster.Lease) × ((start : Log) × IsCreated api
              (new_lease name namespace env.name (api.time_at log))
              l
              start
            × IsAdmitted start sc)
    unfolding register_consumer with_lease release_provision_lease
    register_consumer-IsAdmitted env log sc h =
        let got = acquire_provision_lease api live name namespace env.name log in
        elim (Result-cases got.0) [
          | inr (x, e) ↦ absurd (ground (arith, rw e at h))
          | inl (none, e) ↦ absurd (ground (arith, rw e at h))
          | inl (some l, e) ↦ (
            l,
            (
              got.1,
              acquire-IsCreated api live name namespace env.name log l e,
              admit_ok got.1 sc (rw e at h),
            ),
          )
        ]
