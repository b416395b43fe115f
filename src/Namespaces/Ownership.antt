-- ===== src/Namespaces/Ownership.antt =====
-- What a successful `createNamespace` says about the namespace.
use petri_operator.Prelude.{String, true, false, ◌≡◌, ◌⊎◌, ◌∷◌, arith, inl, inr, Bool-cases}
use petri_operator.Prelude.Effects.{Err, ok, err, is_not_found, is_already_exists, Result-cases}
use petri_operator.Types.{Environment, Namespace}
use petri_operator.Cluster.{Log, Api, get_namespace, create_namespace}
use petri_operator.Platform.{Platform}
use petri_operator.Namespaces.{
  Reconciler, owns_namespace, owned_namespace, namespace_bound, adopt, create_absent,
}
use petri_operator.Namespaces

module _ (api : Api) (p : Platform) (r : Reconciler) where
  -- The read that follows the calls of log answered with a namespace of the environment that is
  -- not being deleted.
  abbrev pub IsSeen : Environment → Log → Type 0
  IsSeen env log =
      (ns : Namespace) × (api.namespace_at r.has_reader env.status.target_namespace log ≡ ok ns)
      × (owns_namespace env ns ≡ true)
      × (ns.deleting ≡ false)

  -- The namespace was missing, the environment is not bound to it yet, and the controller created
  -- it with the environment's labels or found that another run had done so in between.
  abbrev pub IsCreated : Environment → Log → Type 0
  IsCreated env log =
      let target_ns = env.status.target_namespace in
      let ns = owned_namespace api p r env target_ns in
      let read = get_namespace r.has_reader target_ns ∷ log in
      ((e : Err) × (api.namespace_at r.has_reader target_ns log ≡ err e) × (is_not_found e ≡ true))
      × (p.is_condition_true env.status.conditions namespace_bound ≡ false)
      × ((api.namespace_created ns read ≡ ok tt)
          ⊎ (((e : Err) × (api.namespace_created ns read ≡ err e) × (is_already_exists e ≡ true))
              × IsSeen env (create_namespace ns ∷ read)))

  adopt_ok :
      (env : Environment) (ns : Namespace) (target_ns : String) (log : Log)
      → (adopt api p r env ns target_ns log).0 ≡ ok tt
      → (owns_namespace env ns ≡ true) × (ns.deleting ≡ false)
  unfolding adopt
  adopt_ok env ns target_ns log h = elim (Bool-cases (owns_namespace env ns)) [
    | inr other ↦ absurd (ground (arith, h, other))
    | inl own ↦ elim (Bool-cases ns.deleting) [
      | inl going ↦ absurd (ground (arith, h, own, going))
      | inr stays ↦ (own, stays)
    ]
  ]

  create_absent_ok :
      (env : Environment) (log : Log)
      → let target_ns = env.status.target_namespace in
        let ns = owned_namespace api p r env target_ns in
        (create_absent api p r env target_ns log).0 ≡ ok tt
        → (api.namespace_created ns log ≡ ok tt)
          ⊎ (((e : Err) × (api.namespace_created ns log ≡ err e) × (is_already_exists e ≡ true))
              × IsSeen env (create_namespace ns ∷ log))
  unfolding create_absent
  create_absent_ok env log h =
      let target_ns = env.status.target_namespace in
      let ns = owned_namespace api p r env target_ns in
      let asked = create_namespace ns ∷ log in
      elim (Result-cases (api.namespace_created ns log)) [
        | inl (tt, e) ↦ inl e
        | inr (x, e) ↦ elim (Bool-cases (is_already_exists x)) [
          | inr broken ↦ absurd (ground (arith, h, e, broken))
          | inl exists ↦ elim (Result-cases (api.namespace_at r.has_reader target_ns asked)) [
            | inr (y, f) ↦ absurd (ground (arith, h, e, exists, f))
            | inl (seen, f) ↦
                let kept : (adopt api p r env seen target_ns
                      (get_namespace r.has_reader target_ns ∷ asked)).0
                    ≡ ok tt =
                  ground (arith, h, e, exists, f) in
                let (own, stays) =
                  adopt_ok env seen target_ns (get_namespace r.has_reader target_ns ∷ asked) kept in
                inr ((x, e, exists), (seen, f, own, stays))
          ]
        ]
      ]

  -- If `createNamespace` succeeds, then either its first read answered with a namespace that bears
  -- the labels of the environment and is not being deleted, or that read found nothing, the
  -- environment was not bound yet, and the namespace with the environment's labels was created,
  -- or existed by then and was seen to be the environment's own and not being deleted.
  pub create_namespace_ok :
      (env : Environment) (log : Log)
      → (Namespaces.create_namespace api p r env log).0 ≡ ok tt
      → IsSeen env log ⊎ IsCreated env log
  unfolding Namespaces.create_namespace
  create_namespace_ok env log h =
      let target_ns = env.status.target_namespace in
      let bound = p.is_condition_true env.status.conditions namespace_bound in
      let read = get_namespace r.has_reader target_ns ∷ log in
      elim (Result-cases (api.namespace_at r.has_reader target_ns log)) [
        | inl (ns, e) ↦
            let kept : (adopt api p r env ns target_ns read).0 ≡ ok tt = ground (arith, h, e) in
            let (own, stays) = adopt_ok env ns target_ns read kept in inl (ns, e, own, stays)
        | inr (x, e) ↦ elim (Bool-cases (is_not_found x)) [
          | inr broken ↦ absurd (ground (arith, h, e, broken))
          | inl missing ↦ elim (Bool-cases bound) [
            | inl yes_bound ↦ absurd (ground (arith, h, e, missing, yes_bound))
            | inr free ↦
                let made : (create_absent api p r env target_ns read).0 ≡ ok tt =
                  ground (arith, h, e, missing, free) in
                inr ((x, e, missing), free, create_absent_ok env read made)
          ]
        ]
      ]
