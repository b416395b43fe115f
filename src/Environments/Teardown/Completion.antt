-- ===== src/Environments/Teardown/Completion.antt =====
-- When the deletion of an environment is marked as complete.
use petri_operator.Prelude.{
  ℕ, String, Bool, true, false, ◌≡◌, refl, ap, ◌∙◌, ◌⊎◌, inl, inr, List, ◌∷◌, ◌==◌, Bool-cases,
}
use petri_operator.Prelude.Effects.{
  Err, Result, M, ok, err, ignore_not_found, is_not_found, Result-cases,
}
use petri_operator.Types.{Environment, EnvironmentTemplate, Condition, Namespace, terminating}
use petri_operator.Cluster.{Log, Api, get_namespace, get_template, delete_namespace}
use petri_operator.Platform.{Platform}
use petri_operator.Namespaces.{
  World, Reconciler, owns_namespace, target_namespace, namespace_bound,
  ensure_deployer_role_binding,
}
use petri_operator.Environments.{cleanup_complete, remove_finalizer}
use petri_operator.Environments.Teardown.{
  Cleanup, deprovision, undeploy, not_managed, clean, tear_down, drop_namespace, release, stop,
  no_namespace, some_namespace, with_target, body, finish, reconcile_delete,
}
use petri_operator.Environments.Teardown.Finalizer.{settle-IsKept}

module _ (api : Api) (p : Platform) (r : Reconciler) (cleanup : Cleanup) where
  abbrev pub is_complete : Environment → Bool
  is_complete env = p.is_condition_true env.status.conditions cleanup_complete

  abbrev pub is_bound : Environment → Bool
  is_bound env = p.is_condition_true env.status.conditions namespace_bound

  -- The grounds on which the cleanup is complete, by the environment and the calls before the
  -- template is read.
  pub data Finished (target_ns : String) (env : Environment) (log : Log) : Type 0 where
    untemplated :
        (e : Err)
        → api.template_at env.namespace env.spec.template log ≡ err e
        → is_not_found e ≡ true
        → Finished target_ns env log
    unbound : is_bound env ≡ false → Finished target_ns env log
    cleaned :
        (t : EnvironmentTemplate) (before : World) (later again : ℕ)
        → api.template_at env.namespace env.spec.template log ≡ ok t
        → (before ≡ (
            let s = env.status in
            let asked = get_template env.namespace env.spec.template ∷ log in
            record {
              log = (ensure_deployer_role_binding api p r target_ns asked).1;
              env = record env { status = record s { phase = terminating } };
            }))
        → (cleanup.undeploy_all target_ns t before).0 ≡ ok (true, later)
        → (cleanup.deprovision_shared target_ns t (cleanup.undeploy_all target_ns t before).1).0
          ≡ ok (true, again)
        → Finished target_ns env log

  abbrev Unmarked : World → Result ℕ × World → Type 0
  Unmarked w result = is_complete result.1.env ≡ is_complete w.env

  deprovision_done :
      (target_ns : String) (t : EnvironmentTemplate) (w : World)
      → Unmarked w (deprovision api p r cleanup target_ns t w)
        ⊎ ((again : ℕ) × ((cleanup.deprovision_shared target_ns t w).0 ≡ ok (true, again)))
  unfolding deprovision finish
  deprovision_done target_ns t w =
      let kept = ap is_complete (cleanup.deprovision_shared_keeps target_ns t w) in
      elim (Result-cases (cleanup.deprovision_shared target_ns t w).0) [
        | inr (x, e) ↦ inl (rw e kept)
        | inl ((true, again), e) ↦ inr (again, e)
        | inl ((false, again), e) ↦ inl (rw e kept)
      ]

  undeploy_done :
      (target_ns : String) (t : EnvironmentTemplate) (w : World)
      → Unmarked w (undeploy api p r cleanup target_ns t w)
        ⊎ ((later : ℕ) × ((again : ℕ) × ((cleanup.undeploy_all target_ns t w).0 ≡ ok (true, later))
              × ((cleanup.deprovision_shared target_ns t (cleanup.undeploy_all target_ns t w).1).0
                  ≡ ok (true, again))))
  unfolding undeploy
  undeploy_done target_ns t w =
      let kept = ap is_complete (cleanup.undeploy_all_keeps target_ns t w) in
      let after = (cleanup.undeploy_all target_ns t w).1 in
      elim (Result-cases (cleanup.undeploy_all target_ns t w).0) [
        | inr (x, e) ↦ inl (rw e kept)
        | inl ((false, later), e) ↦ inl (rw e kept)
        | inl ((true, later), e) ↦ elim (deprovision_done target_ns t after) [
          | inl same ↦ inl (rw e (same ∙ kept))
          | inr (again, f) ↦ inr (later, (again, e, f))
        ]
      ]

  clean_done :
      (target_ns : String) (t : EnvironmentTemplate) (w : World)
      → Unmarked w (clean api p r cleanup target_ns t w)
        ⊎ ((before : World) × ((later : ℕ) × ((again : ℕ) × (before
                  ≡ record w { log = (ensure_deployer_role_binding api p r target_ns w.log).1 })
                × ((cleanup.undeploy_all target_ns t before).0 ≡ ok (true, later))
                × ((cleanup.deprovision_shared target_ns t
                      (cleanup.undeploy_all target_ns t before).1).0
                    ≡ ok (true, again)))))
  unfolding clean
  clean_done target_ns t w =
      let bind = ensure_deployer_role_binding api p r target_ns w.log in
      let next = record w { log = bind.1 } in
      elim (Result-cases (ignore_not_found tt bind.0)) [
        | inr (x, e) ↦ inl (rw e)
        | inl (tt, e) ↦ elim (undeploy_done target_ns t next) [
          | inl same ↦ inl (rw e same)
          | inr (later, (again, a, b)) ↦ inr (next, (later, (again, refl, a, b)))
        ]
      ]

  tear_down_done :
      (target_ns : String) (w : World)
      → Unmarked w (tear_down api p r cleanup target_ns w) ⊎ Finished target_ns w.env w.log
  unfolding tear_down
  tear_down_done target_ns w =
      let asked = get_template w.env.namespace w.env.spec.template ∷ w.log in
      let s = w.env.status in
      let begun = record w {
        log = asked;
        env = let env = w.env in record env { status = record s { phase = terminating } };
      } in
      elim (Result-cases (api.template_at w.env.namespace w.env.spec.template w.log)) [
        | inr (x, e) ↦ elim (Bool-cases (is_not_found x)) [
          | inl lost ↦ inr (untemplated x e lost)
          | inr broken ↦ inl (rw (e, broken))
        ]
        | inl (t, e) ↦ elim (Bool-cases (is_bound w.env)) [
          | inr free ↦ inr (unbound free)
          | inl bound ↦ elim (clean_done target_ns t begun) [
            | inl same ↦ inl (rw (e, bound) same)
            | inr (before, (later, (again, k, a, b))) ↦ inr (cleaned t before later again e k a b)
          ]
        ]
      ]

  -- The namespace is the environment's own, and the cleanup has come to its end.
  pub record IsOver (w : World) : Type 0 where
    pub name : String
    pub ns : Namespace
    pub target : target_namespace api p r w.env ≡ ok name
    pub read : api.namespace_at r.has_reader name w.log ≡ ok ns
    pub own : owns_namespace w.env ns ≡ true
    pub end : Finished name w.env (get_namespace r.has_reader name ∷ w.log)

  -- meta.SetStatusCondition leaves the conditions of other types alone.
  abbrev pub IsSeparate : Type 0
  IsSeparate =
      (conditions : List Condition) (c : Condition) (type : String)
      → (c.type == type) ≡ false
      → p.is_condition_true (p.set_condition conditions c) type
        ≡ p.is_condition_true conditions type

  module _ (separate : IsSeparate) where
    not_managed-Unmarked :
        (text : String) (w : World) → Unmarked w (not_managed api p r cleanup text w)
    unfolding not_managed
    not_managed-Unmarked text w = separate w.env.status.conditions _ cleanup_complete refl

    stop_state : (m : M World (Unit {0})) (w : World) → (stop api p r cleanup m w).1 ≡ (m w).1
    stop_state m w = elim (Result-cases (m w).0) [ inl (tt, e) ↦ (rw e) | inr (x, e) ↦ (rw e) ]

    release-Unmarked : (w : World) → Unmarked w (release api p r cleanup w)
    unfolding remove_finalizer
    release-Unmarked w = ap (λ v. is_complete v.env) (stop_state (remove_finalizer api p) w)

    no_namespace-Unmarked : (w : World) → Unmarked w (no_namespace api p r cleanup w.env w)
    unfolding no_namespace
    no_namespace-Unmarked w = elim (Bool-cases (is_complete w.env)) [
      | inl complete ↦ rw complete (release-Unmarked w ∙ complete)
      | inr busy ↦ elim (Bool-cases (is_bound w.env)) [
        | inl bound ↦ rw (busy, bound) (not_managed-Unmarked _ w ∙ busy)
        | inr free ↦ rw (busy, free) (release-Unmarked w ∙ busy)
      ]
    ]

    drop_namespace-Unmarked :
        (ns : Namespace) (w : World) → Unmarked w (drop_namespace api p r cleanup ns w)
    unfolding drop_namespace
    drop_namespace-Unmarked ns w =
        let log = delete_namespace ns.name ns.uid ns.resource_version ∷ w.log in
        elim (Result-cases
          (ignore_not_found tt (api.namespace_deleted ns.name ns.uid ns.resource_version w.log))) [
            | inr (x, f) ↦ (rw f)
            | inl (tt, f) ↦ rw f (release-Unmarked (record w { log = log }))
          ]

    some_namespace_done :
        (name : String) (ns : Namespace) (w : World)
        → Unmarked w (some_namespace api p r cleanup w.env name ns w)
          ⊎ ((owns_namespace w.env ns ≡ true) × Finished name w.env w.log)
    unfolding some_namespace
    some_namespace_done name ns w = elim (Bool-cases (owns_namespace w.env ns)) [
      | inr other ↦ elim (Bool-cases (is_bound w.env)) [
        | inl bound ↦ inl (rw (other, bound) (not_managed-Unmarked _ w))
        | inr free ↦ inl (rw (other, free) (release-Unmarked w))
      ]
      | inl own ↦ elim (Bool-cases (is_complete w.env)) [
        | inl complete ↦ inl (rw (own, complete) (drop_namespace-Unmarked ns w ∙ complete))
        | inr busy ↦ elim (tear_down_done name w) [
          | inl same ↦ inl (rw (own, busy) (same ∙ busy))
          | inr end ↦ inr (own, end)
        ]
      ]
    ]

    body_done : (w : World) → Unmarked w (body api p r cleanup w) ⊎ IsOver w
    unfolding body with_target
    body_done w = elim (Bool-cases (w.env.status.target_namespace == "")) [
      | inl h ↦ inl (rw h (release-Unmarked w))
      | inr h ↦ elim (Result-cases (target_namespace api p r w.env)) [
        | inr (x, t) ↦ inl (rw (h, t) (separate w.env.status.conditions _ cleanup_complete refl))
        | inl (name, t) ↦
            let read = record w { log = get_namespace r.has_reader name ∷ w.log } in
            elim (Result-cases (api.namespace_at r.has_reader name w.log)) [
              | inr (x, e) ↦ elim (Bool-cases (is_not_found x)) [
                | inl lost ↦ inl (rw (h, t, e, lost) (no_namespace-Unmarked read))
                | inr broken ↦ inl (rw (h, t, e, broken))
              ]
              | inl (ns, e) ↦ elim (some_namespace_done name ns read) [
                | inl same ↦ inl (rw (h, t, e) same)
                | inr (own, end) ↦
                    inr
                      (record { name = name; ns = ns; target = t; read = e; own = own; end = end })
              ]
            ]
      ]
    ]

    pub reconcile_delete-IsOver :
        (w : World) → Unmarked w (reconcile_delete api p r cleanup w) ⊎ IsOver w
    unfolding reconcile_delete
    reconcile_delete-IsOver w = elim (body_done w) [
      | inl same ↦
          inl
            (ap is_complete (settle-IsKept api p r cleanup w.env (body api p r cleanup w).1) ∙ same)
      | inr over ↦ inr over
    ]
