-- ===== src/Environments/Reconcile/Binding.antt =====
-- The binding of an environment to its namespace comes before its deployment.
use petri_operator.Prelude.{
  ℕ, String, false, ◌≡◌, Option, none, some, List, ◌∷◌, ◌==◌, leb, ◌&&◌, ℤ, inl, inr, Bool-cases,
}
use petri_operator.Prelude.Effects.{M, Result-cases}
use petri_operator.Types.{ComponentSpec, Environment, EnvironmentTemplate}
use petri_operator.Cluster.{Api, now, get_template}
use petri_operator.Platform.{Platform}
use petri_operator.Status.{PhaseMap}
use petri_operator.Namespaces.{
  World, Reconciler, target_namespace, namespace_bound, create_namespace,
}
use petri_operator.Environments.{resolve_deadline, resolve_deploy_timeout}
use petri_operator.Environments.Reconcile.{
  fallback, bind, claim, proceed, with_deadline, with_time, with_template, with_target, refresh,
  body, in_time, settle, reconcile,
}

module _ (api : Api) (p : Platform) (r : Reconciler) (default_timeout : ℤ)
    (q q' : String → List ComponentSpec → PhaseMap → ℤ → M World ℕ) where
  -- The environment is not bound.
  abbrev IsFree : Environment → Type 0
  IsFree env = p.is_condition_true env.status.conditions namespace_bound ≡ false

  bind_free :
      (target_ns : String) (deadline : Option ℕ) (timeout : ℤ) (t : EnvironmentTemplate) (w : World)
      → IsFree w.env
      → bind api p r default_timeout q target_ns deadline timeout t w
        ≡ bind api p r default_timeout q' target_ns deadline timeout t w
  unfolding bind
  bind_free target_ns deadline timeout t w free = rw free

  claim_free :
      (target_ns : String) (deadline : Option ℕ) (timeout : ℤ) (t : EnvironmentTemplate) (w : World)
      → IsFree w.env
      → claim api p r default_timeout q target_ns deadline timeout t w
        ≡ claim api p r default_timeout q' target_ns deadline timeout t w
  unfolding claim
  claim_free target_ns deadline timeout t w free =
      let made = create_namespace api p r w.env w.log in
      elim (Result-cases made.0) [
        | inl (tt, e) ↦
            rw e (bind_free target_ns deadline timeout t (record w { log = made.1 }) free)
        | inr (x, e) ↦ (rw (e, free))
      ]

  proceed_free :
      (target_ns : String) (deadline : Option ℕ) (t : EnvironmentTemplate) (w : World)
      → IsFree w.env
      → proceed api p r default_timeout q target_ns deadline t w
        ≡ proceed api p r default_timeout q' target_ns deadline t w
  unfolding proceed
  proceed_free target_ns deadline t w free =
      elim (Result-cases (resolve_deploy_timeout p t.deploy_timeout (fallback default_timeout))) [
        | inl (timeout, e) ↦ rw (e, proceed) (claim_free target_ns deadline timeout t w free)
        | inr (x, e) ↦ (rw (e, proceed))
      ]

  with_deadline_free :
      (target_ns : String) (time : ℕ) (t : EnvironmentTemplate) (deadline : Option ℕ) (w : World)
      → IsFree w.env
      → with_deadline api p r default_timeout q target_ns time t deadline w
        ≡ with_deadline api p r default_timeout q' target_ns time t deadline w
  unfolding with_deadline
  with_deadline_free target_ns time t none w free = proceed_free target_ns none t _ free
  with_deadline_free target_ns time t (some d) w free = elim (Bool-cases (leb d time)) [
    | inl late ↦ (rw late)
    | inr early ↦ rw early (proceed_free target_ns (some d) t _ free)
  ]

  with_time_free :
      (target_ns : String) (t : EnvironmentTemplate) (time : ℕ) (w : World)
      → IsFree w.env
      → with_time api p r default_timeout q target_ns t time w
        ≡ with_time api p r default_timeout q' target_ns t time w
  unfolding with_time
  with_time_free target_ns t time w free =
      elim (Result-cases (resolve_deadline p w.env.created w.env.spec.ttl t.ttl)) [
        | inr (x, f) ↦ (rw (f, with_time))
        | inl (deadline, f) ↦
            rw (f, with_time) (with_deadline_free target_ns time t deadline w free)
      ]

  with_target_free :
      (target_ns : String) (w : World)
      → IsFree w.env
      → with_target api p r default_timeout q target_ns w
        ≡ with_target api p r default_timeout q' target_ns w
  unfolding with_target with_template
  with_target_free target_ns w free =
      let env = w.env in
      let asked = get_template env.namespace env.spec.template ∷ w.log in
      elim (Result-cases (api.template_at env.namespace env.spec.template w.log)) [
        | inr (x, e) ↦ (rw e)
        | inl (t, e) ↦
            rw e
              (with_time_free target_ns t (api.time_at asked) (record w { log = now ∷ asked }) free)
      ]

  refresh-IsFree : (env : Environment) → IsFree env → IsFree (refresh api p r default_timeout q env)
  refresh-IsFree env free =
      let s = env.status in
      elim (Bool-cases
        (leb s.observed_generation env.generation && leb env.generation s.observed_generation)) [
          | inl same ↦ rw same free
          | inr changed ↦ rw changed free
        ]

  body_free :
      (w : World)
      → IsFree w.env
      → body api p r default_timeout q w ≡ body api p r default_timeout q' w
  unfolding body
  body_free w free = elim (Bool-cases (w.env.status.target_namespace == "")) [
    | inl h ↦ (rw h)
    | inr h ↦ elim (Result-cases (target_namespace api p r w.env)) [
      | inr (x, e) ↦ (rw (h, e))
      | inl (name, e) ↦
          rw (h, e)
            (with_target_free name (record w { env = refresh api p r default_timeout q w.env })
              (refresh-IsFree w.env free))
    ]
  ]

  -- While the environment is not bound to its namespace, `reconcile` runs no component's code: the
  -- pass has the same result, log and environment whatever `processLevel` does. The binding is in
  -- the stored status before a pass deploys anything.
  pub reconcile_free :
      (w : World)
      → p.is_condition_true w.env.status.conditions namespace_bound ≡ false
      → reconcile api p r default_timeout q w ≡ reconcile api p r default_timeout q' w
  unfolding reconcile in_time settle
  reconcile_free w free = rw (body_free w free)
