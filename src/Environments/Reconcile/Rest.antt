-- ===== src/Environments/Reconcile/Rest.antt =====
-- When a reconciliation asks for no other try.
use petri_operator.Prelude.{
  ℕ, String, Bool, true, ◌≡◌, refl, ap, ◌∙◌, ◌⊎◌, Option, none, some, List, ◌∷◌, leb, ◌==◌, ℤ,
  arith, inl, inr, Bool-cases, Option-cases,
}
use petri_operator.Prelude.Effects.{
  Result, ok, M, pure, ◌>>=◌, is_not_found, ignore_not_found, Result-cases, ok-injective,
}
use petri_operator.Types.{
  ComponentSpec, ComponentPhase, ReadinessSpec, EnvironmentPhase, EnvironmentTemplate,
}
use petri_operator.Cluster.{Log, Api, now, get_template}
use petri_operator.Platform.{Platform}
use petri_operator.Status.{PhaseMap, requeue_immediate}
use petri_operator.Graph.Results.{build_levels_total}
use petri_operator.Namespaces.{
  World, Reconciler, target_namespace, namespace_bound, create_namespace, allocate_namespace,
}
use petri_operator.Deploys.{Deployer}
use petri_operator.Deploys.Process.{SharedDeploys, process_level}
use petri_operator.Deploys.Process.Rest.{process_level-zero}
use petri_operator.Environments.{is_phase, resolve_deadline, resolve_deploy_timeout}
use petri_operator.Environments.Frontier.{phases_by_name, first_pending, overlong}
use petri_operator.Environments.Reconcile.{
  fallback, Outcome, is_kind_not_managed, needs_start, run_levels, deploy_ordered, deploy, bind,
  claim, proceed, expire, with_deadline, with_time, with_template, with_target, refresh, body,
}

-- The phases in which nothing is left to do.
abbrev pub IsAtRest : EnvironmentPhase → Type 0
IsAtRest phase =
    (phase ≡ EnvironmentPhase.ready)
    ⊎ (phase ≡ EnvironmentPhase.failed)
    ⊎ (phase ≡ EnvironmentPhase.terminating)

-- A pass that succeeds without asking for another try leaves the environment at rest.
abbrev Rests : Result Outcome × World → Type 0
Rests (r, w) = (d : Option ℕ) → r ≡ ok (0, d) → IsAtRest w.env.status.phase

abbrev IsRetrying : (String → List ComponentSpec → PhaseMap → ℤ → M World ℕ) → Type 0
IsRetrying q =
    (ns : String) (level : List ComponentSpec) (m : PhaseMap) (timeout : ℤ) (w : World)
    → (q ns level m timeout w).0 ≡ ok 0
    → (q ns level m timeout w).1.env.status.phase ≡ EnvironmentPhase.failed

is_phase-failed :
    (a : EnvironmentPhase) → is_phase a EnvironmentPhase.failed ≡ true → a ≡ EnvironmentPhase.failed
is_phase-failed EnvironmentPhase.unset h = absurd (ground (arith, h))
is_phase-failed EnvironmentPhase.pending h = absurd (ground (arith, h))
is_phase-failed EnvironmentPhase.deploying h = absurd (ground (arith, h))
is_phase-failed EnvironmentPhase.ready h = absurd (ground (arith, h))
is_phase-failed EnvironmentPhase.failed h = refl
is_phase-failed EnvironmentPhase.terminating h = absurd (ground (arith, h))

module _ (api : Api) (p : Platform) (r : Reconciler) (default_timeout : ℤ)
    (q : String → List ComponentSpec → PhaseMap → ℤ → M World ℕ) (retrying : IsRetrying q) where
  processed :
      (target_ns : String) (deadline : Option ℕ) (timeout : ℤ) (level : List ComponentSpec)
      (phases : PhaseMap) (w : World)
      → Rests ((q target_ns level phases timeout >>= λ requeue. pure (requeue, deadline)) w)
  processed target_ns deadline timeout level phases w =
      elim (Result-cases (q target_ns level phases timeout w).0) [
        | inr (x, e) ↦ rw e (λ d h. absurd (ground (arith, h)))
        | inl (requeue, e) ↦ rw e (λ d h. inr (
            inl (
              retrying target_ns level phases timeout w
                (e ∙ ap ok (ap (λ x. x.0) (ok-injective h))))))
      ]

  run_levels-Rests :
      (target_ns : String) (deadline : Option ℕ) (timeout : ℤ) (levels : List (List ComponentSpec))
      (w : World)
      → Rests (run_levels api p r default_timeout q target_ns deadline timeout levels w)
  unfolding run_levels
  run_levels-Rests target_ns deadline timeout levels w =
      let phases = phases_by_name w.env.status.components (λ _. ComponentPhase.unset) in
      let pending = first_pending levels phases in
      elim (Option-cases pending) [
        | inl e ↦
            elim (Bool-cases (needs_start api p r default_timeout q w.env.status.phase none)) [
              | inl s ↦ rw (e, s) (λ d h. inl refl)
              | inr s ↦ rw (e, s) (λ d h. inl refl)
            ]
        | inr (level, e) ↦
            elim (Bool-cases
              (needs_start api p r default_timeout q w.env.status.phase (some level))) [
                | inl s ↦ rw (e, s) (processed target_ns deadline timeout level phases _)
                | inr s ↦ rw (e, s) (processed target_ns deadline timeout level phases w)
              ]
      ]

  deploy_ordered-Rests :
      (target_ns : String) (deadline : Option ℕ) (timeout : ℤ) (components : List ComponentSpec)
      (levels : List (List ComponentSpec)) (w : World)
      → Rests
          (deploy_ordered api p r default_timeout q target_ns deadline timeout components levels w)
  unfolding deploy_ordered
  deploy_ordered-Rests target_ns deadline timeout components levels w =
      elim (Option-cases (overlong w.env.name components)) [
        | inr (release, f) ↦ rw (f, deploy_ordered) (λ d h. inr (inl refl))
        | inl f ↦ elim (Bool-cases (is_phase w.env.status.phase EnvironmentPhase.failed)) [
          | inl failed ↦
              rw (f, deploy_ordered, failed)
                (λ d h. inr (inl (is_phase-failed w.env.status.phase failed)))
          | inr going ↦
              rw (f, deploy_ordered, going) (run_levels-Rests target_ns deadline timeout levels w)
        ]
      ]

  deploy-Rests :
      (target_ns : String) (deadline : Option ℕ) (timeout : ℤ) (t : EnvironmentTemplate) (w : World)
      → Rests (deploy api p r default_timeout q target_ns deadline timeout t w)
  unfolding deploy
  deploy-Rests target_ns deadline timeout t w = elim (build_levels_total t.components) [
    | inr (inl (errs, e, _)) ↦ rw (e, deploy) (λ d h. inr (inl refl))
    | inr (inr e) ↦ rw (e, deploy) (λ d h. inr (inl refl))
    | inl (levels, e) ↦
        rw (e, deploy) (deploy_ordered-Rests target_ns deadline timeout t.components levels w)
  ]

  bind-Rests :
      (target_ns : String) (deadline : Option ℕ) (timeout : ℤ) (t : EnvironmentTemplate) (w : World)
      → Rests (bind api p r default_timeout q target_ns deadline timeout t w)
  unfolding bind
  bind-Rests target_ns deadline timeout t w =
      elim (Bool-cases (p.is_condition_true w.env.status.conditions namespace_bound)) [
        | inl bound ↦ rw bound (deploy-Rests target_ns deadline timeout t w)
        | inr free ↦ rw free (λ d h. absurd (ground (arith, h)))
      ]

  -- An allocation is followed by another try.
  allocated :
      (start : ℕ) (deadline : Option ℕ) (w : World)
      → Rests ((allocate_namespace api p r start >>= λ _. pure (requeue_immediate, deadline)) w)
  allocated start deadline w = elim (Result-cases (allocate_namespace api p r start w).0) [
    | inl (tt, e) ↦ rw e (λ d h. absurd (ground (arith, h)))
    | inr (x, e) ↦ rw e (λ d h. absurd (ground (arith, h)))
  ]

  claim-Rests :
      (target_ns : String) (deadline : Option ℕ) (timeout : ℤ) (t : EnvironmentTemplate) (w : World)
      → Rests (claim api p r default_timeout q target_ns deadline timeout t w)
  unfolding claim
  claim-Rests target_ns deadline timeout t w =
      let made = create_namespace api p r w.env w.log in
      let after = record w { log = made.1 } in
      elim (Result-cases made.0) [
        | inl (tt, e) ↦ rw e (bind-Rests target_ns deadline timeout t after)
        | inr (x, e) ↦ elim (Bool-cases (is_kind_not_managed x)) [
          | inr other ↦ rw (e, other) (λ d h. absurd (ground (arith, h)))
          | inl foreign ↦
              elim (Bool-cases (p.is_condition_true w.env.status.conditions namespace_bound)) [
                | inl bound ↦ rw (e, foreign, bound) (λ d h. inr (inl refl))
                | inr free ↦ rw (e, foreign, free) (allocated _ deadline after)
              ]
        ]
      ]

  proceed-Rests :
      (target_ns : String) (deadline : Option ℕ) (t : EnvironmentTemplate) (w : World)
      → Rests (proceed api p r default_timeout q target_ns deadline t w)
  unfolding proceed
  proceed-Rests target_ns deadline t w =
      elim (Result-cases (resolve_deploy_timeout p t.deploy_timeout (fallback default_timeout))) [
        | inl (timeout, e) ↦ rw (e, proceed) (claim-Rests target_ns deadline timeout t w)
        | inr (x, e) ↦ rw (e, proceed) (λ d h. inr (inl refl))
      ]

  with_deadline-Rests :
      (target_ns : String) (time : ℕ) (t : EnvironmentTemplate) (deadline : Option ℕ) (w : World)
      → Rests (with_deadline api p r default_timeout q target_ns time t deadline w)
  unfolding with_deadline expire
  with_deadline-Rests target_ns time t none w = proceed-Rests target_ns none t _
  with_deadline-Rests target_ns time t (some d) w = elim (Bool-cases (leb d time)) [
    | inr early ↦ rw early (proceed-Rests target_ns (some d) t _)
    | inl late ↦
        elim (Result-cases
          (ignore_not_found tt (api.environment_deleted w.env.namespace w.env.name w.log))) [
            | inl (tt, e) ↦ rw (late, e) (λ d h. inr (inr refl))
            | inr (x, e) ↦ rw (late, e) (λ d h. absurd (ground (arith, h)))
          ]
  ]

  with_time-Rests :
      (target_ns : String) (t : EnvironmentTemplate) (time : ℕ) (w : World)
      → Rests (with_time api p r default_timeout q target_ns t time w)
  unfolding with_time
  with_time-Rests target_ns t time w =
      elim (Result-cases (resolve_deadline p w.env.created w.env.spec.ttl t.ttl)) [
        | inr (x, f) ↦ rw (f, with_time) (λ d h. inr (inl refl))
        | inl (deadline, f) ↦ rw (f, with_time) (with_deadline-Rests target_ns time t deadline w)
      ]

  with_target-Rests :
      (target_ns : String) (w : World) → Rests (with_target api p r default_timeout q target_ns w)
  unfolding with_target with_template
  with_target-Rests target_ns w =
      let env = w.env in
      let asked = get_template env.namespace env.spec.template ∷ w.log in
      elim (Result-cases (api.template_at env.namespace env.spec.template w.log)) [
        | inl (t, e) ↦
            rw e (with_time-Rests target_ns t (api.time_at asked) (record w { log = now ∷ asked }))
        | inr (x, e) ↦ elim (Bool-cases (is_not_found x)) [
          | inl missing ↦ rw (e, missing) (λ d h. inr (inl refl))
          | inr broken ↦ rw (e, broken) (λ d h. absurd (ground (arith, h)))
        ]
      ]

  body-Rests : (w : World) → Rests (body api p r default_timeout q w)
  unfolding body
  body-Rests w = elim (Bool-cases (w.env.status.target_namespace == "")) [
    | inl h ↦ rw h (allocated 8 none w)
    | inr h ↦ elim (Result-cases (target_namespace api p r w.env)) [
      | inr (x, e) ↦ rw (h, e) (λ d k. inr (inl refl))
      | inl (name, e) ↦
          rw (h, e)
            (with_target-Rests name (record w { env = refresh api p r default_timeout q w.env }))
    ]
  ]

-- If `reconcile` with `processLevel` ends its work, before the deferred part, without an error and
-- without asking for another try, then the environment is Ready, Failed, or Terminating: no
-- environment is left half deployed with nobody to come back to it.
pub body-IsAtRest :
    (api : Api) (p : Platform) (r : Reconciler) (default_timeout : ℤ) (deployer : Deployer)
    (shared : SharedDeploys) (show_duration : ℤ → String)
    (is_ready : String → String → Option ReadinessSpec → M Log (Bool × String)) (w : World)
    (deadline : Option ℕ)
    → (body api p r default_timeout
        (process_level api p deployer shared show_duration is_ready)
        w).0
      ≡ ok (0, deadline)
    → IsAtRest
        (body api p r default_timeout
          (process_level api p deployer shared show_duration is_ready)
          w).1.env.status.phase
body-IsAtRest api p r default_timeout deployer shared show_duration is_ready w deadline h =
    body-Rests api p r default_timeout (process_level api p deployer shared show_duration is_ready)
      (process_level-zero api p deployer shared show_duration is_ready) w deadline h
