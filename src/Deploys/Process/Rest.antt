-- ===== src/Deploys/Process/Rest.antt =====
-- When a level is at rest.
use petri_operator.Prelude.{
  String, Bool, true, false, not, ◌||◌, ◌≡◌, refl, ap, ◌∙◌, Option, none, some, List, [], ◌∷◌, ℤ,
  arith, inl, inr, Bool-cases, Option-cases,
}
use petri_operator.Prelude.Effects.{Result, ok, err, M, Result-cases, ok-injective}
use petri_operator.Types.{
  ComponentSpec, ComponentPhase, ReadinessSpec, Environment, EnvironmentPhase,
}
use petri_operator.Cluster.{Log, Api, get_template}
use petri_operator.Platform.{Platform}
use petri_operator.Jobs.{JobState, JobPhase-cases}
use petri_operator.Status.{PhaseMap, find_component, record_runtime_failure}
use petri_operator.Status.Backoff.{deploy_backoff_bounds}
use petri_operator.Namespaces.{World}
use petri_operator.Deploys.{Deployer, deploy_opts, each_component, partition_level}
use petri_operator.Deploys.Readiness.{check_readiness_zero}
use petri_operator.Deploys.Process.{
  SharedDeploys, Bindings, is_shared, is_not_ready, is_at_capacity, submit_component, store_shared,
  Tally, record_submit, tally, conclude, submit_deploys, watch_shared, watch_state, watch_release,
  watch, observe_deploys, process_parts, process_level,
}

-- A result that ends the work comes with a failed environment.
abbrev pub EndsFailed : {A : Type 0} → A → Result A × World → Type 0
EndsFailed a (r, w) = r ≡ ok a → w.env.status.phase ≡ EnvironmentPhase.failed

module _ (api : Api) (p : Platform) (deployer : Deployer) (shared : SharedDeploys) where
  tally-none :
      (exhausted retrying : Bool) (cs : List ComponentSpec)
      (results : List (Result (Option ComponentPhase))) (w : World)
      → EndsFailed none (tally api p deployer shared exhausted retrying cs results w)
  unfolding tally
  tally-none exhausted retrying [] results w = λ h. absurd (ground (arith, h))
  tally-none exhausted retrying (c ∷ cs) [] w = λ h. absurd (ground (arith, h))
  tally-none exhausted retrying (c ∷ cs) (ok x ∷ results) w = elim (Bool-cases (is_shared c)) [
    | inl s ↦ rw s (tally-none exhausted retrying cs results w)
    | inr own ↦ rw own (tally-none exhausted retrying cs results _)
  ]
  tally-none exhausted retrying (c ∷ cs) (err e ∷ results) w =
      let attempted = record_submit api p deployer shared c e w in
      elim (Bool-cases (is_not_ready e)) [
        | inl later ↦ rw later (tally-none exhausted retrying cs results w)
        | inr now ↦ elim (Bool-cases (is_shared c)) [
          | inl s ↦ elim (Bool-cases (is_at_capacity e)) [
            | inl full ↦ rw (now, s, full) (λ h. refl)
            | inr failed ↦ elim (Result-cases attempted.0) [
              | inr (x, f) ↦ rw (now, s, failed, f) (λ h. absurd (ground (arith, h)))
              | inl (last, f) ↦
                  rw (now, s, failed, f)
                    (tally-none (exhausted || last) (retrying || not last) cs results attempted.1)
            ]
          ]
          | inr own ↦ elim (Result-cases attempted.0) [
            | inr (x, f) ↦ rw (now, own, f) (λ h. absurd (ground (arith, h)))
            | inl (last, f) ↦
                rw (now, own, f)
                  (tally-none (exhausted || last) (retrying || not last) cs results attempted.1)
          ]
        ]
      ]

  conclude-EndsFailed :
      (need : List ComponentSpec) (t : Tally api p deployer shared) (w : World)
      → (t ≡ none → w.env.status.phase ≡ EnvironmentPhase.failed)
      → EndsFailed 0 (conclude api p deployer shared need t w)
  unfolding conclude
  conclude-EndsFailed need none w h = λ e. h refl
  conclude-EndsFailed need (some (true, retrying)) w h = λ e. refl
  conclude-EndsFailed need (some (false, true)) w h =
      λ e. absurd (ground (arith, e, deploy_backoff_bounds w.env.status.components need))
  conclude-EndsFailed need (some (false, false)) w h = λ e. absurd (ground (arith, e))

  submit_deploys-EndsFailed :
      (target_ns : String) (need : List ComponentSpec) (w : World)
      → EndsFailed 0 (submit_deploys api p deployer shared target_ns need w)
  unfolding submit_deploys
  submit_deploys-EndsFailed target_ns need w =
      let env = w.env in
      let asked = record w { log = get_template env.namespace env.spec.template ∷ w.log } in
      elim (Result-cases (api.template_at env.namespace env.spec.template w.log)) [
        | inr (x, e) ↦ rw e (λ h. absurd (ground (arith, h)))
        | inl (t, e) ↦
            let bound = shared.binding_components env target_ns t asked.log in
            let ready = record w { log = bound.1 } in
            elim (Result-cases bound.0) [
              | inr (x, f) ↦ rw (e, f) (λ h. absurd (ground (arith, h)))
              | inl (bindings, f) ↦
                  let tried =
                    each_component (submit_component api p deployer shared env target_ns bindings)
                      need ready in
                  elim (Result-cases tried.0) [
                    | inr (x, g) ↦ rw (e, f, g) (λ h. absurd (ground (arith, h)))
                    | inl (results, g) ↦
                        let stored = store_shared api p deployer shared need results tried.1 in
                        elim (Result-cases stored.0) [
                          | inr (x, k) ↦ rw (e, f, g, k) (λ h. absurd (ground (arith, h)))
                          | inl (tt, k) ↦
                              let counted =
                                tally api p deployer shared false false need results stored.1 in
                              let none_failed = tally-none false false need results stored.1 in
                              elim (Result-cases counted.0) [
                                | inr (x, l) ↦ rw (e, f, g, k, l) (λ h. absurd (ground (arith, h)))
                                | inl (t', l) ↦
                                    rw (e, f, g, k, l)
                                      (conclude-EndsFailed need t' counted.1
                                        (λ n. none_failed (l ∙ ap ok n)))
                              ]
                        ]
                  ]
            ]
      ]

  watch_state-none :
      (c : ComponentSpec) (st : JobState) (w : World)
      → EndsFailed none (watch_state api p deployer shared c st w)
  unfolding watch_state
  watch_state-none c st w = elim (JobPhase-cases st.phase) [
    | inl e ↦ rw e (λ h. absurd (ground (arith, h)))
    | inr (inl e) ↦ rw e (λ h. absurd (ground (arith, h)))
    | inr (inr (inl e)) ↦ rw e (λ h. absurd (ground (arith, h)))
    | inr (inr (inr e)) ↦
        elim (Bool-cases (record_runtime_failure c.name st.reason w.env.status.components).1) [
          | inl last ↦ rw (e, last) (λ h. refl)
          | inr more ↦ rw (e, more) (λ h. absurd (ground (arith, h)))
        ]
  ]

  watch_shared-none :
      (c : ComponentSpec) (w : World) → EndsFailed none (watch_shared api p deployer shared c w)
  unfolding watch_shared
  watch_shared-none c w =
      let seen = shared.observe_shared c w in
      elim (Option-cases (find_component c.name w.env.status.components)) [
        | inl f ↦ rw f (λ h. absurd (ground (arith, h)))
        | inr (before, f) ↦ elim (Result-cases seen.0) [
          | inr (x, e) ↦ rw (f, e) (λ h. absurd (ground (arith, h)))
          | inl (done, e) ↦
              elim (Option-cases (find_component c.name seen.1.env.status.components)) [
                | inl g ↦ rw (f, e, g) (λ h. absurd (ground (arith, h)))
                | inr (after, g) ↦ rw (f, e, g) (λ h. absurd (ground (arith, h)))
              ]
        ]
      ]

  watch_release-none :
      (env : Environment) (target_ns : String) (bindings : Bindings) (c : ComponentSpec) (w : World)
      → EndsFailed none (watch_release api p deployer shared env target_ns bindings c w)
  unfolding watch_release
  watch_release-none env target_ns bindings c w =
      elim (Result-cases (shared.render_values env c bindings)) [
        | inr (x, e) ↦ rw e (λ h. absurd (ground (arith, h)))
        | inl (rendered, e) ↦
            let seen = deployer.observe (deploy_opts env target_ns rendered) w.log in
            elim (Result-cases seen.0) [
              | inr (x, f) ↦ rw (e, f) (λ h. absurd (ground (arith, h)))
              | inl (st, f) ↦ rw (e, f) (watch_state-none c st (record w { log = seen.1 }))
            ]
      ]

  watch-none :
      (target_ns : String) (bindings : Bindings) (running retrying : Bool) (cs : List ComponentSpec)
      (w : World)
      → EndsFailed none (watch api p deployer shared target_ns bindings running retrying cs w)
  unfolding watch
  watch-none target_ns bindings running retrying [] w = λ h. absurd (ground (arith, h))
  watch-none target_ns bindings running retrying (c ∷ cs) w =
      let one = watch_shared api p deployer shared c w in
      let other = watch_release api p deployer shared w.env target_ns bindings c w in
      elim (Bool-cases (is_shared c)) [
        | inl s ↦ elim (Result-cases one.0) [
          | inr (x, e) ↦ rw (s, e) (λ h. absurd (ground (arith, h)))
          | inl (none, e) ↦ rw (s, e) (λ h. watch_shared-none c w e)
          | inl (some (r, t), e) ↦
              rw (s, e) (watch-none target_ns bindings (running || r) (retrying || t) cs one.1)
        ]
        | inr own ↦ elim (Result-cases other.0) [
          | inr (x, e) ↦ rw (own, e) (λ h. absurd (ground (arith, h)))
          | inl (none, e) ↦ rw (own, e) (λ h. watch_release-none w.env target_ns bindings c w e)
          | inl (some (r, t), e) ↦
              rw (own, e) (watch-none target_ns bindings (running || r) (retrying || t) cs other.1)
        ]
      ]

  observe_deploys-EndsFailed :
      (target_ns : String) (cs : List ComponentSpec) (w : World)
      → EndsFailed (some 0) (observe_deploys api p deployer shared target_ns cs w)
  unfolding observe_deploys
  observe_deploys-EndsFailed target_ns cs w =
      let env = w.env in
      let asked = get_template env.namespace env.spec.template ∷ w.log in
      elim (Result-cases (api.template_at env.namespace env.spec.template w.log)) [
        | inr (x, e) ↦ rw e (λ h. absurd (ground (arith, h)))
        | inl (t, e) ↦
            let bound = shared.binding_components env target_ns t asked in
            elim (Result-cases bound.0) [
              | inr (x, f) ↦ rw (e, f) (λ h. absurd (ground (arith, h)))
              | inl (bindings, f) ↦
                  let ready = record w { log = bound.1 } in
                  let seen = watch api p deployer shared target_ns bindings false false cs ready in
                  let statuses = seen.1.env.status.components in
                  elim (Result-cases seen.0) [
                    | inr (x, g) ↦ rw (e, f, g) (λ h. absurd (ground (arith, h)))
                    | inl (none, g) ↦
                        rw (e, f, g) (λ h. watch-none target_ns bindings false false cs ready g)
                    | inl (some (running, true), g) ↦
                        rw (e, f, g)
                          (λ h. absurd (ground (arith, h, deploy_backoff_bounds statuses cs)))
                    | inl (some (true, false), g) ↦ rw (e, f, g) (λ h. absurd (ground (arith, h)))
                    | inl (some (false, false), g) ↦ rw (e, f, g) (λ h. absurd (ground (arith, h)))
                  ]
            ]
      ]

  module _ (show_duration : ℤ → String)
      (is_ready : String → String → Option ReadinessSpec → M Log (Bool × String)) where
    process_parts-EndsFailed :
        (target_ns : String) (need submitting need_check : List ComponentSpec) (timeout : ℤ)
        (w : World)
        → EndsFailed 0 (
            process_parts api p deployer shared show_duration is_ready target_ns need submitting
              need_check timeout w)
    unfolding process_parts
    process_parts-EndsFailed target_ns (c ∷ need) submitting need_check timeout w =
        submit_deploys-EndsFailed target_ns (c ∷ need) w
    process_parts-EndsFailed target_ns [] [] need_check timeout w =
        check_readiness_zero api p show_duration is_ready target_ns need_check timeout w
    process_parts-EndsFailed target_ns [] (c ∷ cs) need_check timeout w =
        let seen = observe_deploys api p deployer shared target_ns (c ∷ cs) w in
        elim (Result-cases seen.0) [
          | inr (x, g) ↦ rw g (λ h. absurd (ground (arith, h)))
          | inl (some requeue, g) ↦ rw g (λ h.
              observe_deploys-EndsFailed target_ns (c ∷ cs) w
                (g ∙ ap ok (ap some (ok-injective h))))
          | inl (none, g) ↦ rw g (
              check_readiness_zero api p show_duration is_ready target_ns need_check timeout seen.1)
        ]

    -- If `processLevel` succeeds without asking for another try, the environment has failed: in the
    -- submission, the observation and the readiness checks alike, a level with work left is tried
    -- again.
    pub process_level-zero :
        (target_ns : String) (level : List ComponentSpec) (phase_by_name : PhaseMap) (timeout : ℤ)
        (w : World)
        → (process_level api p deployer shared show_duration is_ready target_ns level phase_by_name
            timeout w).0
          ≡ ok 0
        → (process_level api p deployer shared show_duration is_ready target_ns level phase_by_name
            timeout w).1.env.status.phase
          ≡ EnvironmentPhase.failed
    unfolding process_level
    process_level-zero target_ns level phase_by_name timeout w =
        let parts = partition_level phase_by_name level in
        process_parts-EndsFailed target_ns parts.need_deploy parts.submitting parts.need_check
          timeout w
