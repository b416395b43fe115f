-- ===== src/Undeploys/Keeps.antt =====
-- Undeploying changes the components' statuses only, so it can serve the deletion of an
-- environment.
use petri_operator.Prelude.{
  ℕ, Bool, true, false, String, refl, ◌∙◌, List, [], ◌∷◌, ◌++◌, ◌==◌, inl, inr, Bool-cases,
}
use Prim.Native.String.{◌++◌ as join}
use petri_operator.Prelude.Effects.{Result, ok, err, M, Result-cases}
use petri_operator.Types.{ComponentSpec, EnvironmentTemplate}
use petri_operator.Jobs.{JobState, JobPhase-cases}
use petri_operator.Graph.Results.{build_levels_total}
use petri_operator.Status.{find_component, record_runtime_failure}
use petri_operator.Namespaces.{World}
use petri_operator.Deploys.{Deployer, each_component}
use petri_operator.Environments.Teardown.{Keeps, Cleanup}
use petri_operator.Undeploys.{
  is_forced, Verdict, observe_one, judge_level, submit_one, observe_undeploy_level,
  submit_undeploy_level, undeploy_level, undeploy_levels, reversed, undeploy_all,
}

each_component-Keeps :
    {A : Type 0} (f : ComponentSpec → M World A) (cs : List ComponentSpec)
    → ((c : ComponentSpec) → Keeps (f c))
    → Keeps (each_component f cs)
unfolding each_component
each_component-Keeps f [] h w = refl
each_component-Keeps f (c ∷ cs) h w =
    let first = f c w in
    let kept = each_component-Keeps f cs h first.1 ∙ h c w in
    elim (Result-cases (each_component f cs first.1).0) [
      | inl (rs, e) ↦ rw e kept
      | inr (x, e) ↦ rw e kept
    ]

module _ (deployer : Deployer) (target_ns : String) where
  observe_one-Keeps : (c : ComponentSpec) → Keeps (observe_one deployer target_ns c)
  unfolding observe_one
  observe_one-Keeps c w = elim (Bool-cases (c.shared_component_ref == "")) [
    | inr shared ↦ (rw shared)
    | inl own ↦ elim (Bool-cases (is_forced (find_component c.name w.env.status.components))) [
      | inl forced ↦ (rw (own, forced))
      | inr others ↦ (rw (own, others))
    ]
  ]

  judge_level-Keeps :
      (v : Verdict deployer) (level : List ComponentSpec) (results : List (Result JobState))
      → Keeps (judge_level deployer v level results)
  unfolding judge_level
  judge_level-Keeps v [] results w = refl
  judge_level-Keeps v (c ∷ level) [] w = refl
  judge_level-Keeps (done, need) (c ∷ level) (err e ∷ results) w = refl
  judge_level-Keeps (done, need) (c ∷ level) (ok st ∷ results) w =
      let again = judge_level-Keeps (false, need ++ c ∷ []) level results in
      let failure =
        record_runtime_failure c.name (join "undeploy: " st.reason) w.env.status.components in
      elim (JobPhase-cases st.phase) [
        | inl e ↦ rw e (judge_level-Keeps (done, need) level results w)
        | inr (inl e) ↦ rw e (judge_level-Keeps (false, need) level results w)
        | inr (inr (inl e)) ↦ rw e (again w)
        | inr (inr (inr e)) ↦ elim (Bool-cases failure.1) [
          | inl last ↦ rw (e, last) (judge_level-Keeps (done, need) level results _)
          | inr more ↦ rw (e, more) (again _)
        ]
      ]

  submit_undeploy_level-Keeps :
      (need : List ComponentSpec) → Keeps (submit_undeploy_level deployer target_ns need)
  unfolding submit_undeploy_level submit_one
  submit_undeploy_level-Keeps need w =
      let sent = each_component (submit_one deployer target_ns) need w in
      let kept = each_component-Keeps (submit_one deployer target_ns) need (λ c w'. refl) w in
      elim (Result-cases sent.0) [ inr (x, e) ↦ rw e kept | inl (results, e) ↦ rw e kept ]

  undeploy_level-Keeps :
      (level : List ComponentSpec) → Keeps (undeploy_level deployer target_ns level)
  unfolding undeploy_level observe_undeploy_level
  undeploy_level-Keeps level w =
      let seen = each_component (observe_one deployer target_ns) level w in
      let kept = each_component-Keeps (observe_one deployer target_ns) level observe_one-Keeps w in
      elim (Result-cases seen.0) [
        | inr (x, e) ↦ rw e kept
        | inl (results, e) ↦
            let judged = judge_level deployer (true, []) level results seen.1 in
            let kept' = judge_level-Keeps (true, []) level results seen.1 ∙ kept in
            elim (Result-cases judged.0) [
              | inr (x, f) ↦ rw (e, f) kept'
              | inl ((done, []), f) ↦ rw (e, f) kept'
              | inl ((done, c ∷ need), f) ↦
                  let sent = submit_undeploy_level deployer target_ns (c ∷ need) judged.1 in
                  let last = submit_undeploy_level-Keeps (c ∷ need) judged.1 ∙ kept' in
                  elim (Result-cases sent.0) [
                    | inr (x, g) ↦ rw (e, f, g) last
                    | inl (tt, g) ↦ rw (e, f, g) last
                  ]
            ]
      ]

  undeploy_levels-Keeps :
      (levels : List (List ComponentSpec)) → Keeps (undeploy_levels deployer target_ns levels)
  unfolding undeploy_levels
  undeploy_levels-Keeps [] w = refl
  undeploy_levels-Keeps (level ∷ levels) w =
      let first = undeploy_level deployer target_ns level w in
      let kept = undeploy_level-Keeps level w in
      elim (Result-cases first.0) [
        | inr (x, e) ↦ rw e kept
        | inl (true, e) ↦ rw e (undeploy_levels-Keeps levels first.1 ∙ kept)
        | inl (false, e) ↦ rw e kept
      ]

  pub undeploy_all-Keeps : (cs : List ComponentSpec) → Keeps (undeploy_all deployer target_ns cs)
  unfolding undeploy_all
  undeploy_all-Keeps cs w = elim (build_levels_total cs) [
    | inl (levels, e) ↦ rw (e, undeploy_all) (undeploy_levels-Keeps (reversed deployer levels) w)
    | inr (inl (errs, e, _)) ↦ rw (e, undeploy_all) (undeploy_levels-Keeps (cs ∷ []) w)
    | inr (inr e) ↦ rw (e, undeploy_all) (undeploy_levels-Keeps (cs ∷ []) w)
  ]

-- `reconcileDelete`'s cleanup with `undeployAll`, and with the release of the shared components
-- as a parameter.
abbrev pub cleanup :
    (deployer : Deployer) (deprovision : String → EnvironmentTemplate → M World (Bool × ℕ))
    → ((ns : String) (t : EnvironmentTemplate) → Keeps (deprovision ns t))
    → Cleanup
cleanup deployer deprovision keeps = record {
  undeploy_all = λ ns t. undeploy_all deployer ns t.components;
  deprovision_shared = deprovision;
  undeploy_all_keeps = λ ns t. undeploy_all-Keeps deployer ns t.components;
  deprovision_shared_keeps = keeps;
}
