-- ===== src/Undeploys/Settled.antt =====
-- A finished undeploy meets its specification.
use petri_operator.Prelude.{
  ℕ, Bool, true, false, String, ◌≡◌, refl, List, [], ◌∷◌, ◌++◌, arith, inl, inr, All, All-split,
  Bool-cases, ◌==◌, eq_iff,
}
use Prim.Native.String.{◌++◌ as join}
use petri_operator.Prelude.Effects.{Result, ok, err, Result-cases}
use petri_operator.Types.{ComponentSpec}
use petri_operator.Jobs.{JobState, JobPhase-cases}
use petri_operator.Graph.Results.{build_levels-IsLevelling, build_levels_total}
use petri_operator.Graph.Cover.{All-of_levels}
use petri_operator.Status.{find_component, record_runtime_failure}
use petri_operator.Namespaces.{World}
use petri_operator.Deploys.{Deployer, each_component}
use petri_operator.Undeploys.{
  is_forced, observe_one, judge_level, observe_undeploy_level, submit_undeploy_level,
  undeploy_level, undeploy_levels, reversed, undeploy_all,
}
use petri_operator.Undeploys.Down.{
  IsIn, IsIn-All, is_forced-IsExhausted, IsObserved, AreObserved, HasEnded, IsLevelDown, AreDown,
  IsDown,
}

module _ (deployer : Deployer) (target_ns : String) where
  observe_one-IsObserved :
      (c : ComponentSpec) (w : World)
      → let seen = observe_one deployer target_ns c w in
        IsObserved deployer target_ns c w seen.0 seen.1
  unfolding observe_one
  observe_one-IsObserved c w = elim (Bool-cases (c.shared_component_ref == "")) [
    | inr shared ↦
        rw shared
          (inl (λ e. ground (arith, shared, e, eq_iff c.shared_component_ref ""), refl, refl))
    | inl own ↦ elim (Bool-cases (is_forced (find_component c.name w.env.status.components))) [
      | inl forced ↦
          rw (own, forced)
            (inr (inl (is_forced-IsExhausted c w.env.status.components forced, refl, refl)))
      | inr more ↦ rw (own, more) (inr (inr (refl, refl)))
    ]
  ]

  each_component_lem :
      (cs : List ComponentSpec) (w : World)
      → (answers : List (Result JobState)) × ((each_component
            (observe_one deployer target_ns)
            cs
            w).0
          ≡ ok answers)
        × AreObserved deployer target_ns cs w answers
            (each_component (observe_one deployer target_ns) cs w).1
  unfolding each_component
  each_component_lem [] w = ([], refl, refl)
  each_component_lem (c ∷ cs) w =
      let first = observe_one deployer target_ns c w in
      let (rest, e, all) = each_component_lem cs first.1 in
      (first.0 ∷ rest, rw e refl, rw e (first.1, observe_one-IsObserved c w, all))

  abbrev SameLength : List ComponentSpec → List (Result JobState) → Type 0
  SameLength [] [] = Unit
  SameLength [] (r ∷ rs) = ⊥
  SameLength (c ∷ cs) [] = ⊥
  SameLength (c ∷ cs) (r ∷ rs) = SameLength cs rs

  AreObserved-SameLength :
      (cs : List ComponentSpec) (rs : List (Result JobState)) (w w' : World)
      → AreObserved deployer target_ns cs w rs w'
      → SameLength cs rs
  AreObserved-SameLength [] [] w w' h = tt
  AreObserved-SameLength [] (r ∷ rs) w w' h = absurd h
  AreObserved-SameLength (c ∷ cs) [] w w' h = absurd h
  AreObserved-SameLength (c ∷ cs) (r ∷ rs) w w' (u, one, rest) =
      AreObserved-SameLength cs rs u w' rest

  -- Nothing is to be submitted for a level that is done.
  judge_level_lem :
      (done : Bool) (need level : List ComponentSpec) (answers : List (Result JobState)) (w : World)
      → SameLength level answers
      → (need' : List ComponentSpec)
      → (judge_level deployer (done, need) level answers w).0 ≡ ok (true, need')
      → (done ≡ true)
        × (need' ≡ need)
        × HasEnded deployer target_ns level answers w
            (judge_level deployer (done, need) level answers w).1
  unfolding judge_level
  judge_level_lem done need [] [] w same need' h = (ground (arith, h), ground (arith, h), refl)
  judge_level_lem done need [] (r ∷ rs) w same need' h = absurd same
  judge_level_lem done need (c ∷ level) [] w same need' h = absurd same
  judge_level_lem done need (c ∷ level) (err e ∷ rs) w same need' h = absurd (ground (arith, h))
  judge_level_lem done need (c ∷ level) (ok st ∷ rs) w same need' h =
      let failure =
        record_runtime_failure c.name (join "undeploy: " st.reason) w.env.status.components in
      elim (JobPhase-cases st.phase) [
        | inl e ↦
            let (t, n, all) = judge_level_lem done need level rs w same need' (rw e at h) in
            (t, n, rw e (inl (refl, all)))
        | inr (inl e) ↦
            let (t, _, _) = judge_level_lem false need level rs w same need' (rw e at h) in
            absurd (ground (arith, t))
        | inr (inr (inl e)) ↦
            let (t, _, _) =
              judge_level_lem false (need ++ c ∷ []) level rs w same need' (rw e at h) in
            absurd (ground (arith, t))
        | inr (inr (inr e)) ↦ elim (Bool-cases failure.1) [
          | inl last ↦
              let (t, n, all) =
                judge_level_lem done need level rs _ same need' (rw (e, last) at h) in
              (t, n, rw (e, last) (inr (refl, refl, all)))
          | inr more ↦
              let (t, _, _) =
                judge_level_lem false (need ++ c ∷ []) level rs _ same need' (rw (e, more) at h) in
              absurd (ground (arith, t))
        ]
      ]

  undeploy_level_done :
      (level : List ComponentSpec) (w : World)
      → (undeploy_level deployer target_ns level w).0 ≡ ok true
      → IsLevelDown deployer target_ns level w (undeploy_level deployer target_ns level w).1
  unfolding undeploy_level observe_undeploy_level
  undeploy_level_done level w h =
      let (answers, e, seen) = each_component_lem level w in
      let after = (each_component (observe_one deployer target_ns) level w).1 in
      let verdict = judge_level deployer (true, []) level answers after in
      let same = AreObserved-SameLength level answers w after seen in
      elim (Result-cases verdict.0) [
        | inr (x, f) ↦ absurd (ground (arith, h, e, f))
        | inl ((true, []), f) ↦
            rw (e, f)
              (answers, (after, seen, (judge_level_lem true [] level answers after same [] f).2))
        | inl ((true, n ∷ ns), f) ↦
            let (_, none_left, _) = judge_level_lem true [] level answers after same (n ∷ ns) f in
            absurd (ground (arith, none_left))
        | inl ((false, []), f) ↦ absurd (ground (arith, rw (e, f) at h))
        | inl ((false, n ∷ ns), f) ↦
            elim (Result-cases (submit_undeploy_level deployer target_ns (n ∷ ns) verdict.1).0) [
              | inr (x, g) ↦ absurd (ground (arith, rw (e, f, g) at h))
              | inl (tt, g) ↦ absurd (ground (arith, rw (e, f, g) at h))
            ]
      ]

  undeploy_levels_done :
      (levels : List (List ComponentSpec)) (t : ℕ) (w : World)
      → (undeploy_levels deployer target_ns levels w).0 ≡ ok (true, t)
      → AreDown deployer target_ns levels w (undeploy_levels deployer target_ns levels w).1
  unfolding undeploy_levels
  undeploy_levels_done [] t w h = refl
  undeploy_levels_done (level ∷ levels) t w h =
      let first = undeploy_level deployer target_ns level w in
      elim (Result-cases first.0) [
        | inr (x, e) ↦ absurd (ground (arith, rw e at h))
        | inl (false, e) ↦ absurd (ground (arith, rw e at h))
        | inl (true, e) ↦ rw e (
          first.1,
          undeploy_level_done level w e,
          undeploy_levels_done levels t first.1 (rw e at h),
        )
      ]

  reversed-All :
      (P : List ComponentSpec → Type 0) (levels : List (List ComponentSpec))
      → All P (reversed deployer levels)
      → All P levels
  reversed-All P [] h = tt
  reversed-All P (l ∷ levels) h =
      let (before, last) = All-split P (reversed deployer levels) (l ∷ []) h in
      (last.0, reversed-All P levels before)

  -- If `undeployAll` says that it is done, it has gone through a list of levels that has every
  -- component of the template, also when no order of them exists. Of each component in turn it has
  -- found that it is a shared one, that its status says that an earlier undeploy has used up its
  -- retries, or what the deployer answers about its own options; and each answer was a success, or
  -- a failure whose record in the status uses up the retries. It has made no other call and no
  -- other change.
  pub undeploy_all_done :
      (cs : List ComponentSpec) (t : ℕ) (w : World)
      → (undeploy_all deployer target_ns cs w).0 ≡ ok (true, t)
      → IsDown deployer target_ns cs w (undeploy_all deployer target_ns cs w).1
  unfolding undeploy_all
  undeploy_all_done cs t w h =
      let single : All (IsIn (cs ∷ [])) cs = (IsIn-All (cs ∷ [])).0 in
      let down = λ (k : (undeploy_levels deployer target_ns (cs ∷ []) w).0 ≡ ok (true, t)).
        undeploy_levels_done (cs ∷ []) t w k in
      elim (build_levels_total cs) [
        | inl (levels, e) ↦
            let (valid, levelling) = build_levels-IsLevelling cs levels e in
            let order = reversed deployer levels in
            let inside =
              All-of_levels (IsIn order) cs levels valid levelling
                (reversed-All (All (IsIn order)) levels (IsIn-All order)) in
            rw (e, undeploy_all)
              (order, inside, undeploy_levels_done order t w (rw (e, undeploy_all) at h))
        | inr (inl (errs, e, _)) ↦
            rw (e, undeploy_all) (cs ∷ [], single, down (rw (e, undeploy_all) at h))
        | inr (inr e) ↦ rw (e, undeploy_all) (cs ∷ [], single, down (rw (e, undeploy_all) at h))
      ]
