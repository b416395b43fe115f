-- ===== src/Deploys/Readiness.antt =====
-- The readiness checks of a level never stop silently.
use petri_operator.Prelude.{
  ℤ, String, Bool, true, false, ◌&&◌, ◌≡◌, refl, Option, none, some, List, [], ◌∷◌, arith, inl, inr,
  Bool-cases,
}
use petri_operator.Prelude.Effects.{Result, ok, M, Result-cases}
use petri_operator.Types.{ComponentSpec, ReadinessSpec, EnvironmentPhase}
use petri_operator.Cluster.{Log, Api}
use petri_operator.Platform.{Platform}
use petri_operator.Status.{record_runtime_failure}
use petri_operator.Status.Backoff.{deploy_backoff_bounds}
use petri_operator.Namespaces.{World}
use Prim.Native.String.{◌++◌ as join}
use petri_operator.Deploys.{check_loop, check_readiness, time_out, overdue, probe}

module _ (api : Api) (p : Platform) (show_duration : ℤ → String)
    (is_ready : String → String → Option ReadinessSpec → M Log (Bool × String)) where
  abbrev HasFailed : World → Type 0
  HasFailed w = w.env.status.phase ≡ EnvironmentPhase.failed

  -- A result that means the end of the loop comes with a failed environment.
  abbrev EndsFailed : {A : Type 0} → A → Result A × World → Type 0
  EndsFailed a (r, w) = r ≡ ok a → HasFailed w

  time_out_lem :
      (c : ComponentSpec) (timeout : ℤ) (w : World)
      → EndsFailed true (time_out api p show_duration is_ready c timeout w)
  unfolding time_out
  time_out_lem c timeout w =
      let reason = join "readiness timeout after " (show_duration timeout) in
      let (_, exhausted) = record_runtime_failure c.name reason w.env.status.components in
      elim (Bool-cases exhausted) [
        | inl last ↦ rw last (λ h. refl)
        | inr more ↦ rw more (λ h. absurd (ground (arith, h)))
      ]

  check_loop-none :
      (target_ns : String) (timeout : ℤ) (all_done retrying : Bool) (cs : List ComponentSpec)
      (w : World)
      → EndsFailed none
          (check_loop api p show_duration is_ready target_ns timeout all_done retrying cs w)
  unfolding check_loop
  check_loop-none target_ns timeout all_done retrying [] w = λ h. absurd (ground (arith, h))
  check_loop-none target_ns timeout all_done retrying (c ∷ cs) w =
      let first = overdue api p show_duration is_ready c timeout w in
      let missed = time_out api p show_duration is_ready c timeout first.1 in
      let checked = probe api p show_duration is_ready target_ns c first.1 in
      elim (Result-cases first.0) [
        | inr (x, e) ↦ rw e (λ h. absurd (ground (arith, h)))
        | inl (true, e) ↦ elim (Result-cases missed.0) [
          | inr (x, f) ↦ rw (e, f) (λ h. absurd (ground (arith, h)))
          | inl (true, f) ↦ rw (e, f) (λ h. time_out_lem c timeout first.1 f)
          | inl (false, f) ↦ rw (e, f) (check_loop-none target_ns timeout all_done true cs missed.1)
        ]
        | inl (false, e) ↦ elim (Result-cases checked.0) [
          | inr (x, f) ↦ rw (e, f) (λ h. absurd (ground (arith, h)))
          | inl (b, f) ↦
              rw (e, f) (check_loop-none target_ns timeout (all_done && b) retrying cs checked.1)
        ]
      ]

  -- If `checkReadiness` succeeds without asking for another try, the environment has failed: no
  -- level that is still waiting for its components is forgotten.
  pub check_readiness_zero :
      (target_ns : String) (cs : List ComponentSpec) (timeout : ℤ) (w : World)
      → (check_readiness api p show_duration is_ready target_ns cs timeout w).0 ≡ ok 0
      → (check_readiness api p show_duration is_ready target_ns cs timeout w).1.env.status.phase
        ≡ EnvironmentPhase.failed
  unfolding check_readiness
  check_readiness_zero target_ns cs timeout w =
      let loop = check_loop api p show_duration is_ready target_ns timeout true false cs w in
      let statuses = loop.1.env.status.components in
      elim (Result-cases loop.0) [
        | inr (x, e) ↦ rw e (λ h. absurd (ground (arith, h)))
        | inl (none, e) ↦ rw e (λ h. check_loop-none target_ns timeout true false cs w e)
        | inl (some (all_done, true), e) ↦
            rw e (λ h. absurd (ground (arith, h, deploy_backoff_bounds statuses cs)))
        | inl (some (true, false), e) ↦ rw e (λ h. absurd (ground (arith, h)))
        | inl (some (false, false), e) ↦ rw e (λ h. absurd (ground (arith, h)))
      ]
