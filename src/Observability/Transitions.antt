-- ===== src/Observability/Transitions.antt =====
-- What is counted of the phases that a pass goes through.
use petri_operator.Prelude.{
  ℕ, suc, ◌+◌, Bool, true, false, ◌≡◌, refl, Option, List, [], ◌∷◌, ◌++◌, arith, some, none,
  if◌then◌else◌,
}
use petri_operator.Types.{
  EnvironmentPhase, unset, pending, deploying, ready, failed, terminating, Environment,
}
use petri_operator.Environments.{is_phase}
use petri_operator.Observability.{
  Signal, counted, event, failure, took, record_phase_transition, record_phase_transitions,
  with_phase, entered,
}

-- The failures among the signals, and the times at which an environment comes to be Failed.
abbrev pub failures : List Signal → ℕ
failures [] = 0
failures (failure ∷ signals) = suc (failures signals)
failures (_ ∷ signals) = failures signals

abbrev pub failings : EnvironmentPhase → List EnvironmentPhase → ℕ
failings old [] = 0
failings old (p ∷ passed) =
    let rest = failings p passed in
    if is_phase p failed then (if is_phase old failed then rest else suc rest) else rest

failures-append : (xs ys : List Signal) → failures (xs ++ ys) ≡ failures xs + failures ys
failures-append [] ys = omega arith
failures-append (counted p ∷ xs) ys = failures-append xs ys
failures-append (event a b c d ∷ xs) ys = failures-append xs ys
failures-append (failure ∷ xs) ys = omega (arith, failures-append xs ys)
failures-append (took s n ∷ xs) ys = failures-append xs ys

-- The last phase of a pass.
abbrev pub last_phase : EnvironmentPhase → List EnvironmentPhase → EnvironmentPhase
last_phase p [] = p
last_phase p (q ∷ passed) = last_phase q passed

failures-entered :
    (has_recorder : Bool) (now : ℕ) (p : EnvironmentPhase) (started : Option ℕ)
    (old : EnvironmentPhase)
    → failures (entered has_recorder now p started old) ≡ failings old (p ∷ [])
failures-entered true now unset started old = ground arith
failures-entered false now unset started old = ground arith
failures-entered true now pending started old = ground arith
failures-entered false now pending started old = ground arith
failures-entered true now deploying started old = ground arith
failures-entered false now deploying started old = ground arith
failures-entered true now terminating started old = ground arith
failures-entered false now terminating started old = ground arith
failures-entered true now ready none old = ground arith
failures-entered false now ready none old = ground arith
failures-entered true now ready (some t) old = ground arith
failures-entered false now ready (some t) old = ground arith
failures-entered true now failed started old = ground arith
failures-entered false now failed started old = ground arith

module _ (has_recorder : Bool) (now : ℕ) where
  -- `recordPhaseTransitions` counts a failure for each time that the phases of a pass come to
  -- Failed from another phase, and none besides; and it leaves the environment in the last phase
  -- of the pass, with nothing else changed.
  pub record_phase_transitions_exact :
      (env : Environment) (old : EnvironmentPhase) (passed : List EnvironmentPhase)
      → let done = record_phase_transitions has_recorder now env old passed in
        (failures done.0 ≡ failings old passed)
        × (done.1 ≡ with_phase has_recorder now env (last_phase env.status.phase passed))
  unfolding record_phase_transitions record_phase_transition
  record_phase_transitions_exact env old [] = (refl, refl)
  record_phase_transitions_exact env old (p ∷ passed) =
      let (counts, same) =
        record_phase_transitions_exact (with_phase has_recorder now env p) p passed in
      let first = entered has_recorder now p env.status.deploy_started_at old in
      let rest =
        (record_phase_transitions has_recorder now (with_phase has_recorder now env p) p
          passed).0 in
      (
        ground (
          arith,
          counts,
          failures-append first rest,
          failures-entered has_recorder now p env.status.deploy_started_at old,
        ),
        same,
      )
