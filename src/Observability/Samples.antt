-- ===== src/Observability/Samples.antt =====
-- An environment that was ready, is deployed again in one pass, and fails.
use petri_operator.Prelude.{true, ◌≡◌, refl, [], ◌∷◌, List}
use petri_operator.Types.{EnvironmentPhase}
use petri_operator.Observability.{record_phase_transitions, with_phase}
use petri_operator.Observability.Transitions.{
  failures, failings, last_phase, record_phase_transitions_exact,
}
use petri_operator.Fixtures.{environment}

abbrev passed : List EnvironmentPhase
passed = EnvironmentPhase.deploying ∷ EnvironmentPhase.failed ∷ []

record_phase_transitions_exact_example :
    (failures (record_phase_transitions true 1000 environment EnvironmentPhase.ready passed).0
      ≡ failings EnvironmentPhase.ready passed)
    × ((record_phase_transitions true 1000 environment EnvironmentPhase.ready passed).1
        ≡ with_phase true 1000 environment (last_phase environment.status.phase passed))
record_phase_transitions_exact_example =
    record_phase_transitions_exact true 1000 environment EnvironmentPhase.ready passed

one_failure : failings EnvironmentPhase.ready passed ≡ 1
one_failure = refl
