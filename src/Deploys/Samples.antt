-- ===== src/Deploys/Samples.antt =====
-- A level with one component that did not become ready in time.
use petri_operator.Prelude.{some, ◌≡◌, refl, [], ◌∷◌}
use petri_operator.Prelude.Effects.{ok}
use petri_operator.Types.{ComponentPhase, EnvironmentPhase}
use petri_operator.Status.{
  new_status, PhaseMap, find_component, modify_component, record_runtime_failure,
  component_deploying_since, set_component_phase,
}
use petri_operator.Namespaces.{World}
use petri_operator.Prelude.{pos}
use petri_operator.Deploys.{
  partition_level, partition_loop, check_readiness, check_loop, overdue, time_out,
}
use petri_operator.Deploys.Process.{process_level, process_parts}
use petri_operator.Deploys.Process.Rest.{process_level-zero}
use petri_operator.Fixtures.{
  unshared, show_duration, never_ready, done_deployer, empty_api, platform, component, world,
  environment, status,
}

abbrev phases : PhaseMap
phases name = ComponentPhase.deploying

-- It runs since time 0, it is 1000, and four tries have failed.
abbrev late : World
late = record world {
  env = record environment {
    status = record status {
      components =
          record (new_status "db" ComponentPhase.deploying) {
            deploy_retries = 4;
            deploying_since = some 0;
          }
          ∷ [];
    };
  };
}

given_up :
    (check_readiness empty_api platform show_duration never_ready "ns"
      (component "db" [] ∷ [])
      (pos 500)
      late).0
    ≡ ok 0
unfolding check_readiness check_loop overdue time_out component_deploying_since find_component
    record_runtime_failure modify_component set_component_phase
given_up = refl

abandoned :
    (process_level empty_api platform done_deployer unshared show_duration never_ready "ns"
      (component "db" [] ∷ [])
      phases
      (pos 500)
      late).0
    ≡ ok 0
unfolding process_level process_parts partition_level partition_loop check_readiness check_loop
    overdue time_out component_deploying_since find_component record_runtime_failure
    modify_component set_component_phase
abandoned = refl

process_level-zero_example :
    (process_level empty_api platform done_deployer unshared show_duration never_ready "ns"
      (component "db" [] ∷ [])
      phases
      (pos 500)
      late).1.env.status.phase
    ≡ EnvironmentPhase.failed
process_level-zero_example =
    process_level-zero empty_api platform done_deployer unshared show_duration never_ready "ns"
      (component "db" [] ∷ []) phases (pos 500) late abandoned
