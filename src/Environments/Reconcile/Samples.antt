-- ===== src/Environments/Reconcile/Samples.antt =====
-- A reconciliation whose template is missing, and one whose template has no valid timeout.
use petri_operator.Prelude.{ℕ, String, Option, none, List, ◌≡◌, refl, ℤ, pos, ◌==◌, if◌then◌else◌}
use petri_operator.Prelude.Effects.{other, ok, err, M}
use petri_operator.Types.{ComponentSpec}
use petri_operator.Cluster.{Api}
use petri_operator.Platform.{Platform}
use petri_operator.Status.{PhaseMap}
use petri_operator.Jobs.{take}
use petri_operator.Namespaces.{World, is_candidate, target_namespace}
use petri_operator.Deploys.Process.{process_level}
use petri_operator.Environments.Reconcile.{
  reconcile, body, with_target, with_template, with_time, with_deadline, proceed, in_time, settle,
}
use petri_operator.Environments.{resolve_deadline, resolve_deploy_timeout}
use petri_operator.Environments.Frontier.{next_try}
use petri_operator.Environments.Reconcile.Timing.{IsCut, reconcile-IsCut}
use petri_operator.Environments.Reconcile.Rest.{IsAtRest, body-IsAtRest}
use petri_operator.Fixtures.{
  unshared, show_duration, never_ready, empty_api, platform, reconciler, world, template,
  done_deployer,
}

failed :
    (body empty_api platform reconciler
      (pos 900)
      (process_level empty_api platform done_deployer unshared show_duration never_ready)
      world).0
    ≡ ok (0, none)
unfolding body with_target target_namespace is_candidate take
failed = refl

body-IsAtRest_example :
    IsAtRest
      (body empty_api platform reconciler
        (pos 900)
        (process_level empty_api platform done_deployer unshared show_duration never_ready)
        world).1.env.status.phase
body-IsAtRest_example =
    body-IsAtRest empty_api platform reconciler (pos 900) done_deployer unshared show_duration
      never_ready world none failed

-- A clock that stands at 10, before the deadline 60, and a template with a timeout that is not one.
abbrev early_api : Api
early_api = record empty_api {
  time_at = λ log. 10;
  template_at = λ namespace name log. ok (record template { deploy_timeout = "soon" });
}

abbrev strict : Platform
strict = record platform {
  parse_duration = λ s.
      if s == "soon" then err (record { kind = other; text = "not a duration" }) else ok (pos 60);
}

abbrev deploying_process : String → List ComponentSpec → PhaseMap → ℤ → M World ℕ
deploying_process = process_level early_api strict done_deployer unshared show_duration never_ready

-- The next try is at the deadline.
refused : (reconcile early_api strict reconciler (pos 900) deploying_process world).0 ≡ ok 50
unfolding reconcile body with_target with_template with_time resolve_deadline with_deadline proceed
    resolve_deploy_timeout in_time next_try settle target_namespace is_candidate take
refused = refl

reconcile-IsCut_example :
    (requeue : ℕ) × ((deadline : Option ℕ) × ((body early_api strict reconciler
          (pos 900)
          deploying_process
          world).0
        ≡ ok (requeue, deadline))
      × IsCut early_api strict reconciler
          (pos 900)
          deploying_process
          (body early_api strict reconciler (pos 900) deploying_process world).1
          requeue
          deadline
          50)
reconcile-IsCut_example =
    reconcile-IsCut early_api strict reconciler (pos 900) deploying_process world 50 refused
