-- ===== src/SharedComponents/Samples.antt =====
-- A shared component that is deployed, and one that is taken down.
use petri_operator.Prelude.{◌≡◌, refl, true, some, [], ◌∷◌, eq_iff, arith}
use petri_operator.Prelude.Effects.{ok}
use petri_operator.Types.Shared.{SharedComponent}
use petri_operator.Cluster.{Api}
use petri_operator.Cluster.Patches.{patches}
use petri_operator.Status.{requeue_after}
use petri_operator.SharedComponents.Reconcile.{SharedWorld, reconcile, body}
use petri_operator.SharedComponents.Reconcile.Ready.{IsReported, reconcile-IsReported}
use petri_operator.SharedComponents.Instance.{ensure_instance_secret, create_shared_namespace}
use petri_operator.SharedComponents.Instance.Stable.{
  IsDistinct, IsEnsured, ensure_instance_secret-IsWritten,
}
use petri_operator.SharedComponents.Teardown.{reconcile_delete}
use petri_operator.SharedComponents.Teardown.Grounds.{Outcome, reconcile_delete-Outcome}
use petri_operator.Shared.Fixtures.{shared, shared_api, instance_secret}
use petri_operator.Fixtures.{platform, done_deployer}

distinct : IsDistinct (instance_secret.keys)
distinct = ((ground (arith, eq_iff "USER" "PASSWORD"), tt), (tt, tt))

ensured : (ensure_instance_secret shared_api (some instance_secret) []).0 ≡ ok tt
unfolding ensure_instance_secret
ensured = refl

ensure_instance_secret-IsWritten_example :
    IsEnsured shared_api instance_secret distinct []
      (ensure_instance_secret shared_api (some instance_secret) []).1
ensure_instance_secret-IsWritten_example =
    ensure_instance_secret-IsWritten shared_api instance_secret distinct [] ensured

abbrev start : SharedWorld
start = record { log = []; sc = shared }

reconciled : (reconcile shared_api platform true "" done_deployer start).0 ≡ ok requeue_after
unfolding reconcile body create_shared_namespace ensure_instance_secret
reconciled = refl

reconcile-IsReported_example :
    (requeue_after ≡ requeue_after)
    × IsReported shared_api platform true "" done_deployer shared []
        (reconcile shared_api platform true "" done_deployer start).1.sc.status.ready
reconcile-IsReported_example =
    reconcile-IsReported shared_api platform true "" done_deployer start requeue_after reconciled

-- The finalizer goes, since there are no consumers and the uninstall has succeeded.
abbrev leaving : SharedComponent
leaving = record shared { deleting = true }

abbrev leaving_api : Api
leaving_api = record shared_api { shared_at = λ live namespace name log. ok leaving }

unprotects :
    patches (reconcile_delete leaving_api platform true done_deployer leaving []).1
    ≡ record leaving { finalizers = [] } ∷ []
unfolding reconcile_delete
unprotects = refl

reconcile_delete-Outcome_example :
    Outcome leaving_api platform true done_deployer leaving []
      (reconcile_delete leaving_api platform true done_deployer leaving []).1
reconcile_delete-Outcome_example =
    reconcile_delete-Outcome leaving_api platform true done_deployer
      (λ opts log. refl, λ opts log. refl) leaving []
