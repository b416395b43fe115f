-- ===== src/Environments/Teardown/Samples.antt =====
-- The deletion of an environment whose template is gone.
use petri_operator.Prelude.{ℕ, String, Bool, true, ◌≡◌, refl}
use petri_operator.Prelude.Effects.{ok, M}
use petri_operator.Types.{EnvironmentTemplate}
use petri_operator.Cluster.{Api}
use petri_operator.Jobs.{take}
use petri_operator.Namespaces.{World, target_namespace, is_candidate, owns_namespace}
use petri_operator.Environments.Teardown.{
  Cleanup, body, with_target, some_namespace, tear_down, finish, settle, reconcile_delete,
}
use petri_operator.Environments.Teardown.Completion.{is_complete}
use petri_operator.Fixtures.{empty_api, platform, reconciler, world, own_namespace}

abbrev nothing : String → EnvironmentTemplate → M World (Bool × ℕ)
nothing ns t w = (ok (true, 0), w)

abbrev cleaning : Cleanup
cleaning = record {
  undeploy_all = nothing;
  deprovision_shared = nothing;
  undeploy_all_keeps = λ ns t w. refl;
  deprovision_shared_keeps = λ ns t w. refl;
}

abbrev api : Api
api = record empty_api { namespace_at = λ live name log. ok own_namespace }

completes :
    is_complete api platform reconciler cleaning
      (reconcile_delete api platform reconciler cleaning world).1.env
    ≡ true
unfolding reconcile_delete body with_target some_namespace tear_down finish settle target_namespace
    is_candidate take owns_namespace
completes = refl
