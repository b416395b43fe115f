-- ===== src/Environments/Samples.antt =====
-- An environment that is bound, deleted, and past its deadline.
use petri_operator.Prelude.{ℕ, String, Bool, true, ◌≡◌, ◌⊎◌, refl, List, [], ◌∷◌, ℤ, pos}
use petri_operator.Prelude.Effects.{ok, M}
use petri_operator.Types.{ComponentSpec, EnvironmentTemplate}
use petri_operator.Cluster.{Api, now}
use petri_operator.Status.{PhaseMap}
use petri_operator.Namespaces.{World}
use petri_operator.Environments.Teardown.{Cleanup, reconcile_delete}
use petri_operator.Environments.Teardown.Finalizer.{IsKept, IsReleasable, reconcile_delete-IsKept}
use petri_operator.Environments.Reconcile.{reconcile}
use petri_operator.Environments.Reconcile.Binding.{reconcile_free}
use petri_operator.Undeploys.Keeps.{cleanup}
use petri_operator.Fixtures.{
  empty_api, platform, reconciler, world, environment, own_namespace, template, done_deployer,
}

-- No shared components.
abbrev no_shared : String → EnvironmentTemplate → M World (Bool × ℕ)
no_shared ns t w = (ok (true, 0), w)

abbrev cleaning : Cleanup
cleaning = cleanup done_deployer no_shared (λ ns t w. refl)

abbrev owned_api : Api
owned_api = record empty_api {
  namespace_at = λ live name log. ok own_namespace;
  template_at = λ namespace name log. ok template;
  environment_at = λ namespace name log. ok (record environment { finalizers = [] });
}

reconcile_delete-IsKept_example :
    IsKept owned_api platform reconciler cleaning world
      (reconcile_delete owned_api platform reconciler cleaning world)
    ⊎ IsReleasable owned_api platform reconciler cleaning environment []
reconcile_delete-IsKept_example =
    reconcile_delete-IsKept owned_api platform reconciler cleaning world

abbrev idle : String → List ComponentSpec → PhaseMap → ℤ → M World ℕ
idle ns level phases timeout w = (ok 10, w)

abbrev busy : String → List ComponentSpec → PhaseMap → ℤ → M World ℕ
busy ns level phases timeout w = (ok 20, record w { log = now ∷ w.log })

reconcile_free_example :
    reconcile owned_api platform reconciler (pos 900) idle world
    ≡ reconcile owned_api platform reconciler (pos 900) busy world
reconcile_free_example = reconcile_free owned_api platform reconciler (pos 900) idle busy world refl
