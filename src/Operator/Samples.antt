-- ===== src/Operator/Samples.antt =====
-- The deletion of an environment with one shared component.
use petri_operator.Prelude.{String, true, ◌≡◌, ◌⊎◌, [], ◌∷◌}
use petri_operator.Prelude.Effects.{ok}
use petri_operator.Types.{EnvironmentTemplate, Condition, Namespace}
use petri_operator.Cluster.{Api, get_namespace}
use petri_operator.Namespaces.{World, owns_namespace, target_namespace, namespace_bound}
use petri_operator.Environments.Teardown.{reconcile_delete}
use petri_operator.Environments.Teardown.Completion.{is_complete, IsSeparate}
use petri_operator.Operator.Completion.{taking_down, IsEmptied, reconcile_delete-IsEmptied}
use petri_operator.Fixtures.{platform, reconciler, environment, status, done_deployer}
use petri_operator.Shared.Fixtures.{shared_api, engine, consumer, done_provisioner}

abbrev bound : Condition
bound = record {
  type = namespace_bound;
  is_true = true;
  reason = "NamespaceOwned";
  message = "";
  observed_generation = 1;
}

abbrev occupied : World
occupied = record {
  log = [];
  env = record environment { status = record status { conditions = bound ∷ [] } };
}

abbrev template : EnvironmentTemplate
template = record { components = consumer ∷ []; ttl = ""; deploy_timeout = "" }

abbrev api : Api
api = record shared_api { template_at = λ namespace name log. ok template }

separate :
    IsSeparate api platform reconciler
      (taking_down api platform reconciler engine done_deployer done_provisioner)
separate conditions c type e = (rw e)

reconcile_delete-IsEmptied_example :
    let take_down = taking_down api platform reconciler engine done_deployer done_provisioner in
    let w' = (reconcile_delete api platform reconciler take_down occupied).1 in
    (is_complete api platform reconciler take_down w'.env
      ≡ is_complete api platform reconciler take_down occupied.env)
    ⊎ ((name : String) × ((ns : Namespace) × (target_namespace api platform reconciler occupied.env
            ≡ ok name)
          × (api.namespace_at reconciler.has_reader name occupied.log ≡ ok ns)
          × (owns_namespace occupied.env ns ≡ true)
          × IsEmptied api platform reconciler engine done_deployer done_provisioner name
              occupied.env
              (get_namespace reconciler.has_reader name ∷ occupied.log)))
reconcile_delete-IsEmptied_example =
    reconcile_delete-IsEmptied api platform reconciler engine done_deployer done_provisioner
      occupied separate
