-- ===== src/Shared/Samples.antt =====
-- An environment that consumes a shared component.
use petri_operator.Prelude.{
  ◌≡◌, refl, true, some, none, List, [], ◌∷◌, inl, inr, String, put, empty, if◌then◌else◌, ◌==◌,
}
use petri_operator.Prelude.Effects.{ok}
use petri_operator.Types.{ComponentSpec, EnvironmentTemplate, EnvValue, zero_component}
use petri_operator.Renderer.{render, render_map}
use petri_operator.Types.Shared.{validate}
use petri_operator.Deploys.Process.{Bindings}
use petri_operator.Shared.Values.{render_consumer_values}
use petri_operator.Shared.Values.Overrides.{IsRendered, render_consumer_values-IsRendered}
use petri_operator.Shared.Deprovision.{deprovision_shared}
use petri_operator.Shared.Deprovision.Cleared.{answered}
use petri_operator.Shared.Deprovision.Settled.{AreSettled, deprovision_shared_done}
use petri_operator.Cluster.{Log, create_lease}
use petri_operator.Cluster
use petri_operator.Shared.Lease.{new_lease}
use petri_operator.Shared.Lease.Held.{IsUnreleased, IsCreated}
use petri_operator.Shared.Consumers.{register_consumer}
use petri_operator.Shared.Consumers.Admission.{
  IsAdmitted, register_consumer-IsAdmitted, register_consumer-IsLeaseFree,
}
use petri_operator.Shared.Fixtures.{
  shared, shared_api, chart, engine, done_provisioner, hex_digest, consumer,
}
use petri_operator.Fixtures.{environment, world}

registered :
    (register_consumer shared_api true environment "petri-env-01234567" "default" "redis" []).0
    ≡ ok shared
unfolding register_consumer
registered = refl

register_consumer-IsAdmitted_example :
    (l : Cluster.Lease) × ((start : Log) × IsCreated shared_api
        (new_lease "redis" "default" "demo" (shared_api.time_at []))
        l
        start
      × IsAdmitted shared_api true "petri-env-01234567" "default" "redis" start shared)
register_consumer-IsAdmitted_example =
    register_consumer-IsAdmitted shared_api true "petri-env-01234567" "default" "redis" environment
      [] shared registered

-- A lease of another component, which is unreleased from the start.
abbrev asked_lease : Cluster.Lease
asked_lease = new_lease "mysql" "default" "demo" 1000

abbrev held_lease : Cluster.Lease
held_lease = record asked_lease { uid = "first"; resource_version = "1" }

abbrev held_log : Log
held_log = create_lease asked_lease ∷ []

-- It is still unreleased after the registration, which has asked for the deletion of its own.
lasting :
    IsUnreleased shared_api held_lease
      (register_consumer shared_api true environment "petri-env-01234567" "default" "redis"
        held_log).1
unfolding register_consumer
lasting = (inr (inl refl), λ same. cc)

register_consumer-IsLeaseFree_example : IsUnreleased shared_api held_lease held_log
register_consumer-IsLeaseFree_example =
    register_consumer-IsLeaseFree shared_api true "petri-env-01234567" "default" "redis" environment
      held_log held_lease lasting

-- A release with a variable from the shared component.
abbrev variables : List (String × EnvValue)
variables =
    (
      "PASSWORD",
      record {
        value = "";
        secret_key_ref = some (record { component = "cache"; key = "PASSWORD" });
      },
    )
    ∷ []

abbrev web : ComponentSpec
web = record zero_component { name = "web"; helm = some chart; env = variables }

abbrev bindings : Bindings
bindings name = if name == "cache" then some (put "PASSWORD" "0f" empty) else none

abbrev rendered : ComponentSpec
rendered = record web {
  helm = some (record chart {
    values =
        ("host", "{{ .Env.Slug }}")
        ∷ ("mode", "fast")
        ∷ ("extraEnvVarsSecret", "demo-cache-binding")
        ∷ [];
  });
}

renders : render_consumer_values engine environment web bindings ≡ ok rendered
unfolding render_consumer_values render_map render
renders = refl

render_consumer_values-IsRendered_example :
    IsRendered engine environment web bindings chart rendered
render_consumer_values-IsRendered_example =
    render_consumer_values-IsRendered engine environment web bindings chart rendered refl renders

abbrev deprovisioned : EnvironmentTemplate
deprovisioned = record { components = consumer ∷ []; ttl = ""; deploy_timeout = "" }

-- The consumer is released.
released :
    (deprovision_shared shared_api true hex_digest engine done_provisioner "petri-env-01234567"
      deprovisioned world).0
    ≡ ok (true, 0)
unfolding deprovision_shared validate render
released = refl

deprovision_shared_done_example :
    AreSettled shared_api true hex_digest engine done_provisioner "petri-env-01234567"
      (consumer ∷ [])
      world
      (deprovision_shared shared_api true hex_digest engine done_provisioner "petri-env-01234567"
        deprovisioned world).1
deprovision_shared_done_example =
    deprovision_shared_done shared_api true hex_digest engine done_provisioner "petri-env-01234567"
      deprovisioned world
      (deprovision_shared shared_api true hex_digest engine done_provisioner "petri-env-01234567"
        deprovisioned world).1
      0
      (answered
        (deprovision_shared shared_api true hex_digest engine done_provisioner "petri-env-01234567"
          deprovisioned world)
        (true, 0) released)
