-- ===== src/Shared/Fixtures.antt =====
-- A shared component with its provider, and an API that knows them.
use petri_operator.Prelude.{String, true, false, none, some, [], ◌∷◌, pos, empty, put}
use petri_operator.Prelude.Effects.{ok}
use petri_operator.Types.{ComponentPhase, ComponentSpec, HelmSpec, JobScript, zero_component}
use petri_operator.Types.Shared.{SharedComponent, ProviderSpec, InstanceSecret}
use petri_operator.Cluster.{Api}
use petri_operator.Jobs.{JobPhase}
use petri_operator.Renderer.{Engine}
use petri_operator.Shared.Provision.{Provisioner}
use petri_operator.Fixtures.{empty_api, own_namespace}

abbrev pub shared : SharedComponent
shared = record {
  name = "redis";
  namespace = "default";
  uid = "s1";
  generation = 1;
  deleting = false;
  finalizers = "petri.run/shared-cleanup" ∷ [];
  annotations = [];
  spec = record { provider = "redis"; max_consumers = pos 1; idle_cleanup = "" };
  status = record { conditions = []; consumers = 0; ready = true; phase = ComponentPhase.unset };
}

abbrev pub chart : HelmSpec
chart = record {
  path = "charts/web";
  git = none;
  repo = "";
  chart = "";
  version = "";
  values = ("host", "{{ .Env.Slug }}") ∷ ("mode", "fast") ∷ [];
  values_file = "";
  plain_http = false;
}

abbrev pub script : JobScript
script = record {
  image = "redis";
  script = "redis-cli acl";
  command = [];
  env = [];
  env_from = [];
  volumes = [];
  volume_mounts = [];
}

abbrev pub instance_secret : InstanceSecret
instance_secret = record {
  name = "redis-instance";
  keys =
      (
        "PASSWORD",
        record { value = ""; generate = some (record { length = pos 2; charset = "hex" }) },
      )
      ∷ ("USER", record { value = "admin"; generate = none })
      ∷ [];
}

abbrev pub provider : ProviderSpec
provider = record {
  helm = some chart;
  instance_secret = some instance_secret;
  provision = some script;
  deprovision = some script;
  binding = none;
}

abbrev pub consumer : ComponentSpec
consumer = record zero_component { name = "cache"; shared_component_ref = "redis" }

-- The leases that the server creates differ.
abbrev pub shared_api : Api
shared_api = record empty_api {
  shared_at = λ live namespace name log. ok shared;
  provider_at = λ namespace name log. ok provider;
  namespace_at = λ live name log. ok own_namespace;
  secret_at = λ namespace name log. ok (put "PASSWORD" "0f" empty);
  lease_created = λ lease log.
      ok (record lease {
        uid = elim log [ [] ↦ "first" | _ ∷ _ ↦ "second" ];
        resource_version = "1";
      });
}

-- Templates that render as they stand.
abbrev pub engine : Engine
engine = record { parse = λ s. ok tt; execute = λ s vars. ok s }

-- Every script has succeeded.
abbrev pub done_provisioner : Provisioner
done_provisioner = record {
  submit = λ opts log. (ok tt, log);
  observe = λ opts log. (ok (record { phase = JobPhase.succeeded; reason = "" }), log);
  submit_undo = λ opts log. (ok tt, log);
  observe_undo = λ opts log. (ok (record { phase = JobPhase.succeeded; reason = "" }), log);
}

abbrev pub hex_digest : String → String
hex_digest s = "0123456789abcdef0123456789abcdef0123456789abcdef0123456789abcdef"
