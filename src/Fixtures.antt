-- ===== src/Fixtures.antt =====
-- Concrete inputs: an API, a platform and objects, on which the theorems are tried out. The digest
-- and the conditions are stand-ins that are simple to compute.
use petri_operator.Prelude.{
  String, Bool, true, false, none, List, [], ◌∷◌, if◌then◌else◌, ◌==◌, pos, ℤ, Option,
}
use petri_operator.Prelude.Effects.{not_found, Result, ok, err, M}
use petri_operator.Types.{
  ComponentPhase, ReadinessSpec, ComponentSpec, zero_component, Condition, Environment,
  EnvironmentStatus, EnvironmentTemplate, Namespace, unset,
}
use petri_operator.Cluster.{Api, Log}
use petri_operator.Platform.{Platform}
use petri_operator.Namespaces.{World, Reconciler}
use petri_operator.Jobs.{JobPhase}
use petri_operator.Deploys.{Deployer}
use petri_operator.Deploys.Process.{SharedDeploys}

abbrev pub missing : {A : Type 0} → Result A
missing = err (record { kind = not_found; text = "not found" })

-- Nothing exists, and every write succeeds.
abbrev pub empty_api : Api
empty_api = record {
  job_at = λ live namespace name log. missing;
  job_created = λ job log. ok tt;
  job_deleted = λ namespace name uid log. ok tt;
  pods_of = λ live namespace job_name log. ok [];
  namespace_at = λ live name log. missing;
  namespace_created = λ ns log. ok tt;
  namespace_deleted = λ name uid version log. ok tt;
  service_account_created = λ namespace name log. ok tt;
  role_binding_at = λ namespace name log. missing;
  role_binding_created = λ namespace name log. ok tt;
  environment_at = λ namespace name log. missing;
  finalizers_patched = λ namespace name finalizers log. ok tt;
  status_patched = λ locked env log. ok tt;
  environment_deleted = λ namespace name log. ok tt;
  template_at = λ namespace name log. missing;
  time_at = λ log. 1000;
  deployments_of = λ namespace release log. ok [];
  stateful_sets_of = λ namespace release log. ok [];
  services_of = λ namespace release log. ok [];
  http_status = λ url log. ok 200;
  lease_at = λ live namespace name log. missing;
  lease_created = λ lease log. ok (record lease { uid = "l1"; resource_version = "1" });
  lease_deleted = λ namespace name uid version log. ok tt;
  shared_at = λ live namespace name log. missing;
  provider_at = λ namespace name log. missing;
  labelled_of = λ live label log. ok [];
  labels_patched = λ ns log. ok tt;
  secret_at = λ namespace name log. missing;
  secret_created = λ namespace name entries log. ok tt;
  secret_updated = λ namespace name entries log. ok tt;
  secret_deleted = λ namespace name log. ok tt;
  shared_patched = λ sc log. ok tt;
  shared_status_patched = λ sc log. ok tt;
  random_at = λ bound log. ok 0;
  context_at = λ log. ok tt;
}

abbrev has_text : List String → String → Bool
has_text [] s = false
has_text (t ∷ ts) s = if t == s then true else has_text ts s

abbrev without : List String → String → List String
without [] s = []
without (t ∷ ts) s = if t == s then without ts s else t ∷ without ts s

abbrev is_true : List Condition → String → Bool
is_true [] type = false
is_true (c ∷ cs) type = if c.type == type then c.is_true else is_true cs type

abbrev pub digest : String → String
digest s = "0123456789abcdef0123456789abcdef0123456789abcdef0123456789abcdef"

abbrev pub platform : Platform
platform = record {
  hex_digest = digest;
  parse_duration = λ s. ok (pos 60);
  set_condition = λ cs c. c ∷ cs;
  is_condition_true = is_true;
  contains_finalizer = has_text;
  add_finalizer = λ fs s. s ∷ fs;
  remove_finalizer = without;
  deep_equal = λ a b. false;
  shared_equal = λ a b. false;
  parse_int32 = λ s. if s == "4" then pos 4 else pos 0;
}

abbrev pub component : String → List String → ComponentSpec
component name depends_on = record zero_component { name = name; depends_on = depends_on }

-- api needs db and cache.
abbrev pub components : List ComponentSpec
components =
    component "api" ("db" ∷ "cache" ∷ []) ∷ component "db" [] ∷ component "cache" ("db" ∷ []) ∷ []

abbrev pub levels : List (List ComponentSpec)
levels =
    (component "db" [] ∷ [])
    ∷ (component "cache" ("db" ∷ []) ∷ [])
    ∷ (component "api" ("db" ∷ "cache" ∷ []) ∷ [])
    ∷ []

abbrev pub status : EnvironmentStatus
status = record {
  target_namespace = "petri-env-01234567";
  conditions = [];
  phase = unset;
  deploy_started_at = none;
  url = "";
  expires_at = none;
  components = [];
  observed_generation = 1;
}

abbrev pub environment : Environment
environment = record {
  name = "demo";
  namespace = "default";
  uid = "u1";
  generation = 1;
  created = 0;
  deleting = false;
  finalizers = "petri.run/cleanup" ∷ [];
  spec = record {
    template = "web";
    source = record { repo = ""; branch = ""; sha = "" };
    values = [];
    env = [];
    ttl = "1m";
  };
  status = status;
}

abbrev pub template : EnvironmentTemplate
template = record { components = components; ttl = ""; deploy_timeout = "" }

abbrev pub world : World
world = record { log = []; env = environment }

abbrev pub reconciler : Reconciler
reconciler = record { has_reader = true; deployer_service_account = "" }

abbrev pub own_namespace : Namespace
own_namespace = record {
  name = "petri-env-01234567";
  uid = "n1";
  resource_version = "7";
  labels = ("petri.run/managed", "true") ∷ ("petri.run/environment-uid", "u1") ∷ [];
  deleting = false;
}

-- Every undeploy has succeeded.
abbrev pub done_deployer : Deployer
done_deployer = record {
  submit = λ opts log. (ok tt, log);
  observe = λ opts log. (ok (record { phase = JobPhase.succeeded; reason = "" }), log);
  submit_undeploy = λ opts log. (ok tt, log);
  observe_undeploy = λ opts log. (ok (record { phase = JobPhase.succeeded; reason = "" }), log);
}

-- A checker that is never satisfied.
abbrev pub show_duration : ℤ → String
show_duration n = "long"

abbrev pub never_ready : String → String → Option ReadinessSpec → M Log (Bool × String)
never_ready namespace release readiness log = (ok (false, ""), log)

-- No shared components.
abbrev pub unshared : SharedDeploys
unshared = record {
  binding_components = λ env ns t log. (ok (λ c. none), log);
  render_values = λ env c bindings. ok c;
  submit_shared = λ env ns c log. (ok ComponentPhase.ready, log);
  observe_shared = λ c w. (ok true, w);
}
