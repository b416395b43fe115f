-- ===== src/Cluster.antt =====
-- The Kubernetes API as the code sees it: the objects with the fields that the code reads or
-- writes, and the server as a parameter. The server answers a call by the calls made before it,
-- so one `Api` is one course of events, other clients and controllers included, and a theorem
-- over all of them holds for every interleaving.
pub mod Objects
pub mod Patches
use petri_operator.Prelude.{ℕ, String, Bool, Option, List, [], ◌∷◌, ◌==◌, if◌then◌else◌, Map}
use petri_operator.Types.{EnvVar, Volume, VolumeMount, Namespace, Environment, EnvironmentTemplate}
use petri_operator.Types.Shared.{ProviderSpec, SharedComponent}
use petri_operator.Prelude.Effects.{Result, ok, M}

-- A map of texts that is built in place and read by key; a missing key reads as "".
abbrev pub Labels : Type 0
Labels = List (String × String)

abbrev pub label : String → Labels → String
label k [] = ""
label k ((j, v) ∷ m) = if j == k then v else label k m

-- m[k] = v
abbrev pub set_label : String → String → Labels → Labels
set_label k v [] = (k, v) ∷ []
set_label k v ((j, w) ∷ m) = if j == k then (j, v) ∷ m else (j, w) ∷ set_label k v m

pub data JobConditionType : Type 0 where
  job_complete job_failed other_condition : JobConditionType

-- `status` is true for ConditionTrue.
pub record JobCondition : Type 0 where
  pub type : JobConditionType
  pub status : Bool

pub record Container : Type 0 where
  pub name : String
  pub image : String
  pub pull_if_not_present : Bool
  pub command : List String
  pub env : List EnvVar
  pub env_from : List String
  pub volume_mounts : List VolumeMount

pub record Job : Type 0 where
  pub namespace : String
  pub name : String
  pub uid : String
  pub labels : Labels
  pub annotations : Labels
  pub deleting : Bool
  pub conditions : List JobCondition
  pub backoff_limit : ℕ
  pub active_deadline_seconds : Option ℕ
  pub pod_labels : Labels
  pub restart_never : Bool
  pub service_account : String
  pub containers : List Container
  pub volumes : List Volume

-- The termination message of each container status; none if it has not terminated.
pub record Pod : Type 0 where
  pub terminated : List (Option String)

-- A Deployment or a StatefulSet; `ready` is its number of available or of ready replicas. The API
-- server admits no negative numbers.
pub record Workload : Type 0 where
  pub name : String
  pub replicas : Option ℕ
  pub ready : ℕ

pub record Service : Type 0 where
  pub name : String
  pub ports : List ℕ

-- `renew_time` is in nanoseconds, the duration in seconds.
pub record Lease : Type 0 where
  pub namespace : String
  pub name : String
  pub uid : String
  pub resource_version : String
  pub holder : String
  pub duration_seconds : Option ℕ
  pub renew_time : Option ℕ

-- Reads go to the cache or, where `live`, to the server.
pub data Call : Type 0 where
  get_job : (live : Bool) (namespace name : String) → Call
  create_job : Job → Call
  delete_job : (namespace name uid : String) → Call
  list_pods : (live : Bool) (namespace job_name : String) → Call
  get_namespace : (live : Bool) (name : String) → Call
  create_namespace : Namespace → Call
  delete_namespace : (name uid resource_version : String) → Call
  create_service_account : (namespace name : String) → Call
  get_role_binding : (namespace name : String) → Call
  create_role_binding : (namespace name : String) → Call
  get_environment : (namespace name : String) → Call
  patch_finalizers : (namespace name : String) (finalizers : List String) → Call
  patch_status : (locked : Bool) → Environment → Call
  delete_environment : (namespace name : String) → Call
  get_template : (namespace name : String) → Call
  now : Call
  list_deployments list_stateful_sets list_services : (namespace release : String) → Call
  http_get : (url : String) → Call
  get_lease : (live : Bool) (namespace name : String) → Call
  create_lease : Lease → Call
  delete_lease : (namespace name uid resource_version : String) → Call
  get_shared : (live : Bool) (namespace name : String) → Call
  get_provider : (namespace name : String) → Call
  list_labelled : (live : Bool) (label : String) → Call
  patch_labels : Namespace → Call
  get_secret : (namespace name : String) → Call
  create_secret update_secret : (namespace name : String) (entries : Map String) → Call
  delete_secret : (namespace name : String) → Call
  patch_shared patch_shared_status : SharedComponent → Call
  random : (bound : ℕ) → Call

-- The calls made, the latest first.
abbrev pub Log : Type 0
Log = List Call

pub record Api : Type 0 where
  pub job_at : (live : Bool) (namespace name : String) → Log → Result Job
  pub job_created : Job → Log → Result (Unit {0})
  pub job_deleted : (namespace name uid : String) → Log → Result (Unit {0})
  pub pods_of : (live : Bool) (namespace job_name : String) → Log → Result (List Pod)
  pub namespace_at : (live : Bool) (name : String) → Log → Result Namespace
  pub namespace_created : Namespace → Log → Result (Unit {0})
  pub namespace_deleted : (name uid resource_version : String) → Log → Result (Unit {0})
  pub service_account_created : (namespace name : String) → Log → Result (Unit {0})
  pub role_binding_at : (namespace name : String) → Log → Result (Unit {0})
  pub role_binding_created : (namespace name : String) → Log → Result (Unit {0})
  pub environment_at : (namespace name : String) → Log → Result Environment
  pub finalizers_patched :
      (namespace name : String) (finalizers : List String) → Log → Result (Unit {0})
  pub status_patched : (locked : Bool) → Environment → Log → Result (Unit {0})
  pub environment_deleted : (namespace name : String) → Log → Result (Unit {0})
  pub template_at : (namespace name : String) → Log → Result EnvironmentTemplate
  pub time_at : Log → ℕ
  pub deployments_of : (namespace release : String) → Log → Result (List Workload)
  pub stateful_sets_of : (namespace release : String) → Log → Result (List Workload)
  pub services_of : (namespace release : String) → Log → Result (List Service)
  -- The status code of the answer.
  pub http_status : (url : String) → Log → Result ℕ
  pub lease_at : (live : Bool) (namespace name : String) → Log → Result Lease
  pub lease_created : Lease → Log → Result Lease
  pub lease_deleted : (namespace name uid resource_version : String) → Log → Result (Unit {0})
  pub shared_at : (live : Bool) (namespace name : String) → Log → Result SharedComponent
  pub provider_at : (namespace name : String) → Log → Result ProviderSpec
  -- The namespaces whose label is "true".
  pub labelled_of : (live : Bool) (label : String) → Log → Result (List Namespace)
  pub labels_patched : Namespace → Log → Result (Unit {0})
  pub secret_at : (namespace name : String) → Log → Result (Map String)
  pub secret_created : (namespace name : String) → Map String → Log → Result (Unit {0})
  pub secret_updated : (namespace name : String) → Map String → Log → Result (Unit {0})
  pub secret_deleted : (namespace name : String) → Log → Result (Unit {0})
  pub shared_patched : SharedComponent → Log → Result (Unit {0})
  pub shared_status_patched : SharedComponent → Log → Result (Unit {0})
  pub random_at : (bound : ℕ) → Log → Result ℕ
  -- Whether the context has ended when the calls of the log have been made.
  pub context_at : Log → Result (Unit {0})

module _ (api : Api) where
  abbrev pub read_job : (live : Bool) (namespace name : String) → M Log Job
  read_job live namespace name log =
      (api.job_at live namespace name log, get_job live namespace name ∷ log)

  abbrev pub make_job : Job → M Log (Unit {0})
  make_job job log = (api.job_created job log, create_job job ∷ log)

  -- Delete with the precondition that the object has this UID, in the foreground.
  abbrev pub remove_job : (namespace name uid : String) → M Log (Unit {0})
  remove_job namespace name uid log =
      (api.job_deleted namespace name uid log, delete_job namespace name uid ∷ log)

  abbrev pub read_pods : (live : Bool) (namespace job_name : String) → M Log (List Pod)
  read_pods live namespace job_name log =
      (api.pods_of live namespace job_name log, list_pods live namespace job_name ∷ log)

  abbrev pub read_namespace : (live : Bool) (name : String) → M Log Namespace
  read_namespace live name log = (api.namespace_at live name log, get_namespace live name ∷ log)

  abbrev pub make_namespace : Namespace → M Log (Unit {0})
  make_namespace ns log = (api.namespace_created ns log, create_namespace ns ∷ log)

  -- Delete with the preconditions that the object has this UID and this resource version.
  abbrev pub remove_namespace : (name uid resource_version : String) → M Log (Unit {0})
  remove_namespace name uid resource_version log = (
    api.namespace_deleted name uid resource_version log,
    delete_namespace name uid resource_version ∷ log,
  )

  abbrev pub make_service_account : (namespace name : String) → M Log (Unit {0})
  make_service_account namespace name log =
      (api.service_account_created namespace name log, create_service_account namespace name ∷ log)

  abbrev pub read_role_binding : (namespace name : String) → M Log (Unit {0})
  read_role_binding namespace name log =
      (api.role_binding_at namespace name log, get_role_binding namespace name ∷ log)

  abbrev pub make_role_binding : (namespace name : String) → M Log (Unit {0})
  make_role_binding namespace name log =
      (api.role_binding_created namespace name log, create_role_binding namespace name ∷ log)

  abbrev pub read_environment : (namespace name : String) → M Log Environment
  read_environment namespace name log =
      (api.environment_at namespace name log, get_environment namespace name ∷ log)

  abbrev pub write_finalizers :
      (namespace name : String) (finalizers : List String) → M Log (Unit {0})
  write_finalizers namespace name finalizers log = (
    api.finalizers_patched namespace name finalizers log,
    patch_finalizers namespace name finalizers ∷ log,
  )

  abbrev pub write_status : (locked : Bool) → Environment → M Log (Unit {0})
  write_status locked env log = (api.status_patched locked env log, patch_status locked env ∷ log)

  abbrev pub remove_environment : (namespace name : String) → M Log (Unit {0})
  remove_environment namespace name log =
      (api.environment_deleted namespace name log, delete_environment namespace name ∷ log)

  abbrev pub read_template : (namespace name : String) → M Log EnvironmentTemplate
  read_template namespace name log =
      (api.template_at namespace name log, get_template namespace name ∷ log)

  abbrev pub read_clock : M Log ℕ
  read_clock log = (ok (api.time_at log), now ∷ log)

  abbrev pub read_deployments : (namespace release : String) → M Log (List Workload)
  read_deployments namespace release log =
      (api.deployments_of namespace release log, list_deployments namespace release ∷ log)

  abbrev pub read_stateful_sets : (namespace release : String) → M Log (List Workload)
  read_stateful_sets namespace release log =
      (api.stateful_sets_of namespace release log, list_stateful_sets namespace release ∷ log)

  abbrev pub read_services : (namespace release : String) → M Log (List Service)
  read_services namespace release log =
      (api.services_of namespace release log, list_services namespace release ∷ log)

  abbrev pub get_url : (url : String) → M Log ℕ
  get_url url log = (api.http_status url log, http_get url ∷ log)
