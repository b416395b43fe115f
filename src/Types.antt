-- ===== src/Types.antt =====
-- api/v1alpha1: the specs that a template holds, and the status of an environment's components.
pub mod Shared
use petri_operator.Prelude.{ℕ, String, Bool, Option, none, List, []}

pub record EnvSecretRef : Type 0 where
  pub component : String
  pub key : String

pub record EnvValue : Type 0 where
  pub value : String
  pub secret_key_ref : Option EnvSecretRef

pub record HttpGetAction : Type 0 where
  pub path : String
  pub port : ℕ

pub record ReadinessSpec : Type 0 where
  pub http_get : Option HttpGetAction

pub record HelmGitRef : Type 0 where
  pub repo : String
  pub path : String
  pub ref : String
  pub fallback_ref : String

pub record HelmSpec : Type 0 where
  pub path : String
  pub git : Option HelmGitRef
  pub repo : String
  pub chart : String
  pub version : String
  pub values : List (String × String)
  pub values_file : String
  pub plain_http : Bool

pub record ComponentSpec : Type 0 where
  pub name : String
  pub helm : Option HelmSpec
  pub shared_component_ref : String
  pub env : List (String × EnvValue)
  pub readiness : Option ReadinessSpec
  pub depends_on : List String

-- The zero value of the struct.
abbrev pub zero_component : ComponentSpec
zero_component = record {
  name = "";
  helm = none;
  shared_component_ref = "";
  env = [];
  readiness = none;
  depends_on = [];
}

abbrev pub names : List ComponentSpec → List String
names cs = petri_operator.Prelude.map (λ c. c.name) cs

-- `unset` is the empty string, which a missing map entry reads as.
pub data ComponentPhase : Type 0 where
  unset pending submitting deploying ready failed : ComponentPhase

pub record ComponentStatus : Type 0 where
  pub name : String
  pub shared : Bool
  pub phase : ComponentPhase
  pub deploy_retries : ℕ  -- int32
  pub deploying_since : Option ℕ
  pub last_failure_reason : String

-- The parts of a pod that a provider's scripts carry through.
pub record EnvVar : Type 0 where
  pub name : String
  pub value : String

pub data VolumeSource : Type 0 where
  empty_dir : VolumeSource
  other_source : String → VolumeSource

pub record Volume : Type 0 where
  pub name : String
  pub source : VolumeSource

pub record VolumeMount : Type 0 where
  pub name : String
  pub mount_path : String

pub record JobScript : Type 0 where
  pub image : String
  pub script : String
  pub command : List String
  pub env : List EnvVar
  pub env_from : List String
  pub volumes : List Volume
  pub volume_mounts : List VolumeMount

-- The specs and statuses of the custom resources, with the metadata that the code uses. Times are
-- nanoseconds; `deleting` says that the deletion timestamp is set.
pub record SourceSpec : Type 0 where
  pub repo : String
  pub branch : String
  pub sha : String

pub record EnvironmentSpec : Type 0 where
  pub template : String
  pub source : SourceSpec
  pub values : List (String × String)
  pub env : List (String × EnvValue)
  pub ttl : String

-- `unset` is the empty string of a new environment.
pub data EnvironmentPhase : Type 0 where
  unset pending deploying ready failed terminating : EnvironmentPhase

-- `is_true` for ConditionTrue.
pub record Condition : Type 0 where
  pub type : String
  pub is_true : Bool
  pub reason : String
  pub message : String
  pub observed_generation : ℕ

pub record EnvironmentStatus : Type 0 where
  pub target_namespace : String
  pub conditions : List Condition
  pub phase : EnvironmentPhase
  pub deploy_started_at : Option ℕ
  pub url : String
  pub expires_at : Option ℕ
  pub components : List ComponentStatus
  pub observed_generation : ℕ

pub record Environment : Type 0 where
  pub name : String
  pub namespace : String
  pub uid : String
  pub generation : ℕ
  pub created : ℕ
  pub deleting : Bool
  pub finalizers : List String
  pub spec : EnvironmentSpec
  pub status : EnvironmentStatus

pub record EnvironmentTemplate : Type 0 where
  pub components : List ComponentSpec
  pub ttl : String
  pub deploy_timeout : String

pub record Namespace : Type 0 where
  pub name : String
  pub uid : String
  pub resource_version : String
  pub labels : List (String × String)
  pub deleting : Bool
