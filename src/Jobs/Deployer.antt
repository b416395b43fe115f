-- ===== src/Jobs/Deployer.antt =====
-- internal/deployer/job.go: `JobDeployer`, which runs a release's install and uninstall as Jobs.
pub mod Unpatched
pub mod Payload
use petri_operator.Prelude.{
  ℕ, zero, suc, ◌/◌, String, Bool, true, false, Option, none, some, List, [], ◌∷◌, if◌then◌else◌,
  ◌==◌, ℤ, pos, negsuc,
}
use Prim.Native.String.{◌++◌}
use petri_operator.Prelude.Effects.{Result, ok, err, M, pure, attempt, ◌>>=◌}
use petri_operator.Types.{EnvVar, Volume, VolumeMount, empty_dir}
use petri_operator.Cluster.{Labels, Job, Container, Pod, Log, Api, read_pods}
use petri_operator.Jobs.{
  Op, deploy, undeploy, op_name, release_job_name, JobState, DeployOptions, pods_message,
}
use petri_operator.Jobs.Protocol.{submit_with, observe_with}

-- `deadline` is a time.Duration.
pub record JobDeployer : Type 0 where
  pub has_reader : Bool
  pub image : String
  pub service_account : String
  pub deadline : ℤ

-- The value of the first PETRI_SPEC among the variables.
abbrev spec_of : List EnvVar → Option String
spec_of [] = none
spec_of (v ∷ env) = let rest = spec_of env in if v.name == "PETRI_SPEC" then some v.value else rest

-- Over the containers: the first one of the name "deployer" that has the variable decides.
unfoldable pub payload_in : List Container → String → Bool
payload_in [] payload = false
payload_in (c ∷ containers) payload =
    let rest = payload_in containers payload in
    if c.name == "deployer"
    then elim (spec_of c.env) [ some value ↦ value == payload | none ↦ rest ]
    else rest

unfoldable pub matches_payload : Job → String → Bool
unfolding payload_in
matches_payload job payload = payload_in job.containers payload

abbrev job_labels : DeployOptions → Op → Labels
job_labels opts op =
    ("petri.run/managed", "true")
    ∷ ("petri.run/release", opts.release_name)
    ∷ ("petri.run/op", op_name op)
    ∷ []

-- `int64(d.Seconds())` of a positive deadline. The float64 that `Seconds` returns is taken as exact.
abbrev pub deadline_seconds : ℤ → Option ℕ
deadline_seconds (pos zero) = none
deadline_seconds (pos (suc n)) = some (suc n / 1000000000)
deadline_seconds (negsuc n) = none

abbrev env_var : String → String → EnvVar
env_var name value = record { name = name; value = value }

unfoldable pub build_job :
    JobDeployer → (hex_digest : String → String) → DeployOptions → Op → String → Job
build_job j hex_digest opts op spec_json = record {
  namespace = opts.namespace;
  name = release_job_name hex_digest op opts.release_name;
  uid = "";
  labels = job_labels opts op;
  annotations = [];
  deleting = false;
  conditions = [];
  backoff_limit = 0;
  active_deadline_seconds = deadline_seconds j.deadline;
  pod_labels = job_labels opts op;
  restart_never = true;
  service_account = j.service_account;
  containers =
      record {
        name = "deployer";
        image = j.image;
        pull_if_not_present = true;
        command = [];
        env =
            env_var "PETRI_OP" (op_name op)
            ∷ env_var "PETRI_SPEC" spec_json
            ∷ env_var "HELM_CACHE_HOME" "/tmp/.helm/cache"
            ∷ env_var "HELM_CONFIG_HOME" "/tmp/.helm/config"
            ∷ env_var "HELM_DATA_HOME" "/tmp/.helm/data"
            ∷ [];
        env_from = [];
        volume_mounts = record { name = "tmp"; mount_path = "/tmp" } ∷ [];
      }
      ∷ [];
  volumes = record { name = "tmp"; source = empty_dir } ∷ [];
}

-- `marshal` is json.Marshal of the options.
module _ (api : Api) (hex_digest : String → String) (marshal : DeployOptions → Result String)
    (j : JobDeployer) where
  pub failure_reason : DeployOptions → Op → M Log String
  failure_reason opts op = do
    answer ← attempt (
        read_pods api j.has_reader opts.namespace
          (release_job_name hex_digest op opts.release_name))
    elim answer [
      | err e ↦ pure (op_name op ++ (" job failed (could not read pod: " ++ (e.text ++ ")")))
      | ok pods ↦ elim (pods_message pods) [
        | some message ↦ pure message
        | none ↦ pure (op_name op ++ " job failed")
      ]
    ]

  unfoldable pub submit_op : DeployOptions → Op → M Log (Unit {0})
  submit_op opts op =
      submit_with api j.has_reader opts.namespace (release_job_name hex_digest op opts.release_name)
        matches_payload (marshal opts) (build_job j hex_digest opts op)

  unfoldable pub observe_op : DeployOptions → Op → M Log JobState
  observe_op opts op =
      observe_with api j.has_reader opts.namespace
        (release_job_name hex_digest op opts.release_name) matches_payload (marshal opts)
        (failure_reason opts op)

  pub submit : DeployOptions → M Log (Unit {0})
  unfolding submit_op
  submit opts = submit_op opts deploy

  pub submit_undeploy : DeployOptions → M Log (Unit {0})
  unfolding submit_op
  submit_undeploy opts = submit_op opts undeploy

  pub observe : DeployOptions → M Log JobState
  unfolding observe_op
  observe opts = observe_op opts deploy

  pub observe_undeploy : DeployOptions → M Log JobState
  unfolding observe_op
  observe_undeploy opts = observe_op opts undeploy
