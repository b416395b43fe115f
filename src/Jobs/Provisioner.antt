-- ===== src/Jobs/Provisioner.antt =====
-- internal/provisioner/job.go: `JobProvisioner`, which runs a provider's scripts as Jobs in the
-- namespace petri-shared.
pub mod Payload
use petri_operator.Prelude.{String, Bool, true, false, Option, none, some, List, [], ◌∷◌, ◌==◌, ℤ}
use petri_operator.Prelude
use Prim.Native.String.{◌++◌}
use petri_operator.Prelude.Effects.{Result, ok, err, M, pure, attempt, ◌>>=◌}
use petri_operator.Types.{JobScript}
use petri_operator.Cluster.{Labels, label, Job, Container, Log, Api, read_pods}
use petri_operator.Jobs.{Op, provision, deprovision, op_name, truncate_name, JobState, pods_message}
use petri_operator.Jobs.Protocol.{submit_with, observe_with}
use petri_operator.Jobs.Deployer.{deadline_seconds}

abbrev pub shared_namespace : String
shared_namespace = "petri-shared"

pub record ProvisionOptions : Type 0 where
  pub env_uid : String
  pub env_name : String
  pub component_name : String
  pub shared_name : String
  pub script : JobScript
  pub provisioner_secret_ref : String

-- `Reader` is always set here.
pub record JobProvisioner : Type 0 where
  pub deadline : ℤ

pub job_name : (hex_digest : String → String) → Op → String → String → String
unfolding truncate_name
job_name hex_digest op env_name component_name =
    truncate_name hex_digest
      ("petri-" ++ (op_name op ++ ("-" ++ (env_name ++ ("-" ++ component_name)))))

abbrev pub provision_job_name : (hex_digest : String → String) → String → String → String
provision_job_name hex_digest = job_name hex_digest provision

abbrev pub deprovision_job_name : (hex_digest : String → String) → String → String → String
deprovision_job_name hex_digest = job_name hex_digest deprovision

abbrev pub labels : ProvisionOptions → Op → Labels
labels opts op =
    ("petri.run/managed", "true")
    ∷ ("petri.run/env", opts.env_name)
    ∷ ("petri.run/shared", opts.shared_name)
    ∷ ("petri.run/op", op_name op)
    ∷ []

abbrev pub payload_annotation : String
payload_annotation = "petri.run/payload"

unfoldable pub matches_identity : Job → String → Bool
matches_identity job identity = label payload_annotation job.annotations == identity

-- The script runs in a shell unless a command is given.
abbrev pub command_of : JobScript → List String
command_of script = elim script.command [
  | [] ↦ "/bin/sh" ∷ "-c" ∷ script.script ∷ []
  | c ∷ cs ↦ c ∷ cs
]

unfoldable pub build_job : JobProvisioner → ProvisionOptions → Op → String → Job
build_job p opts op name = record {
  namespace = shared_namespace;
  name = name;
  uid = "";
  labels = labels opts op;
  annotations = [];
  deleting = false;
  conditions = [];
  backoff_limit = 0;
  active_deadline_seconds = deadline_seconds p.deadline;
  pod_labels = labels opts op;
  restart_never = true;
  service_account = "";
  containers =
      record {
        name = "provisioner";
        image = opts.script.image;
        pull_if_not_present = false;
        command = command_of opts.script;
        env = opts.script.env;
        env_from = Prelude.◌++◌ opts.script.env_from (opts.provisioner_secret_ref ∷ []);
        volume_mounts = opts.script.volume_mounts;
      }
      ∷ [];
  volumes = opts.script.volumes;
}

-- The Job with its payload annotation, as `submit` creates it.
unfoldable pub annotated_job : JobProvisioner → ProvisionOptions → Op → String → String → Job
unfolding build_job
annotated_job p opts op name identity = record (build_job p opts op name) {
  annotations = (payload_annotation, identity) ∷ [];
}

unfoldable pub payload_identity :
    (hex_digest : String → String)
    → (ProvisionOptions → Result String)
    → ProvisionOptions
    → Result String
payload_identity hex_digest marshal opts = elim (marshal opts) [
  | ok payload ↦ ok (hex_digest payload)
  | err e ↦ err e
]

-- `marshal` is json.Marshal of the options.
module _ (api : Api) (hex_digest : String → String) (marshal : ProvisionOptions → Result String)
    (p : JobProvisioner) where
  pub failure_reason : String → M Log String
  failure_reason name = do
    answer ← attempt (read_pods api true shared_namespace name)
    elim answer [
      | err e ↦ pure ("provision job failed (could not read pod: " ++ (e.text ++ ")"))
      | ok pods ↦ elim (pods_message pods) [
        | some message ↦ pure message
        | none ↦ pure "provision job failed"
      ]
    ]

  unfoldable pub submit_op : ProvisionOptions → Op → M Log (Unit {0})
  submit_op opts op =
      let name = job_name hex_digest op opts.env_name opts.component_name in
      submit_with api true shared_namespace name matches_identity
        (payload_identity hex_digest marshal opts) (annotated_job p opts op name)

  unfoldable pub observe_op : ProvisionOptions → Op → M Log JobState
  observe_op opts op =
      let name = job_name hex_digest op opts.env_name opts.component_name in
      observe_with api true shared_namespace name matches_identity
        (payload_identity hex_digest marshal opts) (failure_reason name)

  pub submit_provision : ProvisionOptions → M Log (Unit {0})
  unfolding submit_op
  submit_provision opts = submit_op opts provision

  pub submit_deprovision : ProvisionOptions → M Log (Unit {0})
  unfolding submit_op
  submit_deprovision opts = submit_op opts deprovision

  pub observe_provision : ProvisionOptions → M Log JobState
  unfolding observe_op
  observe_provision opts = observe_op opts provision

  pub observe_deprovision : ProvisionOptions → M Log JobState
  unfolding observe_op
  observe_deprovision opts = observe_op opts deprovision
