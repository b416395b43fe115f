-- ===== src/Jobs/Samples.antt =====
-- A release and a shared component whose Jobs have finished.
use petri_operator.Prelude.{
  ◌+◌, ◌<◌, ◌≤◌, String, Bool, true, false, ◌≡◌, refl, sym, ap, arith, [], ◌∷◌, List, pos,
}
use Prim.Native.String.{count}
use petri_operator.Prelude.Effects.{Result, ok, ok-injective}
use petri_operator.Cluster.{Api, Job, JobCondition, job_complete}
use petri_operator.Jobs.{
  deploy, provision, JobPhase, DeployOptions, truncate_name, terminal_phase, phase_of,
  max_job_name_len, job_name_hash_len, take,
}
use petri_operator.Jobs.Names.{truncate_name_fits, job_name-injective}
use petri_operator.Jobs.Protocol.{state, submit_with, observe_with, judge, confirm}
use petri_operator.Jobs.Protocol.Verdicts.{Confirmed, observe_with-Confirmed}
use petri_operator.Jobs.Protocol.Submits.{Submitted, mutations, submit_with-Submitted}
use petri_operator.Jobs.Protocol.Progress.{IsQuiet, due, submit_with-due}
use petri_operator.Jobs.Deployer
use petri_operator.Jobs.Provisioner
use petri_operator.Jobs.Deployer.Payload.{observe_op-payload}
use petri_operator.Jobs.Provisioner.Payload.{observe_op-identity}
use petri_operator.Fixtures.{empty_api, digest, component}

abbrev options : DeployOptions
options = record {
  owner_uid = "u1";
  namespace = "petri-env-01234567";
  release_name = "demo-db";
  component = component "db" [];
  attempt = 0;
}

abbrev deployer : Deployer.JobDeployer
deployer = record {
  has_reader = true;
  image = "petri";
  service_account = "petri-deployer";
  deadline = pos 60000000000;
}

abbrev complete : List JobCondition
complete = record { type = job_complete; status = true } ∷ []

abbrev installed : Job
unfolding Deployer.build_job
installed = record (Deployer.build_job deployer digest options deploy "demo-db") {
  uid = "j1";
  conditions = complete;
}

abbrev installed_api : Api
installed_api = record empty_api { job_at = λ live namespace name log. ok installed }

abbrev marshal : DeployOptions → Result String
marshal opts = ok opts.release_name

abbrev any : Job → String → Bool
any job payload = true

abbrev name : String
name = "petri-deploy-demo-db"

observed :
    (observe_with installed_api true "ns" name any (ok "x") (λ log. (ok "", log)) []).0
    ≡ ok (state JobPhase.succeeded "")
unfolding observe_with judge confirm terminal_phase phase_of installed
observed = refl

observe_with-Confirmed_example :
    Confirmed installed_api true "ns" name any [] (ok "x") JobPhase.succeeded
observe_with-Confirmed_example =
    observe_with-Confirmed installed_api true "ns" name any (ok "x") (λ log. (ok "", log)) []
      (state JobPhase.succeeded "") observed refl

submit_with-Submitted_example :
    Submitted empty_api true "ns" name any "x" installed []
      (submit_with empty_api true "ns" name any (ok "x") (λ s. installed) []).1
submit_with-Submitted_example =
    submit_with-Submitted empty_api true "ns" name any (ok "x") "x" (λ s. installed) [] refl

keyed :
    (job : Job)
    → installed_api.job_at false "petri-env-01234567" installed.name [] ≡ ok job
    → (job.namespace ≡ "petri-env-01234567") × (job.name ≡ installed.name)
unfolding installed
keyed job e =
    let same = ok-injective e in (ap (λ k. k.namespace) (sym same), ap (λ k. k.name) (sym same))

quiet : IsQuiet installed_api "petri-env-01234567" installed.name
quiet = record { steady = λ live log. refl; keyed = keyed }

seen :
    (observe_with installed_api true "petri-env-01234567" installed.name any
      (ok "x")
      (λ log. (ok "", log))
      []).0
    ≡ ok (state JobPhase.succeeded "")
unfolding observe_with judge confirm terminal_phase phase_of installed
seen = refl

submit_with-due_example :
    mutations
      (submit_with installed_api true "petri-env-01234567" installed.name any
        (ok "x")
        (λ s. installed)
        []).1
    ≡ 0 + due JobPhase.succeeded installed.deleting
submit_with-due_example =
    submit_with-due installed_api true "petri-env-01234567" installed.name any (ok "x") "x"
      (λ s. installed) (λ log. (ok "", log)) [] [] (state JobPhase.succeeded "") quiet refl seen

abbrev long_name : String
long_name = "petri-deploy-a-very-long-environment-name-for-a-branch-with-an-api-gateway"

digest_is_long : (s : String) → job_name_hash_len ≤ count (digest s)
digest_is_long s = omega arith

truncate_name_fits_example :
    (count (truncate_name digest long_name) ≤ max_job_name_len)
    × (count long_name ≤ max_job_name_len → truncate_name digest long_name ≡ long_name)
    × (max_job_name_len < count long_name
        → count (truncate_name digest long_name) ≡ max_job_name_len)
truncate_name_fits_example = truncate_name_fits digest long_name digest_is_long

cut :
    truncate_name digest long_name
    ≡ "petri-deploy-a-very-long-environment-name-for-a-branch-01234567"
unfolding truncate_name take
cut = refl

job_name-injective_example : deploy ≡ deploy
job_name-injective_example = job_name-injective digest deploy deploy "demo-db" "demo-db" refl

abbrev spec : String
spec = "demo-db"

deployed :
    (Deployer.observe_op installed_api digest marshal deployer options deploy []).0
    ≡ ok (state JobPhase.succeeded "")
unfolding Deployer.observe_op observe_with judge confirm terminal_phase phase_of installed
    Deployer.matches_payload Deployer.payload_in
deployed = refl

observe_op-payload_example :
    (marshal options ≡ marshal options)
    × (installed.uid ≡ installed.uid)
    × (installed.deleting ≡ false)
    × (terminal_phase installed ≡ JobPhase.succeeded)
unfolding installed
observe_op-payload_example =
    observe_op-payload installed_api digest marshal deployer options options deploy deploy spec
      installed installed [] (state JobPhase.succeeded "") refl refl refl refl deployed refl

abbrev provisioning : Provisioner.ProvisionOptions
provisioning = record {
  env_uid = "u1";
  env_name = "demo";
  component_name = "db";
  shared_name = "postgres";
  script = record {
    image = "psql";
    script = "create";
    command = [];
    env = [];
    env_from = [];
    volumes = [];
    volume_mounts = [];
  };
  provisioner_secret_ref = "credentials";
}

abbrev provisioner : Provisioner.JobProvisioner
provisioner = record { deadline = pos 0 }

abbrev provisioning_text : Provisioner.ProvisionOptions → Result String
provisioning_text opts = ok opts.env_name

abbrev provisioned : Job
unfolding Provisioner.annotated_job Provisioner.build_job
provisioned =
    record (Provisioner.annotated_job provisioner provisioning provision "job" (digest "demo")) {
      uid = "j2";
      conditions = complete;
    }

abbrev provisioned_api : Api
provisioned_api = record empty_api { job_at = λ live namespace name log. ok provisioned }

provided :
    (Provisioner.observe_op provisioned_api digest provisioning_text provisioner provisioning
      provision []).0
    ≡ ok (state JobPhase.succeeded "")
unfolding Provisioner.observe_op observe_with judge confirm terminal_phase phase_of provisioned
    Provisioner.matches_identity Provisioner.payload_identity
provided = refl

observe_op-identity_example :
    (Provisioner.payload_identity digest provisioning_text provisioning
      ≡ Provisioner.payload_identity digest provisioning_text provisioning)
    × (provisioned.uid ≡ provisioned.uid)
    × (provisioned.deleting ≡ false)
    × (terminal_phase provisioned ≡ JobPhase.succeeded)
unfolding provisioned Provisioner.payload_identity
observe_op-identity_example =
    observe_op-identity provisioned_api digest provisioning_text provisioner provisioning
      provisioning provision provision "job" (digest "demo") provisioned provisioned []
      (state JobPhase.succeeded "") refl refl refl refl provided refl
