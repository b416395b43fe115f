-- ===== src/Operator.antt =====
-- cmd/operator/main.go: the reconcilers of the operator, with the parts that fill their interfaces.
pub mod Completion
mod Samples
use petri_operator.Prelude.{ℕ, String, true, if◌then◌else◌, ◌==◌, ℤ, pos}
use petri_operator.Prelude.Effects.{Result, ok, M}
use petri_operator.Cluster.{Log, Api}
use petri_operator.Platform.{Platform}
use petri_operator.Jobs.{DeployOptions}
use petri_operator.Jobs.Deployer.{JobDeployer}
use petri_operator.Jobs.Provisioner.{ProvisionOptions}
use petri_operator.Renderer.{Engine}
use petri_operator.Namespaces.{Reconciler}
use petri_operator.Environments.Teardown.{Cleanup}
use petri_operator.Environments.Requests
use petri_operator.Deploys.{Deployer, job_deployer}
use petri_operator.Deploys.Process.{SharedDeploys, process_level}
use petri_operator.Undeploys.Keeps.{cleanup}
use petri_operator.Checker.{is_ready}
use petri_operator.Config.{Controllers}
use petri_operator.Config
use petri_operator.Shared.Provision.{
  Provisioner, job_provisioner, binding_components, submit_shared, observe_shared,
}
use petri_operator.Shared.Values.{render_consumer_values}
use petri_operator.Shared.Deprovision.{deprovision_shared}
use petri_operator.Shared.Deprovision.Keeps.{deprovision_shared-Keeps}
use petri_operator.SharedComponents.Requests as SharedRequests

-- A duration of the configuration, with a default for the empty text.
abbrev duration_of : (parse : String → Result ℤ) → ℤ → String → Result ℤ
duration_of parse default value = if value == "" then ok default else parse value

-- cmp.Or
abbrev first_of : String → String → String
first_of a b = if a == "" then b else a

abbrev pub job_deadline : {F : Type 0} → (parse : String → Result ℤ) → Controllers F → Result ℤ
job_deadline parse c = duration_of parse (pos 900000000000) c.job_deadline

abbrev pub deploy_timeout : {F : Type 0} → (parse : String → Result ℤ) → Controllers F → Result ℤ
deploy_timeout parse c = duration_of parse (pos 0) c.default_deploy_timeout

-- `getenv` is os.Getenv.
module _ (getenv : String → String) (config : Config.Deployer) where
  abbrev pub deployer_account : String
  deployer_account =
      first_of config.service_account (first_of (getenv "PETRI_DEPLOYER_SA") "petri-deployer")

  abbrev pub deployer_of : ℤ → JobDeployer
  deployer_of deadline = record {
    has_reader = true;
    image = first_of config.image (getenv "PETRI_DEPLOYER_IMAGE");
    service_account = deployer_account;
    deadline = deadline;
  }

-- The two reconcilers, which read from the server by the manager's API reader. The `marshal`s are
-- json.Marshal of the options of a Job, `show_duration` is time.Duration.String.
module _ (api : Api) (p : Platform) (engine : Engine) (marshal : DeployOptions → Result String)
    (marshal_options : ProvisionOptions → Result String) (show_duration : ℤ → String)
    (account : String) (jobs : JobDeployer) (deadline timeout : ℤ) where
  abbrev pub deployer : Deployer
  deployer = job_deployer api p.hex_digest marshal jobs

  abbrev pub provisioner : Provisioner
  provisioner = job_provisioner api p.hex_digest marshal_options (record { deadline = deadline })

  abbrev pub shared_deploys : SharedDeploys
  shared_deploys = record {
    binding_components = binding_components api;
    render_values = render_consumer_values engine;
    submit_shared = submit_shared api true p.hex_digest engine provisioner;
    observe_shared = observe_shared api p engine provisioner;
  }

  abbrev pub environment_cleanup : Cleanup
  environment_cleanup =
      cleanup deployer (deprovision_shared api true p.hex_digest engine provisioner)
        (deprovision_shared-Keeps api true p.hex_digest engine provisioner)

  abbrev pub reconciler : Reconciler
  reconciler = record { has_reader = true; deployer_service_account = account }

  unfoldable pub serve_environment : String → String → M Log ℕ
  serve_environment =
      Requests.reconcile_request api p reconciler timeout
        (process_level api p deployer shared_deploys show_duration (is_ready api))
        environment_cleanup

  unfoldable pub serve_shared_component : String → String → M Log ℕ
  serve_shared_component = SharedRequests.reconcile_request api p true account deployer
