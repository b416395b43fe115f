-- ===== src/Helm/Samples.antt =====
-- A release that is installed, upgraded and removed.
use petri_operator.Prelude.{
  String, true, false, ◌≡◌, refl, none, some, List, [], ◌∷◌, if◌then◌else◌, ◌==◌, pos,
}
use petri_operator.Prelude.Effects.{Result, ok, is_not_found}
use petri_operator.Types.{HelmSpec}
use petri_operator.Jobs.{deploy, DeployOptions}
use petri_operator.Jobs.Deployer.{JobDeployer, build_job}
use petri_operator.Helm.{
  Sdk, write_termination_log, parse_values, apply, init_action_config, install_chart, install_spec,
  install, uninstall,
}
use petri_operator.Helm.Installs.{changes, Attempted, install-Attempted}
use petri_operator.Helm.Uninstalls.{Removed, uninstall-Removed}
use petri_operator.Helm.Command.{perform, run, main}
use petri_operator.Helm.Command.Performs.{deploys, operate, exits, IsStarted, main-operate}
use petri_operator.Fixtures.{missing, component, digest}

abbrev spec : HelmSpec
spec = record {
  path = "";
  git = none;
  repo = "oci://charts";
  chart = "postgres";
  version = "1.2.3";
  values = ("replicas", "2") ∷ ("auth.user", "petri") ∷ [];
  values_file = "";
  plain_http = false;
}

abbrev options : DeployOptions
options = record {
  owner_uid = "u1";
  namespace = "petri-env-01234567";
  release_name = "demo-db";
  component = record (component "db" []) { helm = some spec };
  attempt = 0;
}

-- Values are the texts that were parsed; nothing is released.
abbrev sdk : Sdk String (List String)
sdk = record {
  initialised = λ namespace log. ok tt;
  client_made = λ plain log. ok tt;
  located = λ cfg repo version chart namespace log. ok "/tmp/chart";
  loaded = λ path log. ok path;
  history_of = λ cfg max name log. missing;
  installed = λ cfg release create chart values log. ok tt;
  upgraded = λ cfg release chart values log. ok tt;
  uninstalled = λ cfg name log. missing;
  no_values = [];
  parse_into = λ text values. ok (text ∷ values);
  is_release_not_found = is_not_found;
}

installs : (install sdk options []).0 ≡ ok tt
unfolding install install_spec install_chart init_action_config parse_values apply
installs = refl

installs_once : changes (install sdk options []).1 ≡ 1
unfolding install install_spec install_chart init_action_config parse_values apply
installs_once = refl

install-Attempted_example : Attempted sdk options [] (install sdk options [])
install-Attempted_example = install-Attempted sdk options []

uninstalls : (uninstall sdk options []).0 ≡ ok tt
unfolding uninstall init_action_config
uninstalls = refl

uninstall-Removed_example : Removed sdk options [] (uninstall sdk options [])
uninstall-Removed_example = uninstall-Removed sdk options []

abbrev deployer : JobDeployer
deployer = record {
  has_reader = true;
  image = "petri";
  service_account = "petri-deployer";
  deadline = pos 0;
}

abbrev decode : String → Result DeployOptions
decode text = ok options

abbrev getenv : String → String
getenv name =
    if name == "PETRI_OP"
    then "deploy"
    else if name == "PETRI_SPEC"
    then "{}"
    else if name == "HELM_CACHE_HOME"
    then "/tmp/.helm/cache"
    else if name == "HELM_CONFIG_HOME"
    then "/tmp/.helm/config"
    else "/tmp/.helm/data"

started : IsStarted getenv (build_job deployer digest options deploy "{}").containers
unfolding build_job
started = ((refl, (refl, (refl, (refl, (refl, tt))))), tt)

main-operate_example :
    main sdk decode getenv [] ≡ exits sdk decode (operate sdk decode deploys options [])
main-operate_example =
    main-operate sdk decode deployer digest options deploys "{}" getenv [] refl started

unknown :
    main sdk decode (λ name. "restart") []
    ≡ (ok 1, write_termination_log "unknown operation: \"restart\"" ∷ [])
unfolding main run perform
unknown = refl
