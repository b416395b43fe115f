-- ===== src/Helm/Command/Performs.antt =====
-- The command in the container of a Job that the deployer builds.
use petri_operator.Prelude.{ℕ, String, ◌≡◌, refl, ap, ◌∙◌, List, ◌∷◌, All}
use petri_operator.Prelude.Effects.{Result, ok, err, M, attempt, ◌>>=◌}
use petri_operator.Cluster.{Container}
use petri_operator.Jobs.{Op, deploy, undeploy, op_name, DeployOptions}
use petri_operator.Jobs.Deployer.{JobDeployer, build_job}
use petri_operator.Helm.{HelmLog, Sdk, write_termination_log, install, uninstall}
use petri_operator.Helm.Command.{end, perform, run, main}

-- A process that the kubelet starts in the containers finds their variables in its environment.
abbrev pub IsStarted : (getenv : String → String) → List Container → Type 0
IsStarted getenv = All (λ c. All (λ v. getenv v.name ≡ v.value) c.env)

-- The operations of the deployer.
pub data IsRelease : Op → Type 0 where
  deploys : IsRelease deploy
  undeploys : IsRelease undeploy

module _ {Chart Values : Type 0} (sdk : Sdk Chart Values)
    (decode : String → Result DeployOptions) where
  abbrev pub operate :
      {op : Op} → IsRelease op → DeployOptions → M (HelmLog Chart Values) (Unit {0})
  operate deploys opts = install sdk opts
  operate undeploys opts = uninstall sdk opts

  perform-operate :
      {op : Op} (which : IsRelease op) (opts : DeployOptions)
      → perform sdk decode (op_name op) opts ≡ operate which opts
  unfolding perform
  perform-operate deploys opts = refl
  perform-operate undeploys opts = refl

  -- What a command does with the end of an operation: it exits with 0 after a success, and else
  -- writes the error's text to the termination log and exits with 1.
  abbrev pub exits : Result (Unit {0}) × HelmLog Chart Values → Result ℕ × HelmLog Chart Values
  exits (answer, log) = elim answer [
    | ok _ ↦ (ok 0, log)
    | err e ↦ (ok 1, write_termination_log e.text ∷ log)
  ]

  end-exits :
      (answer : Result (Unit {0})) (log : HelmLog Chart Values)
      → end sdk decode answer log ≡ exits (answer, log)
  end-exits (ok _) log = refl
  end-exits (err e) log = refl

  run-operate :
      {op : Op} (which : IsRelease op) (opts : DeployOptions) (log : HelmLog Chart Values)
      → run sdk decode (ok opts) (op_name op) log ≡ exits (operate which opts log)
  unfolding run
  run-operate which opts log =
      ap (λ m. (do result ← attempt m; end sdk decode result) log) (perform-operate which opts)
      ∙ end-exits (operate which opts log).0 (operate which opts log).1

  -- In a container of the Job that the deployer builds for an operation and options, whose JSON
  -- text decodes to the options, the command performs the very operation for the very options:
  -- `Install` for a deployment, `Uninstall` for the opposite. It exits with 0 if that succeeds, and
  -- else with 1 and the error's text in the termination log.
  pub main-operate :
      (j : JobDeployer) (hex_digest : String → String) (opts : DeployOptions) {op : Op}
      (which : IsRelease op) (spec : String) (getenv : String → String) (log : HelmLog Chart Values)
      → decode spec ≡ ok opts
      → IsStarted getenv (build_job j hex_digest opts op spec).containers
      → main sdk decode getenv log ≡ exits (operate which opts log)
  unfolding main build_job
  main-operate j hex_digest opts which spec getenv log d ((o, (s, rest)), _) =
      ap (λ r. run sdk decode r (getenv "PETRI_OP") log) (ap decode s ∙ d)
      ∙ (ap (λ operation. run sdk decode (ok opts) operation log) o ∙ run-operate which opts log)
