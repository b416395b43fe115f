-- ===== src/Helm/Command.antt =====
-- cmd/deployer/main.go: the command that runs in the container of a deployer Job.
pub mod Performs
use petri_operator.Prelude.{ℕ, String, ◌∷◌, if◌then◌else◌, ◌==◌}
use Prim.Native.String.{◌++◌}
use petri_operator.Prelude.Effects.{Err, other, Result, ok, err, M, pure, attempt, give, ◌>>=◌}
use petri_operator.Jobs.{DeployOptions}
use petri_operator.Namespaces.{quoted}
use petri_operator.Helm.{HelmLog, Sdk, write_termination_log, install, uninstall}

-- `decode` is the JSON decoder of the options that allows no unknown field, `getenv` os.Getenv. The
-- result of the command is its exit code.
module _ {Chart Values : Type 0} (sdk : Sdk Chart Values)
    (decode : String → Result DeployOptions) where
  -- The write may fail, and the code ignores that.
  abbrev pub fail : Err → M (HelmLog Chart Values) ℕ
  fail e log = (ok 1, write_termination_log e.text ∷ log)

  abbrev pub end : Result (Unit {0}) → M (HelmLog Chart Values) ℕ
  end (ok _) = pure 0
  end (err e) = fail e

  unfoldable pub perform : String → DeployOptions → M (HelmLog Chart Values) (Unit {0})
  perform operation opts =
      let unknown : Result (Unit {0}) =
        err (record { kind = other; text = "unknown operation: " ++ quoted operation }) in
      if operation == "deploy"
      then install sdk opts
      else if operation == "undeploy"
      then uninstall sdk opts
      else give unknown

  unfoldable pub run : Result DeployOptions → String → M (HelmLog Chart Values) ℕ
  unfolding perform
  run (err e) operation = fail e
  run (ok opts) operation = do result ← attempt (perform operation opts); end result

  unfoldable pub main : (getenv : String → String) → M (HelmLog Chart Values) ℕ
  unfolding run
  main getenv = run (decode (getenv "PETRI_SPEC")) (getenv "PETRI_OP")
