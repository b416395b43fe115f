-- ===== src/Helm.antt =====
-- internal/deployer/helm.go: `Install` and `Uninstall`, which a deployer Job runs. The Helm SDK is
-- a parameter.
pub mod Installs
pub mod Uninstalls
pub mod Command
mod Samples
use petri_operator.Prelude.{
  ℕ, String, Bool, true, false, Option, none, some, List, [], ◌∷◌, if◌then◌else◌,
}
use Prim.Native.String.{◌++◌}
use petri_operator.Prelude.Effects.{
  Err, other, Result, ok, err, M, pure, fail, attempt, give, wrap, ◌>>=◌, ◌>>◌,
}
use petri_operator.Types.{HelmSpec}
use petri_operator.Namespaces.{quoted}
use petri_operator.Jobs.{DeployOptions}

-- action.Configuration: the namespace it was made for, and whether its registry client, if it has
-- one, speaks plain HTTP.
pub record ActionConfig : Type 0 where
  pub namespace : String
  pub plain_http : Option Bool

-- What an action.Install and an action.Upgrade are told.
pub record Release : Type 0 where
  pub name : String
  pub namespace : String
  pub version : String

-- The calls of the SDK, and the file that the command leaves its error in.
pub data HelmCall (Chart Values : Type 0) : Type 0 where
  init : (namespace : String) → HelmCall Chart Values
  new_client : (plain_http : Bool) → HelmCall Chart Values
  locate : ActionConfig → (repo version chart namespace : String) → HelmCall Chart Values
  load : (path : String) → HelmCall Chart Values
  get_history : ActionConfig → (max : ℕ) (name : String) → HelmCall Chart Values
  install_release :
      ActionConfig → Release → (create_namespace : Bool) → Chart → Values → HelmCall Chart Values
  upgrade_release : ActionConfig → Release → Chart → Values → HelmCall Chart Values
  uninstall_release : ActionConfig → (name : String) → HelmCall Chart Values
  write_termination_log : (text : String) → HelmCall Chart Values

-- The calls made, the latest first.
abbrev pub HelmLog : Type 0 → Type 0 → Type 0
HelmLog Chart Values = List (HelmCall Chart Values)

-- The answers, by the calls made before.
pub record Sdk (Chart Values : Type 0) : Type 0 where
  pub initialised : (namespace : String) → HelmLog Chart Values → Result (Unit {0})
  pub client_made : (plain_http : Bool) → HelmLog Chart Values → Result (Unit {0})
  pub located :
      ActionConfig → (repo version chart namespace : String) → HelmLog Chart Values → Result String
  pub loaded : (path : String) → HelmLog Chart Values → Result Chart
  pub history_of :
      ActionConfig → (max : ℕ) (name : String) → HelmLog Chart Values → Result (Unit {0})
  pub installed :
      ActionConfig
      → Release
      → (create_namespace : Bool) → Chart
      → Values
      → HelmLog Chart Values
      → Result (Unit {0})
  pub upgraded : ActionConfig → Release → Chart → Values → HelmLog Chart Values → Result (Unit {0})
  pub uninstalled : ActionConfig → (name : String) → HelmLog Chart Values → Result (Unit {0})
  -- An empty map of values, and strvals.ParseInto.
  pub no_values : Values
  pub parse_into : String → Values → Result Values
  -- errors.Is of driver.ErrReleaseNotFound
  pub is_release_not_found : Err → Bool

-- fmt.Errorf of what a step returns.
abbrev named : {A : Type 0} → String → Result A → Result A
named prefix (ok a) = ok a
named prefix (err e) = wrap prefix e

module _ {Chart Values : Type 0} (sdk : Sdk Chart Values) where
  abbrev Step : Type 0 → Type 0
  Step A = M (HelmLog Chart Values) A

  abbrev ask :
      {A : Type 0}
      → (HelmLog Chart Values → Result A)
      → HelmCall Chart Values
      → (prefix : String) → Step A
  ask answer call prefix log = (named prefix (answer log), call ∷ log)

  pub init_action_config : String → Step ActionConfig
  init_action_config namespace = do
    ask (sdk.initialised namespace) (init namespace) "failed to init action config: "
    pure (record { namespace = namespace; plain_http = none })

  -- The values of the component, in the order in which the range over the map visits them.
  pub parse_values : List (String × String) → Values → Result Values
  parse_values [] values = ok values
  parse_values ((k, v) ∷ rest) values = elim (sdk.parse_into (k ++ ("=" ++ v)) values) [
    | err e ↦ wrap ("parse value " ++ (quoted k ++ ": ")) e
    | ok values' ↦ parse_values rest values'
  ]

  abbrev pub release_of : DeployOptions → HelmSpec → Release
  release_of opts spec = record {
    name = opts.release_name;
    namespace = opts.namespace;
    version = spec.version;
  }

  pub apply : DeployOptions → HelmSpec → ActionConfig → Chart → Values → Step (Unit {0})
  apply opts spec cfg chart values = do
    let release = release_of opts spec
    found ← attempt (λ log.
        (sdk.history_of cfg 1 opts.release_name log, get_history cfg 1 opts.release_name ∷ log))
    elim found [
      | err e ↦
          if sdk.is_release_not_found e
          then ask (sdk.installed cfg release false chart values)
              (install_release cfg release false chart values)
              ("helm install " ++ (opts.release_name ++ ": "))
          else give (wrap ("helm history " ++ (opts.release_name ++ ": ")) e)
      | ok _ ↦
          ask (sdk.upgraded cfg release chart values) (upgrade_release cfg release chart values)
            ("helm upgrade " ++ (opts.release_name ++ ": "))
    ]

  pub install_chart : DeployOptions → HelmSpec → Step (Unit {0})
  unfolding init_action_config parse_values apply
  install_chart opts spec = do
    bare ← init_action_config opts.namespace
    ask (sdk.client_made spec.plain_http) (new_client spec.plain_http)
        "failed to create registry client: "
    let cfg = record bare { plain_http = some spec.plain_http }
    path ←
        ask (sdk.located cfg spec.repo spec.version spec.chart opts.namespace)
          (locate cfg spec.repo spec.version spec.chart opts.namespace)
          ("locate chart " ++ (quoted spec.chart ++ ": "))
    chart ← ask (sdk.loaded path) (load path) ("load chart " ++ (quoted path ++ ": "))
    values ← give (parse_values spec.values sdk.no_values)
    apply opts spec cfg chart values

  pub install_spec : DeployOptions → Option HelmSpec → Step (Unit {0})
  unfolding install_chart
  install_spec opts none =
      fail (record {
        kind = other;
        text = "component " ++ (opts.component.name ++ " has no helm spec");
      })
  install_spec opts (some spec) = install_chart opts spec

  pub install : DeployOptions → Step (Unit {0})
  unfolding install_spec
  install opts = install_spec opts opts.component.helm

  pub uninstall : DeployOptions → Step (Unit {0})
  unfolding init_action_config
  uninstall opts = do
    cfg ← init_action_config opts.namespace
    gone ← attempt (λ log.
        (sdk.uninstalled cfg opts.release_name log, uninstall_release cfg opts.release_name ∷ log))
    elim gone [
      | ok _ ↦ pure tt
      | err e ↦
          if sdk.is_release_not_found e
          then pure tt
          else give (wrap ("helm uninstall " ++ (opts.release_name ++ ": ")) e)
    ]
