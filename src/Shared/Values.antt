-- ===== src/Shared/Values.antt =====
-- internal/controller/shared.go: `renderConsumerValues`, the values of a release that may use the
-- bindings of shared components.
pub mod Overrides
use petri_operator.Prelude.{
  String, Bool, not, Option, none, some, List, [], ◌∷◌, if◌then◌else◌, ◌==◌, Map, empty, lookup,
  insert, copy_into,
}
use Prim.Native.String.{◌++◌}
use petri_operator.Prelude.Effects.{shared_not_ready, other, Kind, Err, Result, ok, err}
use petri_operator.Types.{Environment, ComponentSpec, HelmSpec, EnvValue, EnvSecretRef}
use petri_operator.Renderer.{Engine, Vars, env_vars_for, render_map}
use petri_operator.Namespaces.{quoted}
use petri_operator.Deploys.Process.{Bindings}
use petri_operator.Shared.Provision.{binding_name}

abbrev pub secret_value : String
secret_value = "extraEnvVarsSecret"

-- The variables of the component, which those of the environment override.
abbrev pub effective_env : Environment → ComponentSpec → List (String × EnvValue)
effective_env env c = copy_into (copy_into [] c.env) env.spec.env

-- Whether each component that a variable takes a key from is bound.
unfoldable pub all_bound : List (String × EnvValue) → Bindings → Bool
all_bound [] components = Bool.true
all_bound ((k, ev) ∷ vars) components =
    let rest = all_bound vars components in
    elim ev.secret_key_ref [
      | none ↦ rest
      | some ref ↦ elim (components ref.component) [ none ↦ Bool.false | some _ ↦ rest ]
    ]

abbrev conflict_text : ComponentSpec → String → String → String
conflict_text c existing wanted =
    "component "
    ++ (c.name
        ++ (": multiple SecretKeyRef entries require different binding secrets ("
            ++ (quoted existing
                ++ (", " ++ (quoted wanted ++ "); extraEnvVarsSecret only supports one")))))

-- The value that names the binding secret, which is one for all variables.
unfoldable pub name_secret :
    Environment
    → ComponentSpec
    → List (String × EnvValue)
    → List (String × String)
    → Result (List (String × String))
name_secret env c [] values = ok values
name_secret env c ((k, ev) ∷ vars) values =
    let rest = name_secret env c vars in
    elim ev.secret_key_ref [
      | none ↦ rest values
      | some ref ↦
          let wanted = binding_name env ref.component in
          elim (lookup secret_value values) [
            | none ↦ rest (insert secret_value wanted values)
            | some existing ↦
                if not (existing == wanted)
                then err (record { kind = other; text = conflict_text c existing wanted })
                else rest (insert secret_value wanted values)
          ]
    ]

module _ (engine : Engine) where
  unfoldable pub render_release :
      Environment → ComponentSpec → HelmSpec → Bindings → Result ComponentSpec
  unfolding name_secret
  render_release env c helm components =
      let vars : Vars = record {
        env = env_vars_for env.name "";
        components = components;
        instance_keys = empty;
      } in
      let all = effective_env env c in
      elim (render_map engine helm.values vars) [
        | err e ↦
            err (record e { text = "render helm values for " ++ (c.name ++ (": " ++ e.text)) })
        | ok rendered ↦ elim (name_secret env c all (copy_into rendered env.spec.values)) [
          | err e ↦ err e
          | ok values ↦ ok (record c { helm = some (record helm { values = values }); env = all })
        ]
      ]

  unfoldable pub render_consumer_values :
      Environment → ComponentSpec → Bindings → Result ComponentSpec
  unfolding all_bound render_release
  render_consumer_values env c components = elim c.helm [
    | none ↦ ok c
    | some helm ↦
        if all_bound (effective_env env c) components
        then render_release env c helm components
        else err (record { kind = shared_not_ready; text = "shared instance not ready" })
  ]
