-- ===== src/Shared/Provision/Options.antt =====
-- internal/controller/shared.go: the names and the rendered texts of an environment's credentials.
use petri_operator.Prelude.{
  String, Option, none, some, List, [], ◌∷◌, if◌then◌else◌, ◌==◌, Map, put, empty, ◌≡◌, sym, ap,
  arith, inl, inr,
}
use Prim.Native.String.{◌++◌}
use petri_operator.Prelude.Effects.{Result, ok, err, Result-cases, ok-injective}
use petri_operator.Types.{Environment, ComponentSpec, JobScript}
use petri_operator.Types.Shared.{SharedComponent, Binding, validate}
use petri_operator.Jobs.Provisioner.{ProvisionOptions, provision_job_name}
use petri_operator.Renderer.{Engine, Vars, env_vars_for, render, render_map}
use petri_operator.Shared.{generated_secret_key}

abbrev pub binding_name : Environment → String → String
binding_name env component = env.name ++ ("-" ++ (component ++ "-binding"))

abbrev pub credentials_name : (hex_digest : String → String) → Environment → String → String
credentials_name hex_digest env component =
    provision_job_name hex_digest env.name component ++ "-credentials"

abbrev and_then : {A B : Type 0} → Result A → (A → Result B) → Result B
and_then (ok a) f = f a
and_then (err e) f = err e

render_commands : Engine → List String → Vars → Result (List String)
render_commands engine [] vars = ok []
render_commands engine (c ∷ cs) vars =
    and_then (render engine c vars)
      (λ c'. and_then (render_commands engine cs vars) (λ cs'. ok (c' ∷ cs')))

unfoldable pub render_provision_options :
    (hex_digest : String → String)
    → Engine
    → Environment
    → ComponentSpec
    → SharedComponent
    → JobScript
    → String
    → Map String
    → Result ProvisionOptions
unfolding render_commands
render_provision_options hex_digest engine env c sc script generated instance_keys =
    let vars : Vars = record {
      env = env_vars_for env.name generated;
      components = empty;
      instance_keys = instance_keys;
    } in
    and_then (validate script) (λ _. and_then (render engine script.script vars) (λ text.
      and_then (render_commands engine script.command vars) (λ command. ok (record {
        env_uid = env.uid;
        env_name = env.name;
        component_name = c.name;
        shared_name = sc.name;
        script = record script { script = text; command = command };
        provisioner_secret_ref = credentials_name hex_digest env c.name;
      }))))

-- The options are those of the environment, the component and the shared component.
pub render_provision_options_ok :
    (hex_digest : String → String) (engine : Engine) (env : Environment) (c : ComponentSpec)
    (sc : SharedComponent) (script : JobScript) (generated : String) (instance_keys : Map String)
    (opts : ProvisionOptions)
    → render_provision_options hex_digest engine env c sc script generated instance_keys ≡ ok opts
    → (opts.env_uid ≡ env.uid)
      × (opts.env_name ≡ env.name)
      × (opts.component_name ≡ c.name)
      × (opts.shared_name ≡ sc.name)
unfolding render_provision_options
render_provision_options_ok hex_digest engine env c sc script generated instance_keys opts h =
    let vars : Vars = record {
      env = env_vars_for env.name generated;
      components = empty;
      instance_keys = instance_keys;
    } in
    elim (Result-cases (validate script)) [
      | inr (x, e) ↦ absurd (ground (arith, rw e at h))
      | inl (_, e) ↦ elim (Result-cases (render engine script.script vars)) [
        | inr (x, f) ↦ absurd (ground (arith, rw (e, f) at h))
        | inl (text, f) ↦ elim (Result-cases (render_commands engine script.command vars)) [
          | inr (x, g) ↦ absurd (ground (arith, rw (e, f, g) at h))
          | inl (command, g) ↦
              let same = sym (ok-injective (rw (e, f, g) at h)) in
              (
                ap (λ o. o.env_uid) same,
                ap (λ o. o.env_name) same,
                ap (λ o. o.component_name) same,
                ap (λ o. o.shared_name) same,
              )
        ]
      ]
    ]

-- m[k] = v for each of the entries.
abbrev pub put_all : List (String × String) → Map String → Map String
put_all [] m = m
put_all ((k, v) ∷ entries) m = put_all entries (put k v m)

unfoldable pub binding_data : Engine → Option Binding → String → Vars → Result (Map String)
binding_data engine none generated vars = ok (put generated_secret_key generated empty)
binding_data engine (some b) generated vars = elim (render_map engine b.secret_keys vars) [
  | ok entries ↦ ok (put_all entries (put generated_secret_key generated empty))
  | err e ↦ err (record e { text = "render binding keys: " ++ e.text })
]

-- The keys that a binding secret offers to the other components.
abbrev pub offered : Map String → Map String
offered entries k = if k == generated_secret_key then none else entries k
