-- ===== src/Shared/Provision.antt =====
-- internal/controller/shared.go: the credentials that an environment has at a shared component:
-- `submitShared`, `observeShared`, `bindingComponents` and what they call.
pub mod Options
unfoldable pub use Options.*
use petri_operator.Prelude.{
  String, Bool, true, false, Option, none, some, List, [], ◌∷◌, if◌then◌else◌, ◌==◌, pos, Map, put,
  at, empty,
}
use Prim.Native.String.{◌++◌}
use petri_operator.Prelude.Effects.{
  Result, ok, err, M, pure, fail, attempt, give, ◌>>=◌, ◌>>◌, is_not_found, ignore_not_found,
}
use petri_operator.Types.{
  Environment, EnvironmentTemplate, ComponentSpec, ComponentPhase, JobScript,
}
use petri_operator.Types.Shared.{SharedComponent, ProviderSpec, InstanceSecret, Binding, validate}
use petri_operator.Cluster.{Log, Api}
use petri_operator.Cluster.Objects.{
  read_shared, read_provider, read_secret, make_secret, write_secret, remove_secret,
}
use petri_operator.Platform.{Platform}
use petri_operator.Jobs.{JobPhase, JobState}
use petri_operator.Jobs.Provisioner.{
  ProvisionOptions, JobProvisioner, shared_namespace, provision_job_name, submit_provision,
  submit_deprovision, observe_provision, observe_deprovision,
}
use petri_operator.SecretGen.{random_text}
use petri_operator.Renderer.{Engine, Vars, env_vars_for, render, render_map}
use petri_operator.Status.{set_component_phase, reset_component_failure}
use petri_operator.Namespaces.{World, call, get_env, quoted}
use petri_operator.Environments.{set_failed}
use petri_operator.Deploys.{set_components, record_failure}
use petri_operator.Deploys.Process.{Bindings}
use petri_operator.Shared.{generated_secret_key}
use petri_operator.Shared.Consumers.{register_consumer}

-- internal/provisioner/provisioner.go: the interface that `JobProvisioner` implements.
pub record Provisioner : Type 0 where
  pub submit : ProvisionOptions → M Log (Unit {0})
  pub observe : ProvisionOptions → M Log JobState
  pub submit_undo : ProvisionOptions → M Log (Unit {0})
  pub observe_undo : ProvisionOptions → M Log JobState

abbrev pub job_provisioner :
    Api → (String → String) → (ProvisionOptions → Result String) → JobProvisioner → Provisioner
job_provisioner api hex_digest marshal j = record {
  submit = submit_provision api hex_digest marshal j;
  observe = observe_provision api hex_digest marshal j;
  submit_undo = submit_deprovision api hex_digest marshal j;
  observe_undo = observe_deprovision api hex_digest marshal j;
}

-- fmt.Errorf with the verb %w at the end.
abbrev pub within : {S A : Type 0} → String → M S A → M S A
within prefix m = do
  r ← attempt m
  elim r [ ok a ↦ pure a | err e ↦ fail (record e { text = prefix ++ e.text }) ]

module _ (api : Api) where
  unfoldable pub delete_secret : (name namespace : String) → M Log (Unit {0})
  delete_secret name namespace = do
    removed ← attempt (remove_secret api namespace name)
    give (ignore_not_found tt removed)

  unfoldable pub ensure_provision_secret : (name env_name generated : String) → M Log (Unit {0})
  ensure_provision_secret name env_name generated = do
    let entries = put "PETRI_GENERATED_SECRET" generated (put "PETRI_ENV_NAME" env_name empty)
    existing ← attempt (read_secret api shared_namespace name)
    elim existing [
      | err e ↦ if is_not_found e then make_secret api shared_namespace name entries else fail e
      | ok _ ↦ write_secret api shared_namespace name entries
    ]

  -- The keys of the instance secret, where the provider has one.
  unfoldable pub read_instance : Option InstanceSecret → M Log (Map String)
  read_instance none = pure empty
  read_instance (some s) = read_secret api shared_namespace s.name

  -- The binding secret of an own component is skipped, as is one that is not there yet.
  unfoldable pub collect : Environment → String → List ComponentSpec → M Log Bindings
  collect env target_ns [] = pure empty
  collect env target_ns (c ∷ cs) =
      let rest = collect env target_ns cs in
      let read = do
        found ← attempt (read_secret api target_ns (binding_name env c.name))
        elim found [
          | err e ↦ if is_not_found e then rest else fail e
          | ok entries ↦ do
            out ← rest
            pure (λ name. elim (out name) [
              | some m ↦ some m
              | none ↦ if c.name == name then some (offered entries) else none
            ])
        ]
      in if c.shared_component_ref == "" then rest else read

  pub binding_components : Environment → String → EnvironmentTemplate → M Log Bindings
  unfolding collect
  binding_components env target_ns template = collect env target_ns template.components

module _ (api : Api) (live : Bool) (hex_digest : String → String) (engine : Engine)
    (provisioner : Provisioner) where
  -- A new binding secret with a generated secret.
  make_binding : Environment → String → ComponentSpec → Option Binding → Map String → M Log String
  unfolding binding_data
  make_binding env target_ns c binding instance_keys = do
    generated ← random_text api (pos 24) "alphanumeric"
    let vars : Vars = record {
      env = env_vars_for env.name generated;
      components = empty;
      instance_keys = instance_keys;
    }
    entries ← give (binding_data engine binding generated vars)
    within "create binding secret: " (make_secret api target_ns (binding_name env c.name) entries)
    pure generated

  -- The generated secret, which is never replaced.
  ensure_binding :
      Environment
      → String
      → ComponentSpec
      → Option Binding
      → Result (Map String)
      → Map String
      → M Log String
  unfolding make_binding
  ensure_binding env target_ns c binding (ok entries) instance_keys =
      pure (at "" entries generated_secret_key)
  ensure_binding env target_ns c binding (err e) instance_keys =
      make_binding env target_ns c binding instance_keys

  -- A failed read of the binding secret, other than that it is missing, is an error.
  abbrev check_found : Result (Map String) → M Log (Unit {0})
  check_found (ok entries) = pure tt
  check_found (err e) =
      if is_not_found e
      then pure tt
      else fail (record e { text = "get binding secret: " ++ e.text })

  run_script :
      Environment
      → ComponentSpec
      → SharedComponent
      → Option JobScript
      → String
      → Map String
      → M Log ComponentPhase
  unfolding render_provision_options ensure_provision_secret
  run_script env c sc none generated instance_keys = pure ComponentPhase.ready
  run_script env c sc (some script) generated instance_keys = do
    within "invalid provision script: " (give (validate script))
    ensure_provision_secret api (credentials_name hex_digest env c.name) env.name generated
    opts ← give (render_provision_options hex_digest engine env c sc script generated instance_keys)
    provisioner.submit opts
    pure ComponentPhase.submitting

  pub submit_shared : Environment → String → ComponentSpec → M Log ComponentPhase
  unfolding register_consumer read_instance ensure_binding run_script
  submit_shared env target_ns c = do
    sc ← register_consumer api live env target_ns env.namespace c.shared_component_ref
    scp ←
        within ("get provider " ++ (quoted sc.spec.provider ++ ": "))
          (read_provider api env.namespace sc.spec.provider)
    found ← attempt (read_secret api target_ns (binding_name env c.name))
    check_found found
    instance_keys ← read_instance api scp.instance_secret
    generated ← ensure_binding env target_ns c scp.binding found instance_keys
    run_script env c sc scp.provision generated instance_keys

module _ (api : Api) (p : Platform) (engine : Engine) (provisioner : Provisioner) where
  abbrev set_phase : String → ComponentPhase → M World (Unit {0})
  set_phase name phase = set_components (set_component_phase name phase)

  judge : ComponentSpec → ProvisionOptions → JobState → M World Bool
  unfolding delete_secret
  judge c opts st = elim st.phase [
    | JobPhase.pending ↦ do set_phase c.name ComponentPhase.pending; pure false
    | JobPhase.running ↦ pure false
    | JobPhase.succeeded ↦ do
      call (delete_secret api opts.provisioner_secret_ref shared_namespace)
      set_phase c.name ComponentPhase.ready
      set_components (reset_component_failure c.name)
      pure true
    | JobPhase.failed ↦ do
      exhausted ← record_failure c.name ("provision: " ++ st.reason)
      let give_up = do
        set_phase c.name ComponentPhase.failed
        set_failed api p "ProvisionFailed" (c.name ++ (": " ++ st.reason))
        pure false
      if exhausted then give_up else pure false
  ]

  observe_script :
      Environment → ComponentSpec → SharedComponent → ProviderSpec → JobScript → M World Bool
  unfolding read_instance render_provision_options judge
  observe_script env c sc scp script = do
    entries ← call (read_secret api env.status.target_namespace (binding_name env c.name))
    instance_keys ← call (read_instance api scp.instance_secret)
    opts ← give (
        render_provision_options p.hex_digest engine env c sc script
          (at "" entries generated_secret_key) instance_keys)
    st ← call (provisioner.observe opts)
    judge c opts st

  pub observe_shared : ComponentSpec → M World Bool
  unfolding observe_script
  observe_shared c = do
    env ← get_env
    sc ← call (read_shared api false env.namespace c.shared_component_ref)
    scp ← call (read_provider api env.namespace sc.spec.provider)
    elim scp.provision [
      | none ↦ do set_phase c.name ComponentPhase.pending; pure false
      | some script ↦ observe_script env c sc scp script
    ]
