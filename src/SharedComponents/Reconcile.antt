-- ===== src/SharedComponents/Reconcile.antt =====
-- internal/controller/sharedcomponent_controller.go: `reconcile`, which deploys the instance of a
-- shared component and reports its state.
pub mod Ready
use petri_operator.Prelude.{
  ℕ, String, Bool, true, false, Option, none, some, List, ◌∷◌, if◌then◌else◌,
}
use Prim.Native.String.{◌++◌}
use petri_operator.Prelude.Effects.{
  Result, ok, err, M, pure, fail, attempt, give, ◌>>=◌, ◌>>◌, is_not_found, ignore_not_found,
}
use petri_operator.Types.{HelmSpec, zero_component}
use petri_operator.Types.Shared.{SharedComponent, SharedComponentStatus, ProviderSpec}
use petri_operator.Cluster.{Log, Api}
use petri_operator.Cluster.Objects.{read_provider, write_shared_status}
use petri_operator.Platform.{Platform}
use petri_operator.Jobs.{DeployOptions, JobPhase, JobState, is_phase}
use petri_operator.Jobs.Provisioner.{shared_namespace}
use petri_operator.Status.{requeue_after}
use petri_operator.Environments.{join}
use petri_operator.Deploys.{Deployer}
use petri_operator.SharedComponents.{release_opts, count_consumers}
use petri_operator.SharedComponents.Instance.{create_shared_namespace, ensure_instance_secret}

-- The API's log and the object that the code changes through a pointer.
pub record SharedWorld : Type 0 where
  pub log : Log
  pub sc : SharedComponent

abbrev pub call : {A : Type 0} → M Log A → M SharedWorld A
call m w = let (r, log) = m w.log in (r, record w { log = log })

abbrev pub get_sc : M SharedWorld SharedComponent
get_sc w = (ok w.sc, w)

-- A change of sc.Status.
abbrev pub set_status : (SharedComponentStatus → SharedComponentStatus) → M SharedWorld (Unit {0})
set_status f w = (ok tt, record w { sc = let sc = w.sc in record sc { status = f sc.status } })

-- The options with the provider's chart.
abbrev pub install_opts : SharedComponent → HelmSpec → DeployOptions
install_opts sc helm = record (release_opts sc) {
  component = record zero_component { name = sc.name; helm = some helm };
}

module _ (api : Api) (p : Platform) (live : Bool) (service_account : String)
    (deployer : Deployer) where
  -- sc.Status.Ready with the condition that explains it.
  abbrev mark : Bool → String → String → M SharedWorld (Unit {0})
  mark ready reason message = do
    sc ← get_sc
    set_status (λ s. record s {
      ready = ready;
      conditions = p.set_condition s.conditions (record {
        type = "Ready";
        is_true = ready;
        reason = reason;
        message = message;
        observed_generation = sc.generation;
      });
    })

  abbrev wait : Bool → String → String → M SharedWorld ℕ
  wait ready reason message = do mark ready reason message; pure requeue_after

  report : DeployOptions → SharedComponent → JobState → M SharedWorld ℕ
  unfolding count_consumers
  report opts sc st = elim st.phase [
    | JobPhase.pending ↦ do
      mark false "Deploying" "shared instance deployment in progress"
      call (deployer.submit opts)
      pure requeue_after
    | JobPhase.running ↦ wait false "Deploying" "shared instance deployment in progress"
    | JobPhase.failed ↦ do
      mark false "Deploying" "shared instance deployment in progress"
      mark false "DeployFailed" st.reason
      call (deployer.submit opts)
      pure requeue_after
    | JobPhase.succeeded ↦ do
      mark true "InstanceReady" "shared instance deployed"
      consumers ← call (count_consumers api live sc.name)
      set_status (λ s. record s { consumers = consumers })
      pure requeue_after
  ]

  deploy : SharedComponent → ProviderSpec → HelmSpec → M SharedWorld ℕ
  unfolding report
  deploy sc scp helm = do
    call (create_shared_namespace api service_account shared_namespace)
    call (ensure_instance_secret api scp.instance_secret)
    st ← call (deployer.observe (install_opts sc helm))
    report (install_opts sc helm) sc st

  -- Up to the deferred patch.
  unfoldable pub body : M SharedWorld ℕ
  unfolding deploy
  body = do
    sc ← get_sc
    found ← attempt (call (read_provider api sc.namespace sc.spec.provider))
    elim found [
      | err e ↦
          if is_not_found e
          then wait false "ProviderNotFound" ("provider" ++ (sc.spec.provider ++ " not found"))
          else fail e
      | ok scp ↦ elim scp.helm [
        | none ↦ wait false "ProviderNoHelm" ("no helm provided for " ++ sc.spec.provider)
        | some helm ↦ deploy sc scp helm
      ]
    ]

  -- `StatusPatcher.Patch`
  abbrev pub patch : SharedComponent → M SharedWorld (Unit {0})
  patch original = do
    sc ← get_sc
    let send = do
      sent ← attempt (call (write_shared_status api sc))
      give (ignore_not_found tt sent)
    if p.shared_equal original sc then pure tt else send

  unfoldable pub reconcile : M SharedWorld ℕ
  reconcile w = let (r, w1) = body w in let (sent, w2) = patch w.sc w1 in (join r sent, w2)
