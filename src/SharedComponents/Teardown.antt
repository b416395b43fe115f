-- ===== src/SharedComponents/Teardown.antt =====
-- internal/controller/sharedcomponent_controller.go: `reconcileDelete`, which takes down the
-- instance of a shared component without consumers.
pub mod Grounds
mod Quiet
use petri_operator.Prelude.{
  ℕ, String, Bool, true, false, not, ◌||◌, Option, none, some, List, leb, if◌then◌else◌, ◌==◌, ℤ,
  suc_ℤ, at_least, to_i32,
}
use petri_operator.Prelude.Text.{show_int}
use petri_operator.Prelude.Effects.{
  Result, ok, err, M, pure, fail, attempt, ◌>>=◌, ◌>>◌, is_not_found,
}
use petri_operator.Types.Shared.{SharedComponent}
use petri_operator.Cluster.{Log, Api, Job, label, set_label, read_job}
use petri_operator.Cluster.Objects.{read_shared, write_shared, check_context}
use petri_operator.Platform.{Platform}
use petri_operator.Jobs.{
  DeployOptions, JobPhase, JobState, is_phase, terminal_phase, release_job_name, Op,
}
use petri_operator.Jobs.Provisioner.{shared_namespace}
use petri_operator.Status.{requeue_after, max_deploy_retries}
use petri_operator.Deploys.{Deployer}
use petri_operator.Shared.Lease.{acquire_provision_lease, with_lease}
use petri_operator.SharedComponents.{
  shared_finalizer, uninstall_retries, release_opts, count_consumers,
}

-- The component without its finalizer.
abbrev pub unprotected : Platform → SharedComponent → SharedComponent
unprotected p sc = record sc { finalizers = p.remove_finalizer sc.finalizers shared_finalizer }

-- The component with the number of failed uninstalls in its annotation.
abbrev pub annotated : SharedComponent → ℤ → SharedComponent
annotated sc retries = record sc {
  annotations = set_label uninstall_retries (show_int retries) sc.annotations;
}

abbrev pub retries_of : Platform → SharedComponent → ℤ
retries_of p sc = p.parse_int32 (label uninstall_retries sc.annotations)

abbrev pub uninstall_opts : Platform → SharedComponent → DeployOptions
uninstall_opts p sc = record (release_opts sc) { attempt = to_i32 (retries_of p sc) }

module _ (api : Api) (p : Platform) (live : Bool) (deployer : Deployer) where
  -- What runs under the lease; none if the component stays.
  drain : SharedComponent → M Log (Option SharedComponent)
  unfolding count_consumers
  drain sc = do
    again ← read_shared api live sc.namespace sc.name
    let count = do
      consumers ← count_consumers api live sc.name
      check_context api
      pure (if leb consumers 0 then some again else none)
    if not (again.uid == sc.uid) || not again.deleting then pure none else count

  -- `consumersDrained`, with the component as it was read under the lease.
  consumers_drained : SharedComponent → M Log (Option SharedComponent)
  unfolding acquire_provision_lease with_lease drain
  consumers_drained sc =
      with_lease api
        (acquire_provision_lease api live sc.name sc.namespace "shared-component-deletion")
        (pure none) (drain sc)

  release : SharedComponent → M Log ℕ
  release sc = do write_shared api (unprotected p sc); pure 0

  -- A failed uninstall: after the last of the retries the finalizer is removed all the same.
  count_failure : SharedComponent → M Log ℕ
  unfolding release
  count_failure sc =
      let retries = suc_ℤ (retries_of p sc) in
      let again : M Log ℕ = (do write_shared api (annotated sc retries); pure requeue_after) in
      if at_least max_deploy_retries retries then release sc else again

  judge : SharedComponent → JobState → M Log ℕ
  unfolding count_failure release
  judge sc st = elim st.phase [
    | JobPhase.pending ↦ do deployer.submit_undeploy (uninstall_opts p sc); pure requeue_after
    | JobPhase.running ↦ pure requeue_after
    | JobPhase.failed ↦ count_failure sc
    | JobPhase.succeeded ↦ release sc
  ]

  uninstall : SharedComponent → M Log ℕ
  unfolding judge
  uninstall sc = do st ← deployer.observe_undeploy (uninstall_opts p sc); judge sc st

  abbrev is_active : Job → Bool
  is_active job = job.deleting || is_phase (terminal_phase job) JobPhase.running

  abbrev pub deploy_job : SharedComponent → String
  deploy_job sc =
      release_job_name p.hex_digest Op.deploy (let opts = release_opts sc in opts.release_name)

  -- Nothing is uninstalled under a deploy Job that runs or goes away.
  tear_down : SharedComponent → M Log ℕ
  unfolding uninstall
  tear_down sc = do
    found ← attempt (read_job api live shared_namespace (deploy_job sc))
    elim found [
      | ok job ↦ if is_active job then pure requeue_after else uninstall sc
      | err e ↦ if is_not_found e then uninstall sc else fail e
    ]

  after_drain : Option SharedComponent → M Log ℕ
  unfolding tear_down
  after_drain none = pure requeue_after
  after_drain (some sc) = tear_down sc

  unfoldable pub reconcile_delete : SharedComponent → M Log ℕ
  unfolding consumers_drained after_drain
  reconcile_delete sc =
      if not (p.contains_finalizer sc.finalizers shared_finalizer)
      then pure 0
      else (do drained ← consumers_drained sc; after_drain drained)
