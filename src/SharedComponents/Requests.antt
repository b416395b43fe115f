-- ===== src/SharedComponents/Requests.antt =====
-- internal/controller/sharedcomponent_controller.go: `Reconcile`, which serves one request for a
-- shared component.
use petri_operator.Prelude.{ℕ, String, Bool, false, not, if◌then◌else◌}
use petri_operator.Prelude.Effects.{ok, err, M, pure, attempt, give, ◌>>=◌, ◌>>◌, ignore_not_found}
use petri_operator.Types.Shared.{SharedComponent}
use petri_operator.Cluster.{Log, Api}
use petri_operator.Cluster.Objects.{read_shared, write_shared}
use petri_operator.Platform.{Platform}
use petri_operator.Deploys.{Deployer}
use petri_operator.SharedComponents.{shared_finalizer}
use petri_operator.SharedComponents.Reconcile.{SharedWorld, reconcile}
use petri_operator.SharedComponents.Teardown.{reconcile_delete}

module _ (api : Api) (p : Platform) (live : Bool) (service_account : String)
    (deployer : Deployer) where
  -- Runs a handler on an object in memory, which is dropped at the end.
  abbrev on : SharedComponent → M SharedWorld ℕ → M Log ℕ
  on sc m log = let (r, w) = m (record { log = log; sc = sc }) in (r, w.log)

  protect : SharedComponent → M Log ℕ
  protect sc = do
    write_shared api (record sc { finalizers = p.add_finalizer sc.finalizers shared_finalizer })
    pure 0

  serve : SharedComponent → M Log ℕ
  unfolding protect
  serve sc =
      if sc.deleting
      then reconcile_delete api p live deployer sc
      else if not (p.contains_finalizer sc.finalizers shared_finalizer)
      then protect sc
      else on sc (reconcile api p live service_account deployer)

  pub reconcile_request : String → String → M Log ℕ
  unfolding serve
  reconcile_request namespace name = do
    answer ← attempt (read_shared api false namespace name)
    elim answer [ err e ↦ give (ignore_not_found 0 (err e)) | ok sc ↦ serve sc ]
