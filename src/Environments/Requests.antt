-- ===== src/Environments/Requests.antt =====
-- internal/controller/ephemeralenvironment_controller.go: `Reconcile`, which serves one request for
-- an environment.
use petri_operator.Prelude.{ℕ, String, not, List, if◌then◌else◌, ℤ}
use petri_operator.Prelude.Effects.{ok, err, M, pure, attempt, give, ◌>>=◌, ◌>>◌, ignore_not_found}
use petri_operator.Types.{ComponentSpec, Environment}
use petri_operator.Cluster.{Log, Api, read_environment, write_finalizers}
use petri_operator.Platform.{Platform}
use petri_operator.Status.{PhaseMap}
use petri_operator.Namespaces.{World, Reconciler}
use petri_operator.Environments.{finalizer}
use petri_operator.Environments.Teardown.{Cleanup, reconcile_delete}
use petri_operator.Environments.Reconcile.{reconcile}

-- Runs a handler on an object in memory, which is dropped at the end.
abbrev on : {A : Type 0} → Environment → M World A → M Log A
on env m log = let (r, w) = m (record { log = log; env = env }) in (r, w.log)

module _ (api : Api) (p : Platform) (r : Reconciler) (default_timeout : ℤ)
    (process : String → List ComponentSpec → PhaseMap → ℤ → M World ℕ) (cleanup : Cleanup) where
  protect : Environment → M Log ℕ
  protect env = do
    write_finalizers api env.namespace env.name (p.add_finalizer env.finalizers finalizer)
    pure 0

  serve : Environment → M Log ℕ
  unfolding protect
  serve env =
      if env.deleting
      then on env (reconcile_delete api p r cleanup)
      else if not (p.contains_finalizer env.finalizers finalizer)
      then protect env
      else on env (reconcile api p r default_timeout process)

  pub reconcile_request : String → String → M Log ℕ
  unfolding serve
  reconcile_request namespace name = do
    answer ← attempt (read_environment api namespace name)
    elim answer [ err e ↦ give (ignore_not_found 0 (err e)) | ok env ↦ serve env ]
