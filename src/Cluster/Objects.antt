-- ===== src/Cluster/Objects.antt =====
-- The calls of the API on leases, secrets and shared components, and what the controllers take from
-- the context and from the source of randomness.
use petri_operator.Prelude.{ℕ, String, Bool, List, ◌∷◌, Map}
use petri_operator.Prelude.Effects.{M}
use petri_operator.Types.{Namespace}
use petri_operator.Types.Shared.{ProviderSpec, SharedComponent}
use petri_operator.Cluster

module _ (api : Cluster.Api) where
  abbrev pub read_lease : (live : Bool) (namespace name : String) → M Cluster.Log Cluster.Lease
  read_lease live namespace name log =
      (api.lease_at live namespace name log, Cluster.get_lease live namespace name ∷ log)

  -- The answer is the lease with the UID and the resource version that the server gave it.
  abbrev pub make_lease : Cluster.Lease → M Cluster.Log Cluster.Lease
  make_lease lease log = (api.lease_created lease log, Cluster.create_lease lease ∷ log)

  -- Delete with the preconditions that the object has this UID and this resource version.
  abbrev pub remove_lease :
      (namespace name uid resource_version : String) → M Cluster.Log (Unit {0})
  remove_lease namespace name uid resource_version log = (
    api.lease_deleted namespace name uid resource_version log,
    Cluster.delete_lease namespace name uid resource_version ∷ log,
  )

  abbrev pub read_shared : (live : Bool) (namespace name : String) → M Cluster.Log SharedComponent
  read_shared live namespace name log =
      (api.shared_at live namespace name log, Cluster.get_shared live namespace name ∷ log)

  abbrev pub read_provider : (namespace name : String) → M Cluster.Log ProviderSpec
  read_provider namespace name log =
      (api.provider_at namespace name log, Cluster.get_provider namespace name ∷ log)

  abbrev pub read_labelled : (live : Bool) (label : String) → M Cluster.Log (List Namespace)
  read_labelled live label log =
      (api.labelled_of live label log, Cluster.list_labelled live label ∷ log)

  -- A merge patch of the labels with an optimistic lock.
  abbrev pub write_labels : Namespace → M Cluster.Log (Unit {0})
  write_labels ns log = (api.labels_patched ns log, Cluster.patch_labels ns ∷ log)

  abbrev pub read_secret : (namespace name : String) → M Cluster.Log (Map String)
  read_secret namespace name log =
      (api.secret_at namespace name log, Cluster.get_secret namespace name ∷ log)

  abbrev pub make_secret : (namespace name : String) → Map String → M Cluster.Log (Unit {0})
  make_secret namespace name entries log = (
    api.secret_created namespace name entries log,
    Cluster.create_secret namespace name entries ∷ log,
  )

  abbrev pub write_secret : (namespace name : String) → Map String → M Cluster.Log (Unit {0})
  write_secret namespace name entries log = (
    api.secret_updated namespace name entries log,
    Cluster.update_secret namespace name entries ∷ log,
  )

  abbrev pub remove_secret : (namespace name : String) → M Cluster.Log (Unit {0})
  remove_secret namespace name log =
      (api.secret_deleted namespace name log, Cluster.delete_secret namespace name ∷ log)

  -- A merge patch of the metadata: the finalizers and the annotations of the object.
  abbrev pub write_shared : SharedComponent → M Cluster.Log (Unit {0})
  write_shared sc log = (api.shared_patched sc log, Cluster.patch_shared sc ∷ log)

  abbrev pub write_shared_status : SharedComponent → M Cluster.Log (Unit {0})
  write_shared_status sc log =
      (api.shared_status_patched sc log, Cluster.patch_shared_status sc ∷ log)

  -- rand.Int: a number below the bound.
  abbrev pub draw : (bound : ℕ) → M Cluster.Log ℕ
  draw bound log = (api.random_at bound log, Cluster.random bound ∷ log)

  -- ctx.Err(), of a context with a time limit.
  abbrev pub check_context : M Cluster.Log (Unit {0})
  check_context log = (api.context_at log, log)
