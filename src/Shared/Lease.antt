-- ===== src/Shared/Lease.antt =====
-- internal/controller/shared.go: the lease under which consumers of a shared component are admitted
-- and drained.
pub mod Held
use petri_operator.Prelude.{ℕ, ◌+◌, ◌*◌, String, Bool, Option, none, some, ltb, if◌then◌else◌}
use Prim.Native.String.{◌++◌}
use petri_operator.Prelude.Effects.{
  Result, ok, err, M, pure, fail, attempt, give, ◌>>=◌, ◌>>◌, is_not_found, is_already_exists,
}
use petri_operator.Cluster.{Log, Api, read_clock}
use petri_operator.Cluster
use petri_operator.Cluster.Objects.{read_lease, make_lease, remove_lease}

abbrev pub lease_name : String → String
lease_name sc_name = "petri-provision-" ++ sc_name

-- The lease that is asked for at the time `now`, for 30 seconds.
abbrev pub new_lease : String → String → String → ℕ → Cluster.Lease
new_lease sc_name sc_namespace holder now = record {
  namespace = sc_namespace;
  name = lease_name sc_name;
  uid = "";
  resource_version = "";
  holder = holder;
  duration_seconds = some 30;
  renew_time = some now;
}

-- The time after which a lease is free; none for a lease without a time or a duration.
abbrev pub expiry_of : Cluster.Lease → Option ℕ
expiry_of l = elim l.duration_seconds [
  | none ↦ none
  | some d ↦ elim l.renew_time [ none ↦ none | some t ↦ some (t + d * 1000000000) ]
]

module _ (api : Api) where
  create : Cluster.Lease → M Log (Option Cluster.Lease)
  create lease = do
    made ← attempt (make_lease api lease)
    elim made [ ok l ↦ pure (some l) | err e ↦ if is_already_exists e then pure none else fail e ]

  -- A lease was found: once it has expired, it is deleted and the new one created.
  replace : Cluster.Lease → Cluster.Lease → M Log (Option Cluster.Lease)
  unfolding create
  replace existing lease = elim (expiry_of existing) [
    | none ↦ pure none
    | some expiry ↦ do
      now ← read_clock api
      let retire = do
        removed ← attempt (
            remove_lease api existing.namespace existing.name existing.uid
              existing.resource_version)
        elim removed [
          | ok _ ↦ create lease
          | err e ↦ if is_not_found e then create lease else fail e
        ]
      if ltb expiry now then retire else pure none
  ]

  -- `acquireProvisionLease`; none if another holds the lease.
  unfoldable pub acquire_provision_lease :
      (live : Bool) (sc_name sc_namespace holder : String) → M Log (Option Cluster.Lease)
  unfolding create replace
  acquire_provision_lease live sc_name sc_namespace holder = do
    now ← read_clock api
    let lease = new_lease sc_name sc_namespace holder now
    answer ← attempt (read_lease api live sc_namespace (lease_name sc_name))
    elim answer [
      | ok existing ↦ replace existing lease
      | err e ↦ if is_not_found e then create lease else fail e
    ]

  -- `releaseProvisionLease`, which ignores errors: the lease expires.
  unfoldable pub release_provision_lease : Cluster.Lease → M Log (Unit {0})
  release_provision_lease l = do
    _ ← attempt (remove_lease api l.namespace l.name l.uid l.resource_version)
    pure tt

  -- A body that runs under the lease, with the deferred release; `busy` if another holds it.
  unfoldable pub with_lease :
      {A : Type 0} → M Log (Option Cluster.Lease) → M Log A → M Log A → M Log A
  unfolding release_provision_lease
  with_lease acquire busy body = do
    lease ← acquire
    elim lease [
      | none ↦ busy
      | some l ↦ do answer ← attempt body; release_provision_lease l; give answer
    ]
