-- ===== src/Shared/Consumers.antt =====
-- internal/controller/shared.go: `registerConsumer`, which labels the namespace of an environment
-- as a consumer of a shared component.
pub mod Admission
use petri_operator.Prelude.{
  ℕ, zero, suc, String, Bool, true, false, not, ◌||◌, List, leb, if◌then◌else◌, ◌==◌, ℤ, pos,
  negsuc, length,
}
use petri_operator.Prelude.Effects.{
  shared_not_ready, at_capacity, Kind, Result, ok, err, M, pure, fail, ◌>>=◌, ◌>>◌,
}
use petri_operator.Types.{Environment, Namespace}
use petri_operator.Types.Shared.{SharedComponent}
use petri_operator.Cluster.{Log, Api, label, set_label, read_namespace}
use petri_operator.Cluster.Objects.{read_shared, read_labelled, write_labels, check_context}
use petri_operator.Shared.{shared_label}
use petri_operator.Shared.Lease.{acquire_provision_lease, with_lease}

abbrev pub not_ready : {S A : Type 0} → M S A
not_ready = fail (record { kind = shared_not_ready; text = "shared instance not ready" })

abbrev pub full : {S A : Type 0} → M S A
full = fail (record { kind = at_capacity; text = "shared component at capacity" })

-- The shared component takes no consumers.
abbrev pub is_closed : SharedComponent → Bool
is_closed sc = sc.deleting || not sc.status.ready

module _ (api : Api) (live : Bool) where
  pub is_consumer : (target_ns shared_name : String) → M Log Bool
  is_consumer target_ns shared_name = do
    ns ← read_namespace api live target_ns
    pure (label (shared_label shared_name) ns.labels == "true")

  abbrev labelled : Namespace → String → Namespace
  labelled ns shared_name = record ns {
    labels = set_label (shared_label shared_name) "true" ns.labels;
  }

  pub label_consumer : (target_ns shared_name : String) → M Log (Unit {0})
  label_consumer target_ns shared_name = do
    ns ← read_namespace api live target_ns
    if label (shared_label shared_name) ns.labels == "true"
        then pure tt
        else write_labels api (labelled ns shared_name)

  -- The test of the limit, of which zero and less are none.
  pub check_capacity : (target_ns shared_name : String) → ℤ → M Log (Unit {0})
  unfolding is_consumer
  check_capacity target_ns shared_name (pos zero) = pure tt
  check_capacity target_ns shared_name (negsuc n) = pure tt
  check_capacity target_ns shared_name (pos (suc n)) = do
    already ← is_consumer target_ns shared_name
    let count = do
      consumers ← read_labelled api live (shared_label shared_name)
      if leb (suc n) (length consumers) then full else pure tt
    if already then pure tt else count

  -- What runs under the lease; the answer is the shared component as it was read last.
  unfoldable pub admit : (target_ns namespace name : String) → M Log SharedComponent
  unfolding check_capacity label_consumer
  admit target_ns namespace name = do
    sc ← read_shared api live namespace name
    let register = do
      check_capacity target_ns sc.name sc.spec.max_consumers
      label_consumer target_ns sc.name
      again ← read_shared api live namespace name
      if not (again.uid == sc.uid) || is_closed again
          then not_ready
          else (do check_context api; pure again)
    if is_closed sc then not_ready else register

  unfoldable pub register_consumer :
      Environment → (target_ns namespace name : String) → M Log SharedComponent
  unfolding acquire_provision_lease with_lease admit
  register_consumer env target_ns namespace name =
      with_lease api (acquire_provision_lease api live name namespace env.name) not_ready
        (admit target_ns namespace name)
