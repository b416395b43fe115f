-- ===== src/Namespaces/Samples.antt =====
-- The namespace of an environment, missing and existing.
use petri_operator.Prelude.{ℕ, ◌≡◌, ◌≢◌, ◌⊎◌, refl, arith, eq_iff, []}
use petri_operator.Prelude.Effects.{Result, ok}
use petri_operator.Cluster.{Log, Api}
use petri_operator.Jobs.{take}
use petri_operator.Namespaces.{
  owns_namespace, allocate_loop, allocate_namespace, is_candidate, target_namespace,
  create_namespace, adopt, ensure_deployer_role_binding,
}
use petri_operator.Namespaces.Allocation.{
  Finds, outcome, retarget, allocate_namespace-Finds, allocate_namespace-target_namespace,
}
use petri_operator.Namespaces.Ownership.{IsSeen, IsCreated, create_namespace_ok}
use petri_operator.Fixtures.{empty_api, platform, reconciler, world, environment, own_namespace}

has_uid : environment.uid ≢ ""
has_uid = ground (arith, eq_iff "u1" "")

accepted : target_namespace empty_api platform reconciler environment ≡ ok "petri-env-01234567"
unfolding target_namespace is_candidate take
accepted = refl

allocate_namespace-Finds_example :
    (answer : Result ℕ) × ((log : Log) × Finds empty_api platform reconciler environment 8 [] answer
        log
      × (allocate_namespace empty_api platform reconciler 8 world ≡ (
        outcome empty_api platform reconciler answer,
        record world { log = log; env = retarget empty_api platform reconciler answer environment },
      )))
allocate_namespace-Finds_example =
    allocate_namespace-Finds empty_api platform reconciler 8 world has_uid

allocated : (allocate_namespace empty_api platform reconciler 8 world).0 ≡ ok tt
unfolding allocate_namespace allocate_loop take
allocated = refl

allocate_namespace-target_namespace_example :
    let env = (allocate_namespace empty_api platform reconciler 8 world).1.env in
    target_namespace empty_api platform reconciler env ≡ ok env.status.target_namespace
allocate_namespace-target_namespace_example =
    allocate_namespace-target_namespace empty_api platform reconciler 8 world has_uid (omega arith)
      refl allocated

-- The environment's own namespace exists.
abbrev owned_api : Api
owned_api = record empty_api { namespace_at = λ live name log. ok own_namespace }

held : (create_namespace owned_api platform reconciler environment []).0 ≡ ok tt
unfolding create_namespace adopt ensure_deployer_role_binding owns_namespace
held = refl

create_namespace_ok_example :
    IsSeen owned_api platform reconciler environment []
    ⊎ IsCreated owned_api platform reconciler environment []
create_namespace_ok_example = create_namespace_ok owned_api platform reconciler environment [] held
