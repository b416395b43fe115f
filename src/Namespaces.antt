-- ===== src/Namespaces.antt =====
-- internal/controller/ephemeralenvironment_controller.go: the target namespace of an environment,
-- its choice, its creation and its ownership. `World` is the API's log and the environment object
-- that the code changes through a pointer.
pub mod Choice
pub mod Allocation
pub mod Ownership
mod Samples
use petri_operator.Prelude.{
  ℕ, zero, suc, ◌+◌, ◌-◌, String, Bool, true, false, not, ◌&&◌, Option, none, some, List, [], ◌∷◌,
  leb, if◌then◌else◌, ◌==◌,
}
use Prim.Native.String.{◌++◌, count}
use petri_operator.Prelude.Effects.{
  Err, other, namespace_not_managed, Result, ok, err, M, pure, fail, attempt, give, ◌>>=◌, ◌>>◌,
  is_not_found, is_already_exists,
}
use petri_operator.Types.{Environment, EnvironmentStatus, Namespace, Condition}
use petri_operator.Cluster.{
  Log, Api, label, read_namespace, make_namespace, make_service_account, read_role_binding,
  make_role_binding,
}
use petri_operator.Platform.{Platform}
use petri_operator.Jobs.{take}

pub record World : Type 0 where
  pub log : Log
  pub env : Environment

abbrev pub call : {A : Type 0} → M Log A → M World A
call m w = let (r, log) = m w.log in (r, record w { log = log })

abbrev pub get_env : M World Environment
get_env w = (ok w.env, w)

-- A change of env.Status.
abbrev pub set_status : (EnvironmentStatus → EnvironmentStatus) → M World (Unit {0})
set_status f w = (ok tt, record w { env = let env = w.env in record env { status = f env.status } })

abbrev pub fails : {S A : Type 0} → String → M S A
fails text = fail (record { kind = other; text = text })

-- %q, of a name that has nothing to escape.
abbrev pub quoted : String → String
quoted s = "\"" ++ (s ++ "\"")

abbrev pub managed_label : String
managed_label = "petri.run/managed"

abbrev pub owner_uid_label : String
owner_uid_label = "petri.run/environment-uid"

abbrev pub ns_prefix : String
ns_prefix = "petri-env-"

abbrev pub namespace_bound : String
namespace_bound = "NamespaceBound"

abbrev pub deployer_role_binding : String
deployer_role_binding = "petri-deployer"

unfoldable pub owns_namespace : Environment → Namespace → Bool
owns_namespace env ns =
    not (env.uid == "")
    && (label managed_label ns.labels == "true" && label owner_uid_label ns.labels == env.uid)

-- The fields of the reconciler that this part reads.
pub record Reconciler : Type 0 where
  pub has_reader : Bool
  pub deployer_service_account : String

module _ (api : Api) (p : Platform) (r : Reconciler) where
  -- The candidate of n characters of the digest of the UID.
  abbrev pub candidate : String → ℕ → String
  candidate uid n = ns_prefix ++ take n (p.hex_digest uid)

  -- `for n := 8; n <= 52; n += 4`, with one unit of fuel for a round: 45 are more than there are.
  unfoldable pub is_candidate : ℕ → ℕ → Environment → Bool
  is_candidate zero n env = false
  is_candidate (suc fuel) n env =
      let rest = is_candidate fuel (n + 4) env in
      if leb n 52
      then (if not (env.uid == "") && env.status.target_namespace == candidate env.uid n
          then true
          else rest)
      else false

  unfoldable pub target_namespace : Environment → Result String
  target_namespace env =
      if is_candidate 45 8 env
      then ok env.status.target_namespace
      else err (record {
        kind = other;
        text =
            "invalid targetNamespace "
            ++ (quoted env.status.target_namespace ++ (" for environment UID " ++ quoted env.uid));
      })

  abbrev all_occupied : M World (Unit {0})
  all_occupied = fails "all deterministic namespace prefixes through 52 hex characters are occupied"

  -- The loop of `allocateNamespace`.
  pub allocate_loop : ℕ → ℕ → M World (Unit {0})
  allocate_loop zero n w = all_occupied w
  allocate_loop (suc fuel) n w =
      let rest = allocate_loop fuel (n + 4) in
      if leb n 52
      then (do
        env ← get_env
        let name = candidate env.uid n
        answer ← attempt (call (read_namespace api false name))
        elim answer [
          | ok ns ↦
              if owns_namespace env ns
              then set_status (λ s. record s { target_namespace = name })
              else rest
          | err e ↦
              if is_not_found e
              then set_status (λ s. record s { target_namespace = name })
              else fail e
        ])
          w
      else all_occupied w

  pub allocate_namespace : ℕ → M World (Unit {0})
  allocate_namespace start w =
      if w.env.uid == ""
      then fails "cannot allocate namespace without environment UID" w
      else allocate_loop 53 start w

  -- cmp.Or(r.DeployerServiceAccount, deployerRoleBinding)
  abbrev account : String
  account =
      if r.deployer_service_account == "" then deployer_role_binding else r.deployer_service_account

  pub ensure_deployer_role_binding : String → M Log (Unit {0})
  ensure_deployer_role_binding target_ns = do
    created ← attempt (make_service_account api target_ns account)
    let bind = do
      bound ← attempt (read_role_binding api target_ns account)
      elim bound [
        | ok _ ↦ pure tt
        | err e ↦ if is_not_found e then make_role_binding api target_ns account else fail e
      ]
    elim created [ ok _ ↦ bind | err e ↦ if is_already_exists e then bind else fail e ]

  abbrev not_managed : {S A : Type 0} → String → M S A
  not_managed target_ns = fail (record {
    kind = namespace_not_managed;
    text = "namespace not managed by Petri: " ++ quoted target_ns;
  })

  -- A namespace that was read: it must be the environment's own and stay.
  adopt : Environment → Namespace → String → M Log (Unit {0})
  unfolding ensure_deployer_role_binding
  adopt env ns target_ns =
      if not (owns_namespace env ns)
      then not_managed target_ns
      else if ns.deleting
      then fails ("namespace " ++ (quoted target_ns ++ " is terminating"))
      else ensure_deployer_role_binding target_ns

  abbrev pub owned_namespace : Environment → String → Namespace
  owned_namespace env target_ns = record {
    name = target_ns;
    uid = "";
    resource_version = "";
    labels = (managed_label, "true") ∷ (owner_uid_label, env.uid) ∷ [];
    deleting = false;
  }

  create_absent : Environment → String → M Log (Unit {0})
  unfolding adopt
  create_absent env target_ns = do
    created ← attempt (make_namespace api (owned_namespace env target_ns))
    elim created [
      | ok _ ↦ ensure_deployer_role_binding target_ns
      | err e ↦
          if is_already_exists e
          then (do ns ← read_namespace api r.has_reader target_ns; adopt env ns target_ns)
          else fail (record e { text = "failed to create a namespace: " ++ e.text })
    ]

  pub create_namespace : Environment → M Log (Unit {0})
  unfolding adopt create_absent
  create_namespace env = do
    let target_ns = env.status.target_namespace
    answer ← attempt (read_namespace api r.has_reader target_ns)
    elim answer [
      | ok ns ↦ adopt env ns target_ns
      | err e ↦
          if not (is_not_found e)
          then fail e
          else if p.is_condition_true env.status.conditions namespace_bound
          then fails (
              "bound namespace "
              ++ (quoted target_ns
                  ++ " disappeared; refusing to recreate it and lose cleanup evidence"))
          else create_absent env target_ns
    ]
