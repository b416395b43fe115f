-- ===== src/SharedComponents/Instance.antt =====
-- internal/controller/sharedcomponent_controller.go: the namespace and the secret of the instances.
pub mod Stable
use petri_operator.Prelude.{
  String, Bool, true, false, Option, none, some, List, [], ◌∷◌, if◌then◌else◌, ◌==◌, Map, put,
  empty, lookup,
}
use Prim.Native.String.{◌++◌}
use petri_operator.Prelude.Effects.{
  namespace_not_managed, Result, ok, err, M, pure, fail, attempt, ◌>>=◌, ◌>>◌, is_not_found,
  is_already_exists,
}
use petri_operator.Types.{Namespace}
use petri_operator.Types.Shared.{InstanceSecret, InstanceKey}
use petri_operator.Cluster.{
  Log, Api, read_namespace, make_namespace, make_service_account, read_role_binding,
  make_role_binding,
}
use petri_operator.Cluster.Objects.{read_secret, make_secret, write_secret}
use petri_operator.Jobs.Provisioner.{shared_namespace}
use petri_operator.SecretGen.{random_text}
use petri_operator.Namespaces.{managed_label, deployer_role_binding, quoted}

module _ (api : Api) where
  -- cmp.Or(r.DeployerServiceAccount, deployerRoleBinding)
  abbrev account_of : String → String
  account_of service_account =
      if service_account == "" then deployer_role_binding else service_account

  ensure_role_binding : (service_account target_ns : String) → M Log (Unit {0})
  ensure_role_binding service_account target_ns = do
    let name = account_of service_account
    created ← attempt (make_service_account api target_ns name)
    let bind = do
      bound ← attempt (read_role_binding api target_ns name)
      elim bound [
        | ok _ ↦ pure tt
        | err e ↦ if is_not_found e then make_role_binding api target_ns name else fail e
      ]
    elim created [ ok _ ↦ bind | err e ↦ if is_already_exists e then bind else fail e ]

  abbrev managed_namespace : String → Namespace
  managed_namespace target_ns = record {
    name = target_ns;
    uid = "";
    resource_version = "";
    labels = (managed_label, "true") ∷ [];
    deleting = false;
  }

  unfoldable pub create_shared_namespace : (service_account target_ns : String) → M Log (Unit {0})
  unfolding ensure_role_binding
  create_shared_namespace service_account target_ns = do
    found ← attempt (read_namespace api false target_ns)
    elim found [
      | ok ns ↦ elim (lookup managed_label ns.labels) [
        | none ↦ fail (record {
          kind = namespace_not_managed;
          text = "namespace not managed by Petri: " ++ quoted target_ns;
        })
        | some _ ↦ ensure_role_binding service_account target_ns
      ]
      | err e ↦
          if is_not_found e
          then (do
            made ← attempt (make_namespace api (managed_namespace target_ns))
            elim made [
              | err x ↦ fail (record x { text = "failed to create shared namespace: " ++ x.text })
              | ok _ ↦ ensure_role_binding service_account target_ns
            ])
          else fail e
    ]

  -- A generated key of the secret that was found; none if it is to be generated.
  abbrev pub kept : Option (Map String) → String → Option String
  kept none key = none
  kept (some old) key = old key

  -- The loop over the keys.
  unfoldable pub fill :
      Option (Map String) → List (String × InstanceKey) → Map String → M Log (Map String)
  fill old [] entries = pure entries
  fill old ((key, k) ∷ keys) entries =
      let next = λ (v : String). fill old keys (put key v entries) in
      elim k.generate [
        | none ↦ next k.value
        | some g ↦ elim (kept old key) [
          | some v ↦ next v
          | none ↦ do v ← random_text api g.length g.charset; next v
        ]
      ]

  -- The secret that was found is updated, and a missing one is created.
  pub store : Option (Map String) → String → Map String → M Log (Unit {0})
  store (some old) name entries = write_secret api shared_namespace name entries
  store none name entries = make_secret api shared_namespace name entries

  pub fill_and_store : Option (Map String) → InstanceSecret → M Log (Unit {0})
  unfolding fill store
  fill_and_store old spec = do entries ← fill old spec.keys empty; store old spec.name entries

  unfoldable pub ensure_instance_secret : Option InstanceSecret → M Log (Unit {0})
  unfolding fill_and_store
  ensure_instance_secret none = pure tt
  ensure_instance_secret (some spec) = do
    found ← attempt (read_secret api shared_namespace spec.name)
    elim found [
      | ok old ↦ fill_and_store (some old) spec
      | err e ↦ if is_not_found e then fill_and_store none spec else fail e
    ]
