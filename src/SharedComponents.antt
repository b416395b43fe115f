-- ===== src/SharedComponents.antt =====
-- internal/controller/sharedcomponent_controller.go: the controller of shared components. The
-- children are the reconciliation of an instance, its deletion, and the requests.
mod Samples
pub mod Instance
pub mod Reconcile
pub mod Teardown
pub mod Requests
use petri_operator.Prelude.{
  String, Bool, true, false, Option, none, some, List, [], ◌∷◌, if◌then◌else◌, ◌==◌, length, ℕ,
}
use Prim.Native.String.{◌++◌}
use petri_operator.Prelude.Effects.{M, pure, ◌>>=◌}
use petri_operator.Types.{zero_component, HelmSpec}
use petri_operator.Types.Shared.{SharedComponent}
use petri_operator.Cluster.{Log, Api}
use petri_operator.Cluster.Objects.{read_labelled}
use petri_operator.Jobs.{DeployOptions}
use petri_operator.Jobs.Provisioner.{shared_namespace}
use petri_operator.Shared.{shared_label}

abbrev pub shared_finalizer : String
shared_finalizer = "petri.run/shared-cleanup"

abbrev pub uninstall_retries : String
uninstall_retries = "petri.run/uninstall-retries"

-- The options of the release of a shared component, which has no chart while it is taken down.
abbrev pub release_opts : SharedComponent → DeployOptions
release_opts sc = record {
  owner_uid = sc.uid;
  namespace = shared_namespace;
  release_name = "shared-" ++ sc.name;
  component = zero_component;
  attempt = 0;
}

unfoldable pub count_consumers : Api → (live : Bool) → String → M Log ℕ
count_consumers api live name = do
  nss ← read_labelled api live (shared_label name)
  pure (length nss)
