-- ===== src/Shared.antt =====
-- internal/controller/shared.go: how an environment uses shared components. The children are the
-- lease, the registration of a consumer, the provisioning of its credentials, the values that it is
-- given, and the release of the component.
pub mod Lease
mod Samples
pub mod Fixtures
pub mod Consumers
pub mod Contention
pub mod Provision
pub mod Values
pub mod Deprovision
use petri_operator.Prelude.{String}
use Prim.Native.String.{◌++◌}

abbrev pub generated_secret_key : String
generated_secret_key = "petri.generated-secret"

-- `sharedLabel`
abbrev pub shared_label : String → String
shared_label name = "petri.run/shared-" ++ name
