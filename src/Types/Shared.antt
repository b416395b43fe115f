-- ===== src/Types/Shared.antt =====
-- api/v1alpha1/sharedcomponentprovider_types.go and sharedcomponent_types.go: the providers of
-- shared components and their instances, with the metadata that the code uses.
use petri_operator.Prelude.{
  ℕ, String, Bool, not, ◌&&◌, Option, List, [], ◌∷◌, if◌then◌else◌, ◌==◌, ℤ,
}
use petri_operator.Prelude.Effects.{other, Result, ok, err}
use petri_operator.Types.{HelmSpec, JobScript, Condition, ComponentPhase}

-- `length` is an int.
pub record GenerateSpec : Type 0 where
  pub length : ℤ
  pub charset : String

pub record InstanceKey : Type 0 where
  pub value : String
  pub generate : Option GenerateSpec

-- The keys in the order in which the range over the map visits them.
pub record InstanceSecret : Type 0 where
  pub name : String
  pub keys : List (String × InstanceKey)

pub record Binding : Type 0 where
  pub secret_keys : List (String × String)

pub record ProviderSpec : Type 0 where
  pub helm : Option HelmSpec
  pub instance_secret : Option InstanceSecret
  pub provision : Option JobScript
  pub deprovision : Option JobScript
  pub binding : Option Binding

pub record SharedComponentSpec : Type 0 where
  pub provider : String
  pub max_consumers : ℤ
  pub idle_cleanup : String

pub record SharedComponentStatus : Type 0 where
  pub conditions : List Condition
  pub consumers : ℕ
  pub ready : Bool
  pub phase : ComponentPhase

pub record SharedComponent : Type 0 where
  pub name : String
  pub namespace : String
  pub uid : String
  pub generation : ℕ
  pub deleting : Bool
  pub finalizers : List String
  pub annotations : List (String × String)
  pub spec : SharedComponentSpec
  pub status : SharedComponentStatus

abbrev rejected : String → Result (Unit {0})
rejected text = err (record { kind = other; text = text })

abbrev has_command : List String → Bool
has_command [] = Bool.false
has_command (c ∷ cs) = Bool.true

unfoldable pub validate : JobScript → Result (Unit {0})
validate j =
    let has_script = not (j.script == "") in
    if j.image == ""
    then rejected "jobScript: image is required"
    else if has_script && has_command j.command
    then rejected "jobScript: script and command are mutually exclusive"
    else if not has_script && not (has_command j.command)
    then rejected "jobScript: one of script or command is required"
    else ok tt
