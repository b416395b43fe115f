-- ===== src/Jobs.antt =====
-- internal/deployer/common.go and deployer.go, and what of internal/deployer/job.go the deployer
-- and the provisioner share: job names, phases, and when a Job has ended.
pub mod Names
pub mod Protocol
pub mod Deployer
pub mod Provisioner
mod Samples
use petri_operator.Prelude.{
  ℕ, zero, suc, ◌-◌, String, Bool, true, false, Option, none, some, List, [], ◌∷◌, ltb, leb,
  if◌then◌else◌, ◌==◌, ◌≡◌, refl, ◌⊎◌, inl, inr,
}
use Prim.Native.String.{count, ◌++◌}
use petri_operator.Prelude.Effects.{Result}
use petri_operator.Cluster.{
  JobCondition, JobConditionType, job_complete, job_failed, other_condition, Job, Pod,
}
use petri_operator.Types.{ComponentSpec}

abbrev pub max_job_name_len : ℕ
max_job_name_len = 63

abbrev pub job_name_hash_len : ℕ
job_name_hash_len = 8

-- s[:n]. Job names are made of DNS-1123 names, whose characters are bytes.
unfoldable pub take : ℕ → String → String
take zero s = ""
take (suc n) String.[] = ""
take (suc n) (String.◌∷◌ c s) = String.◌∷◌ c (take n s)

-- `hex_digest` is hex.EncodeToString of sha256.Sum256, a parameter of the model.
pub truncate_name : (hex_digest : String → String) → String → String
unfolding take
truncate_name hex_digest name =
    if leb (count name) max_job_name_len
    then name
    else (take (max_job_name_len - 1 - job_name_hash_len) name
        ++ ("-" ++ take job_name_hash_len (hex_digest name)))

-- The four operations of a Job: `OpDeploy` and the others.
pub data Op : Type 0 where
  deploy undeploy provision deprovision : Op

abbrev pub op_name : Op → String
op_name deploy = "deploy"
op_name undeploy = "undeploy"
op_name provision = "provision"
op_name deprovision = "deprovision"

-- `jobName` of the deployer.
pub release_job_name : (hex_digest : String → String) → Op → String → String
unfolding truncate_name
release_job_name hex_digest op release =
    truncate_name hex_digest ("petri-" ++ (op_name op ++ ("-" ++ release)))

pub data JobPhase : Type 0 where
  pending running succeeded failed : JobPhase

pub JobPhase-discrete : Discrete JobPhase
JobPhase-discrete = hlevel

pub JobPhase-cases : (a : JobPhase) → (a ≡ succeeded) ⊎ (a ≡ running) ⊎ (a ≡ pending) ⊎ (a ≡ failed)
JobPhase-cases succeeded = inl refl
JobPhase-cases running = inr (inl refl)
JobPhase-cases pending = inr (inr (inl refl))
JobPhase-cases failed = inr (inr (inr refl))

abbrev pub is_phase : JobPhase → JobPhase → Bool
is_phase pending pending = true
is_phase running running = true
is_phase succeeded succeeded = true
is_phase failed failed = true
is_phase _ _ = false

pub record JobState : Type 0 where
  pub phase : JobPhase
  pub reason : String

pub record DeployOptions : Type 0 where
  pub owner_uid : String
  pub namespace : String
  pub release_name : String
  pub component : ComponentSpec
  pub attempt : ℕ  -- int32

-- The first condition that is true and terminal decides.
pub phase_of : List JobCondition → JobPhase
phase_of [] = running
phase_of (c ∷ conditions) =
    let rest = phase_of conditions in
    if c.status
    then elim c.type [ job_complete ↦ succeeded | job_failed ↦ failed | other_condition ↦ rest ]
    else rest

pub terminal_phase : Job → JobPhase
unfolding phase_of
terminal_phase job = phase_of job.conditions

-- The first termination message that is not empty.
pub first_message : List (Option String) → Option String
first_message [] = none
first_message (none ∷ statuses) = first_message statuses
first_message (some m ∷ statuses) =
    let rest = first_message statuses in if m == "" then rest else some m

pub pods_message : List Pod → Option String
unfolding first_message
pods_message [] = none
pods_message (pod ∷ pods) =
    let rest = pods_message pods in
    elim (first_message pod.terminated) [ some m ↦ some m | none ↦ rest ]
