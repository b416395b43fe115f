-- ===== src/Jobs/Protocol/Progress.antt =====
-- `submit` does what `observe` calls for, while nothing else happens.
use petri_operator.Prelude.{
  ℕ, ◌+◌, String, Bool, false, ◌≡◌, [], ◌∷◌, arith, if◌then◌else◌, eq_iff, inl, inr,
}
use petri_operator.Prelude.Effects.{Result, ok, err, M, Result-cases}
use petri_operator.Cluster.{Job, Log, Api, get_job}
use petri_operator.Jobs.{JobPhase, pending, running, succeeded, failed, JobState}
use petri_operator.Jobs.Protocol.{submit_with, observe_with}
use petri_operator.Jobs.Protocol.Submits.{mutations, create_calls}

-- The API for as long as nobody changes the Job: the cache is fresh, every read of the name gives
-- the same answer, and a Job that is read bears the name that was asked for.
pub record IsQuiet (api : Api) (namespace name : String) : Type 0 where
  pub steady :
      (live : Bool) (log : Log)
      → api.job_at live namespace name log ≡ api.job_at false namespace name []
  pub keyed :
      (job : Job)
      → api.job_at false namespace name [] ≡ ok job
      → (job.namespace ≡ namespace) × (job.name ≡ name)

abbrev is_deleting : Result Job → Bool
is_deleting (ok job) = job.deleting
is_deleting (err e) = false

-- How many Jobs a submit should create or delete after a verdict.
abbrev pub due : JobPhase → Bool → ℕ
due pending deleting = if deleting then 0 else 1
due running deleting = 0
due succeeded deleting = 0
due failed deleting = 1

module _ (api : Api) (live : Bool) (namespace name : String) (matches : Job → String → Bool) where
  -- While the API gives the same answer for the Job to every read, a Job that is read bears the name
  -- and namespace asked for, and the payload can be marshalled,
  -- `submit` changes exactly as many Jobs as the verdict of `observe` calls for: one if the Job is
  -- pending, unless it is being deleted; none if it runs or has succeeded; one if it has failed.
  pub submit_with-due :
      (payload : Result String) (spec : String) (build : String → Job) (reason : M Log String)
      (before after : Log) (verdict : JobState)
      → IsQuiet api namespace name
      → payload ≡ ok spec
      → (observe_with api live namespace name matches payload reason before).0 ≡ ok verdict
      → mutations (submit_with api live namespace name matches payload build after).1
        ≡ mutations after + due verdict.phase (is_deleting (api.job_at false namespace name []))
  unfolding submit_with observe_with
  submit_with-due payload spec build reason before after verdict quiet e h =
      elim (Result-cases (api.job_at false namespace name [])) [
        | inr (gone, missing) ↦ ground (
          arith,
          quiet.steady false before,
          quiet.steady false after,
          create_calls api live namespace name matches (build spec)
              (get_job false namespace name ∷ after),
        )
        | inl (job, found) ↦
            let (same_namespace, same_name) = quiet.keyed job found in
            ground (
              arith,
              quiet.steady false before,
              quiet.steady false after,
              quiet.steady live (get_job false namespace name ∷ before),
              quiet.steady live (get_job false namespace name ∷ after),
              eq_iff job.uid job.uid,
            )
      ]
