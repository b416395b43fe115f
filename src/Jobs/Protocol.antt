-- ===== src/Jobs/Protocol.antt =====
-- internal/deployer/job.go and internal/provisioner/job.go: `submit` and `observe`. The two files
-- hold one protocol, in which the Job's name, its payload and the match of a payload differ; these
-- are the parameters here. `live` says whether `reader()` is the API reader.
pub mod Unpatched
pub mod Verdicts
pub mod Submits
pub mod Progress
use petri_operator.Prelude.{String, Bool, true, false, not, ◌&&◌, ◌||◌, if◌then◌else◌, ◌==◌, ◌∷◌}
use Prim.Native.String.{◌++◌}
use petri_operator.Prelude.Effects.{
  Err, other, Result, ok, err, M, pure, fail, attempt, give, ◌>>=◌, is_not_found, is_already_exists,
  is_conflict, ignore_not_found,
}
use petri_operator.Cluster.{Job, Log, Api, label, read_job, make_job, remove_job}
use petri_operator.Jobs.{
  JobPhase, pending, running, succeeded, failed, is_phase, JobState, terminal_phase,
}

abbrev pub state : JobPhase → String → JobState
state phase reason = record { phase = phase; reason = reason }

module _ (api : Api) (live : Bool) (namespace name : String) (matches : Job → String → Bool) where
  -- A Job that `submit` leaves alone: going away, running, or done with this payload.
  abbrev pub keeps : Job → String → Bool
  keeps job payload =
      job.deleting
      || is_phase (terminal_phase job) running
      || (is_phase (terminal_phase job) succeeded && matches job payload)

  replace : Job → Job → String → M Log (Unit {0})
  replace existing found payload =
      if not (found.uid == existing.uid) || keeps found payload then pure tt else do
        removed ← attempt (remove_job api found.namespace found.name existing.uid)
        elim removed [
          | ok _ ↦ pure tt
          | err e ↦ if is_conflict e then pure tt else give (ignore_not_found tt (err e))
        ]

  resubmit : Job → String → M Log (Unit {0})
  unfolding replace
  resubmit existing payload = if keeps existing payload then pure tt else do
    answer ← attempt (read_job api live existing.namespace existing.name)
    elim answer [
      | ok found ↦ replace existing found payload
      | err e ↦ give (ignore_not_found tt (err e))
    ]

  abbrev pub not_managed : Job → Err
  not_managed job = record {
    kind = other;
    text =
        "job "
        ++ (job.namespace ++ ("/" ++ (job.name ++ " already exists and is not managed by Petri")));
  }

  claim : Job → M Log (Unit {0})
  claim job = do
    answer ← attempt (read_job api live job.namespace job.name)
    elim answer [
      | ok existing ↦
          if label "petri.run/managed" existing.labels == "true"
          then pure tt
          else fail (not_managed job)
      | err e ↦ give (ignore_not_found tt (err e))
    ]

  pub create : Job → M Log (Unit {0})
  unfolding claim
  create job = do
    created ← attempt (make_job api job)
    elim created [ ok _ ↦ pure tt | err e ↦ if is_already_exists e then claim job else fail e ]

  -- `submit`, of a Job that is built from the payload.
  pub submit_with : Result String → (String → Job) → M Log (Unit {0})
  unfolding resubmit create
  submit_with payload build = do
    spec ← give payload
    answer ← attempt (read_job api false namespace name)
    elim answer [
      | ok existing ↦ resubmit existing spec
      | err e ↦ if is_not_found e then create (build spec) else fail e
    ]

  -- The end of `observe`: the live Job is compared with the cached one.
  unfoldable pub confirm : M Log String → Job → String → M Log JobState
  confirm reason job payload = do
    answer ← attempt (read_job api live job.namespace job.name)
    elim answer [
      | err e ↦ give (ignore_not_found (state pending "") (err e))
      | ok found ↦
          if not (found.uid == job.uid)
            || found.deleting
            || not (is_phase (terminal_phase found) (terminal_phase job))
            || not (matches found payload)
          then pure (state pending "")
          else if is_phase (terminal_phase job) failed
          then (do text ← reason; pure (state failed text))
          else pure (state (terminal_phase job) "")
    ]

  unfoldable pub judge : Result String → M Log String → Job → M Log JobState
  unfolding confirm
  judge payload reason job =
      if job.deleting
      then pure (state pending "")
      else if is_phase (terminal_phase job) running
      then pure (state running "")
      else do
        spec ← give payload
        if matches job spec then confirm reason job spec else pure (state pending "")

  unfoldable pub observe_with : Result String → M Log String → M Log JobState
  unfolding judge
  observe_with payload reason = do
    answer ← attempt (read_job api false namespace name)
    elim answer [
      | err e ↦ if is_not_found e then pure (state pending "") else fail e
      | ok job ↦ judge payload reason job
    ]
