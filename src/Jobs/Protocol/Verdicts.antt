-- ===== src/Jobs/Protocol/Verdicts.antt =====
-- What a verdict of `observe` rests on, and when `submit` deletes or creates.
use petri_operator.Prelude.{String, Bool, true, false, ◌≡◌, ◌∷◌, arith, eq_iff, inl, inr}
use petri_operator.Prelude.Effects.{Result, ok, M, Result-cases}
use petri_operator.Cluster.{Job, Log, Api, get_job}
use petri_operator.Jobs.{JobPhase, pending, running, succeeded, failed, JobState, terminal_phase}
use petri_operator.Jobs.Protocol.{observe_with}

abbrev pub has_ended : JobPhase → Bool
has_ended pending = false
has_ended running = false
has_ended succeeded = true
has_ended failed = true

module _ (api : Api) (live : Bool) (namespace name : String) (matches : Job → String → Bool) where
  -- The cached Job and the live one, as the two reads return them.
  pub record Confirmed (log : Log) (payload : Result String) (phase : JobPhase) : Type 0 where
    pub cached : Job
    pub found : Job
    pub spec : String
    pub cached_read : api.job_at false namespace name log ≡ ok cached
    pub live_read :
        api.job_at live cached.namespace cached.name (get_job false namespace name ∷ log) ≡ ok found
    pub marshalled : payload ≡ ok spec
    pub same : found.uid ≡ cached.uid
    pub staying : found.deleting ≡ false
    pub ended : terminal_phase found ≡ phase
    pub matching : matches found spec ≡ true

  -- If `observe` says that a Job has succeeded or failed, then the cache held a Job of the name; a
  -- live read made after that returned a Job of the same UID that is not being deleted, whose own
  -- conditions say the same, and that matches the payload, which could be marshalled.
  pub observe_with-Confirmed :
      (payload : Result String) (reason : M Log String) (log : Log) (verdict : JobState)
      → (observe_with api live namespace name matches payload reason log).0 ≡ ok verdict
      → has_ended verdict.phase ≡ true
      → Confirmed log payload verdict.phase
  unfolding observe_with
  observe_with-Confirmed payload reason log verdict h ended =
      elim (Result-cases (api.job_at false namespace name log)) [
        | inr (e, gone) ↦ absurd (ground arith)
        | inl (job, cached_read) ↦ elim (Result-cases payload) [
          | inr (e, unmarshalled) ↦ absurd (ground arith)
          | inl (spec, marshalled) ↦
              elim (Result-cases
                (api.job_at live job.namespace job.name (get_job false namespace name ∷ log))) [
                  | inr (e, gone) ↦ absurd (ground arith)
                  | inl (found, live_read) ↦ record {
                    cached = job;
                    found = found;
                    spec = spec;
                    cached_read = cached_read;
                    live_read = live_read;
                    marshalled = marshalled;
                    same = ground (arith, eq_iff found.uid job.uid);
                    staying = ground arith;
                    ended = ground arith;
                    matching = ground arith;
                  }
                ]
        ]
      ]
