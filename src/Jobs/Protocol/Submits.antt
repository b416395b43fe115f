-- ===== src/Jobs/Protocol/Submits.antt =====
-- When `submit` deletes or creates a Job, and how it answers what `observe` saw.
use petri_operator.Prelude.{
  ℕ, suc, String, Bool, true, false, not, ◌||◌, ◌≡◌, [], ◌∷◌, arith, ◌==◌, eq_iff, ◌⊎◌, inl, inr,
  Bool-cases,
}
use petri_operator.Prelude.Effects.{Err, Result, ok, err, is_not_found, Result-cases}
use petri_operator.Cluster.{Job, Log, Api, get_job, create_job, delete_job}
use petri_operator.Jobs.Protocol.{keeps, create, submit_with}

-- The Jobs created and deleted by the calls of a log.
abbrev pub mutations : Log → ℕ
mutations [] = 0
mutations (create_job _ ∷ log) = suc (mutations log)
mutations (delete_job _ _ _ ∷ log) = suc (mutations log)
mutations (_ ∷ log) = mutations log

-- The calls that `submit` makes, with what the API had answered before each that changes a Job.
pub data Submitted (api : Api) (live : Bool) (namespace name : String)
    (matches : Job → String → Bool) (spec : String) (job : Job) (log : Log) : Log → Type 0 where
  looked :
      {log' : Log}
      → mutations log' ≡ mutations log
      → Submitted api live namespace name matches spec job log log'
  deleted :
      (cached found : Job)
      → api.job_at false namespace name log ≡ ok cached
      → api.job_at live cached.namespace cached.name (get_job false namespace name ∷ log) ≡ ok found
      → keeps api live namespace name matches cached spec ≡ false
      → keeps api live namespace name matches found spec ≡ false
      → found.uid ≡ cached.uid
      → {log' : Log}
      → log'
        ≡ delete_job found.namespace found.name found.uid
          ∷ get_job live cached.namespace cached.name
          ∷ get_job false namespace name
          ∷ log
      → Submitted api live namespace name matches spec job log log'
  created :
      (e : Err)
      → api.job_at false namespace name log ≡ err e
      → is_not_found e ≡ true
      → {log' : Log}
      → (log' ≡ create_job job ∷ get_job false namespace name ∷ log)
        ⊎ (log'
            ≡ get_job live job.namespace job.name
              ∷ create_job job
              ∷ get_job false namespace name
              ∷ log)
      → Submitted api live namespace name matches spec job log log'

module _ (api : Api) (live : Bool) (namespace name : String) (matches : Job → String → Bool) where
  pub create_calls :
      (job : Job) (log : Log)
      → ((create api live namespace name matches job log).1 ≡ create_job job ∷ log)
        ⊎ ((create api live namespace name matches job log).1
            ≡ get_job live job.namespace job.name ∷ create_job job ∷ log)
  unfolding create
  create_calls job log = ground arith

  -- For a payload that can be marshalled, the calls of `submit` change no Job; or they end with the
  -- deletion, by its UID, of a Job that the cached and the live read agree on, and that in both is
  -- neither going away, nor running, nor done with this payload; or, if the cached read found
  -- nothing, they create the Job, with at most one read after that.
  pub submit_with-Submitted :
      (payload : Result String) (spec : String) (build : String → Job) (log : Log)
      → payload ≡ ok spec
      → Submitted api live namespace name matches spec
          (build spec)
          log
          (submit_with api live namespace name matches payload build log).1
  unfolding submit_with
  submit_with-Submitted payload spec build log e =
      let before = get_job false namespace name ∷ log in
      elim (Result-cases (api.job_at false namespace name log)) [
        | inr (gone, missing) ↦ elim (Bool-cases (is_not_found gone)) [
          | inl absent ↦
              created gone missing absent (ground (arith, create_calls (build spec) before))
          | inr failing ↦ looked (ground arith)
        ]
        | inl (cached, cached_read) ↦
            elim (Bool-cases (keeps api live namespace name matches cached spec)) [
              | inl kept ↦ looked (ground arith)
              | inr stale ↦
                  elim (Result-cases (api.job_at live cached.namespace cached.name before)) [
                    | inr (gone, missing) ↦ looked (ground arith)
                    | inl (found, live_read) ↦
                        elim (Bool-cases (
                          not (found.uid == cached.uid)
                          || keeps api live namespace name matches found spec)) [
                            | inl kept ↦ looked (ground arith)
                            | inr go ↦
                                let same : found.uid ≡ cached.uid =
                                  ground (arith, eq_iff found.uid cached.uid) in
                                deleted cached found cached_read live_read stale (ground arith) same
                                  (ground arith)
                          ]
                  ]
            ]
      ]
