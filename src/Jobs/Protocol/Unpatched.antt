-- ===== src/Jobs/Protocol/Unpatched.antt =====
-- Submitting and observing a Job patches no shared component.
use petri_operator.Prelude.{String, Bool, ◌∷◌, false, arith, inl, inr}
use petri_operator.Prelude.Effects.{Result, M, Result-cases}
use petri_operator.Cluster.{Log, Api, Job, get_job}
use petri_operator.Cluster.Patches.{IsUnpatched}
use petri_operator.Jobs.Protocol.{submit_with, observe_with, judge, confirm}

module _ (api : Api) (live : Bool) (namespace name : String) (matches : Job → String → Bool) where
  pub submit_with-IsUnpatched :
      (payload : Result String) (build : String → Job)
      → IsUnpatched (submit_with api live namespace name matches payload build)
  unfolding submit_with
  submit_with-IsUnpatched payload build log = ground arith

  confirm-IsUnpatched :
      (reason : M Log String) (job : Job) (payload : String)
      → IsUnpatched reason
      → IsUnpatched (confirm api live namespace name matches reason job payload)
  unfolding confirm
  confirm-IsUnpatched reason job payload quiet log =
      ground (arith, quiet (get_job live job.namespace job.name ∷ log))

  pub observe_with-IsUnpatched :
      (payload : Result String) (reason : M Log String)
      → IsUnpatched reason
      → IsUnpatched (observe_with api live namespace name matches payload reason)
  unfolding observe_with judge
  observe_with-IsUnpatched payload reason quiet log =
      let asked = get_job false namespace name ∷ log in
      elim (Result-cases (api.job_at false namespace name log)) [
        | inr (x, e) ↦ ground arith
        | inl (job, e) ↦ elim (Result-cases payload) [
          | inr (x, f) ↦ ground arith
          | inl (spec, f) ↦ ground (arith, confirm-IsUnpatched reason job spec quiet asked)
        ]
      ]
