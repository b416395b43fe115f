-- ===== src/Jobs/Deployer/Payload.antt =====
-- The Job that a verdict of the deployer is about, and the options that it was built for.
use petri_operator.Prelude.{String, true, false, ◌≡◌, refl, sym, ap, ◌∙◌, ◌∷◌, ◌==◌, eq_iff}
use petri_operator.Prelude.Effects.{Result, ok, ok-injective}
use petri_operator.Cluster.{Job, Log, Api, get_job}
use petri_operator.Jobs.{Op, JobState, DeployOptions, terminal_phase, release_job_name}
use petri_operator.Jobs.Protocol.Verdicts.{has_ended, observe_with-Confirmed}
use petri_operator.Jobs.Deployer.{
  JobDeployer, payload_in, matches_payload, build_job, failure_reason, observe_op,
}

-- A Job that `buildJob` made matches its own payload and no other.
matches_payload-build_job :
    (j : JobDeployer) (hex_digest : String → String) (opts : DeployOptions) (op : Op)
    (spec payload : String)
    → matches_payload (build_job j hex_digest opts op spec) payload ≡ (spec == payload)
unfolding matches_payload build_job
matches_payload-build_job j hex_digest opts op spec payload = refl

-- The match looks at the containers alone.
matches_payload-containers :
    (job built : Job) (payload : String)
    → job.containers ≡ built.containers
    → matches_payload job payload ≡ matches_payload built payload
unfolding matches_payload
matches_payload-containers job built payload e = ap (λ l. payload_in l payload) e

-- If the Job that the live read returned has the containers that `buildJob` makes for some
-- options, then a finished verdict of the deployer says that those options have the JSON text of
-- the options asked about. The Job is also the one in the cache, it is not being deleted, and the
-- verdict is its own phase.
pub observe_op-payload :
    (api : Api) (hex_digest : String → String) (marshal : DeployOptions → Result String)
    (j : JobDeployer) (opts built_for : DeployOptions) (op built_op : Op) (spec : String)
    (cached found : Job) (log : Log) (verdict : JobState)
    → let name = release_job_name hex_digest op opts.release_name in
      api.job_at false opts.namespace name log ≡ ok cached
      → api.job_at j.has_reader cached.namespace cached.name
          (get_job false opts.namespace name ∷ log)
        ≡ ok found
      → marshal built_for ≡ ok spec
      → found.containers ≡ (build_job j hex_digest built_for built_op spec).containers
      → (observe_op api hex_digest marshal j opts op log).0 ≡ ok verdict
      → has_ended verdict.phase ≡ true
      → (marshal opts ≡ marshal built_for)
        × (found.uid ≡ cached.uid)
        × (found.deleting ≡ false)
        × (terminal_phase found ≡ verdict.phase)
unfolding observe_op
observe_op-payload api hex_digest marshal j opts built_for op built_op spec cached found log verdict
      read live m e h ended =
    let name = release_job_name hex_digest op opts.release_name in
    let c =
      observe_with-Confirmed api j.has_reader opts.namespace name matches_payload (marshal opts)
        (failure_reason api hex_digest marshal j opts op) log verdict h ended in
    let same_cached : c.cached ≡ cached = ok-injective (sym c.cached_read ∙ read) in
    let again : ok c.found ≡ ok found =
      sym c.live_read
      ∙ (ap
            (λ k.
              api.job_at j.has_reader k.namespace k.name (get_job false opts.namespace name ∷ log))
            same_cached
          ∙ live) in
    let same_found : c.found ≡ found = ok-injective again in
    let built = build_job j hex_digest built_for built_op spec in
    let same : spec ≡ c.spec = (eq_iff spec c.spec).0 (
      sym (matches_payload-build_job j hex_digest built_for built_op spec c.spec)
      ∙ (sym (
            matches_payload-containers c.found built c.spec (ap (λ k. k.containers) same_found ∙ e))
          ∙ c.matching)) in
    (
      c.marshalled ∙ (ap ok (sym same) ∙ sym m),
      ap (λ k. k.uid) (sym same_found) ∙ (c.same ∙ ap (λ k. k.uid) same_cached),
      ap (λ k. k.deleting) (sym same_found) ∙ c.staying,
      ap terminal_phase (sym same_found) ∙ c.ended,
    )
