-- ===== src/Jobs/Provisioner/Payload.antt =====
-- A Job of the provisioner answers for its options alone.
use petri_operator.Prelude.{◌∷◌, String, true, false, ◌≡◌, refl, sym, ap, ◌∙◌, ◌==◌, eq_iff}
use petri_operator.Prelude.Effects.{Result, ok, ok-injective}
use petri_operator.Cluster.{Job, Log, Api, label, get_job}
use petri_operator.Jobs.{Op, JobState, terminal_phase}
use petri_operator.Jobs.Protocol.Verdicts.{has_ended, observe_with-Confirmed}
use petri_operator.Jobs.Provisioner.{
  ProvisionOptions, payload_annotation, JobProvisioner, shared_namespace, job_name,
  matches_identity, annotated_job, payload_identity, failure_reason, observe_op,
}

matches_identity-annotated_job :
    (p : JobProvisioner) (opts : ProvisionOptions) (op : Op) (name identity payload : String)
    → matches_identity (annotated_job p opts op name identity) payload ≡ (identity == payload)
unfolding matches_identity annotated_job
matches_identity-annotated_job p opts op name identity payload = refl

matches_identity-annotations :
    (job built : Job) (payload : String)
    → job.annotations ≡ built.annotations
    → matches_identity job payload ≡ matches_identity built payload
unfolding matches_identity
matches_identity-annotations job built payload e = ap (λ l. label payload_annotation l == payload) e

-- If the Job that the live read returned bears the annotation that `submit` makes for some options,
-- then a finished verdict of the provisioner says that those options have the identity, the digest
-- of the JSON text, of the options asked about. The Job is also the one in the cache, it is not
-- being deleted, and the verdict is its own phase.
pub observe_op-identity :
    (api : Api) (hex_digest : String → String) (marshal : ProvisionOptions → Result String)
    (p : JobProvisioner) (opts built_for : ProvisionOptions) (op built_op : Op)
    (built_name identity : String) (cached found : Job) (log : Log) (verdict : JobState)
    → let name = job_name hex_digest op opts.env_name opts.component_name in
      api.job_at false shared_namespace name log ≡ ok cached
      → api.job_at true cached.namespace cached.name (get_job false shared_namespace name ∷ log)
        ≡ ok found
      → payload_identity hex_digest marshal built_for ≡ ok identity
      → found.annotations ≡ (annotated_job p built_for built_op built_name identity).annotations
      → (observe_op api hex_digest marshal p opts op log).0 ≡ ok verdict
      → has_ended verdict.phase ≡ true
      → (payload_identity hex_digest marshal opts ≡ payload_identity hex_digest marshal built_for)
        × (found.uid ≡ cached.uid)
        × (found.deleting ≡ false)
        × (terminal_phase found ≡ verdict.phase)
unfolding observe_op
observe_op-identity api hex_digest marshal p opts built_for op built_op built_name identity cached
      found log verdict read live m e h ended =
    let name = job_name hex_digest op opts.env_name opts.component_name in
    let c =
      observe_with-Confirmed api true shared_namespace name matches_identity
        (payload_identity hex_digest marshal opts) (failure_reason api hex_digest marshal p name)
        log verdict h ended in
    let same_cached : c.cached ≡ cached = ok-injective (sym c.cached_read ∙ read) in
    let again : ok c.found ≡ ok found =
      sym c.live_read
      ∙ (ap (λ k. api.job_at true k.namespace k.name (get_job false shared_namespace name ∷ log))
            same_cached
          ∙ live) in
    let same_found : c.found ≡ found = ok-injective again in
    let built = annotated_job p built_for built_op built_name identity in
    let same : identity ≡ c.spec = (eq_iff identity c.spec).0 (
      sym (matches_identity-annotated_job p built_for built_op built_name identity c.spec)
      ∙ (sym (
            matches_identity-annotations c.found built c.spec
              (ap (λ k. k.annotations) same_found ∙ e))
          ∙ c.matching)) in
    (
      c.marshalled ∙ (ap ok (sym same) ∙ sym m),
      ap (λ k. k.uid) (sym same_found) ∙ (c.same ∙ ap (λ k. k.uid) same_cached),
      ap (λ k. k.deleting) (sym same_found) ∙ c.staying,
      ap terminal_phase (sym same_found) ∙ c.ended,
    )
