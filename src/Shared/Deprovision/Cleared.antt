-- ===== src/Shared/Deprovision/Cleared.antt =====
-- What it takes for a Job and the secrets of an environment's credentials to be cleared.
use petri_operator.Prelude.{
  String, Bool, true, false, ◌≡◌, refl, sym, ap, ◌⊎◌, ◌∷◌, arith, inl, inr, Bool-cases,
}
use petri_operator.Prelude.Effects.{
  Err, Result, ok, err, ignore_not_found, Result-cases, is_not_found,
}
use petri_operator.Types.{Environment, ComponentSpec}
use petri_operator.Cluster.{Log, Api, Job, get_job}
use petri_operator.Cluster
use petri_operator.Jobs.Provisioner.{shared_namespace, deprovision_job_name}
use petri_operator.Renderer.{Engine}
use petri_operator.Shared.Provision.{Provisioner, binding_name, credentials_name, delete_secret}
use petri_operator.Shared.Deprovision.{
  is_running, delete_job, job_of, clear_secrets, clear_provision, clear_all,
}

-- The API has answered that there is no such object.
abbrev pub IsMissing : {A : Type 0} → Result A → Type 0
IsMissing r = (e : Err) × (r ≡ err e) × (is_not_found e ≡ true)

-- An object was deleted, or was not there any more.
abbrev pub IsRemoved : Result (Unit {0}) → Type 0
IsRemoved r = (r ≡ ok tt) ⊎ IsMissing r

pub answered : {A S : Type 0} (r : Result A × S) (a : A) → r.0 ≡ ok a → r ≡ (ok a, r.1)
answered r a e = ap (λ x. (x, r.1)) e

ignore_not_found-IsRemoved : (r : Result (Unit {0})) → ignore_not_found tt r ≡ ok tt → IsRemoved r
ignore_not_found-IsRemoved (ok x) h = inl refl
ignore_not_found-IsRemoved (err e) h = elim (Bool-cases (is_not_found e)) [
  | inl f ↦ inr (e, refl, f)
  | inr f ↦ absurd (ground (arith, f, h))
]

module _ (api : Api) (live : Bool) where
  -- There is no such Job, or it has ended and was deleted.
  abbrev pub IsJobCleared : (name namespace : String) → Log → Log → Type 0
  IsJobCleared name namespace log log' =
      let asked = get_job live namespace name ∷ log in
      (IsMissing (api.job_at live namespace name log) × (log' ≡ asked))
      ⊎ ((job : Job) × (api.job_at live namespace name log ≡ ok job)
          × (job.deleting ≡ false)
          × (is_running job ≡ false)
          × IsRemoved (api.job_deleted job.namespace job.name job.uid asked)
          × (log' ≡ Cluster.delete_job job.namespace job.name job.uid ∷ asked))

  abbrev pub IsSecretCleared : (name namespace : String) → Log → Log → Type 0
  IsSecretCleared name namespace log log' =
      IsRemoved (api.secret_deleted namespace name log)
      × (log' ≡ Cluster.delete_secret namespace name ∷ log)

  delete_job_lem :
      (name namespace : String) (log log' : Log)
      → delete_job api live name namespace log ≡ (ok tt, log')
      → IsJobCleared name namespace log log'
  unfolding delete_job
  delete_job_lem name namespace log log' h =
      elim (Result-cases (api.job_at live namespace name log)) [
        | inr (x, e) ↦
            let k = rw e at h in
            elim (Bool-cases (is_not_found x)) [
              | inl f ↦ inl ((x, e, f), sym (ap (λ r. r.1) k))
              | inr f ↦ absurd (ground (arith, f, ap (λ r. r.0) k))
            ]
        | inl (job, e) ↦ elim (Bool-cases job.deleting) [
          | inl f ↦ absurd (ground (arith, ap (λ r. r.0) (rw (e, f) at h)))
          | inr f ↦ elim (Bool-cases (is_running job)) [
            | inl g ↦ absurd (ground (arith, ap (λ r. r.0) (rw (e, g, f) at h)))
            | inr g ↦
                let k = rw (e, g, f) at h in
                let gone =
                  api.job_deleted job.namespace job.name job.uid
                    (get_job live namespace name ∷ log) in
                inr (
                  job,
                  e,
                  f,
                  g,
                  ignore_not_found-IsRemoved gone (ap (λ r. r.0) k),
                  sym (ap (λ r. r.1) k),
                )
          ]
        ]
      ]

  delete_secret_lem :
      (name namespace : String) (log log' : Log)
      → delete_secret api name namespace log ≡ (ok tt, log')
      → IsSecretCleared name namespace log log'
  unfolding delete_secret
  delete_secret_lem name namespace log log' h = (
    ignore_not_found-IsRemoved (api.secret_deleted namespace name log) (ap (λ r. r.0) h),
    sym (ap (λ r. r.1) h),
  )

module _ (api : Api) (live : Bool) (hex_digest : String → String) (engine : Engine)
    (provisioner : Provisioner) (target_ns : String) (env : Environment) (c : ComponentSpec) where
  -- The secret of the credentials, and then the binding secret.
  abbrev pub AreSecretsCleared : Log → Log → Type 0
  AreSecretsCleared log log' =
      (mid : Log) × IsSecretCleared api live (credentials_name hex_digest env c.name)
        shared_namespace log mid
      × IsSecretCleared api live (binding_name env c.name) target_ns mid log'

  -- The provision Job, and then the secrets.
  abbrev pub IsProvisionCleared : Log → Log → Type 0
  IsProvisionCleared log log' =
      (mid : Log) × IsJobCleared api live (job_of api live hex_digest engine provisioner env c)
        shared_namespace log mid
      × AreSecretsCleared mid log'

  -- The two Jobs, and then the secrets.
  abbrev pub IsAllCleared : Log → Log → Type 0
  IsAllCleared log log' =
      (mid : Log) × IsJobCleared api live (job_of api live hex_digest engine provisioner env c)
        shared_namespace log mid
      × ((last : Log) × IsJobCleared api live (deprovision_job_name hex_digest env.name c.name)
            shared_namespace mid last
          × AreSecretsCleared last log')

  pub clear_secrets_lem :
      (log log' : Log)
      → clear_secrets api live hex_digest engine provisioner env target_ns c log ≡ (ok tt, log')
      → AreSecretsCleared log log'
  unfolding clear_secrets
  clear_secrets_lem log log' h =
      let name = credentials_name hex_digest env c.name in
      let first = delete_secret api name shared_namespace log in
      elim (Result-cases first.0) [
        | inr (x, e) ↦ absurd (ground (arith, ap (λ r. r.0) (rw e at h)))
        | inl (tt, e) ↦ (
          first.1,
          delete_secret_lem api live name shared_namespace log first.1 (answered first tt e),
          delete_secret_lem api live (binding_name env c.name) target_ns first.1 log' (rw e at h),
        )
      ]

  pub clear_provision_lem :
      (log log' : Log)
      → clear_provision api live hex_digest engine provisioner env target_ns c log ≡ (ok tt, log')
      → IsProvisionCleared log log'
  unfolding clear_provision
  clear_provision_lem log log' h =
      let name = job_of api live hex_digest engine provisioner env c in
      let first = delete_job api live name shared_namespace log in
      elim (Result-cases first.0) [
        | inr (x, e) ↦ absurd (ground (arith, ap (λ r. r.0) (rw e at h)))
        | inl (tt, e) ↦ (
          first.1,
          delete_job_lem api live name shared_namespace log first.1 (answered first tt e),
          clear_secrets_lem first.1 log' (rw e at h),
        )
      ]

  pub clear_all_lem :
      (log log' : Log)
      → clear_all api live hex_digest engine provisioner env target_ns c log ≡ (ok tt, log')
      → IsAllCleared log log'
  unfolding clear_all
  clear_all_lem log log' h =
      let name = job_of api live hex_digest engine provisioner env c in
      let other = deprovision_job_name hex_digest env.name c.name in
      let first = delete_job api live name shared_namespace log in
      let second = delete_job api live other shared_namespace first.1 in
      elim (Result-cases first.0) [
        | inr (x, e) ↦ absurd (ground (arith, ap (λ r. r.0) (rw e at h)))
        | inl (tt, e) ↦ elim (Result-cases second.0) [
          | inr (x, f) ↦ absurd (ground (arith, ap (λ r. r.0) (rw (e, f) at h)))
          | inl (tt, f) ↦ (
            first.1,
            delete_job_lem api live name shared_namespace log first.1 (answered first tt e),
            (
              second.1,
              delete_job_lem api live other shared_namespace first.1 second.1
                  (answered second tt f),
              clear_secrets_lem second.1 log' (rw (e, f) at h),
            ),
          )
        ]
      ]
