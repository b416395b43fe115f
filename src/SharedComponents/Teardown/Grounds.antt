-- ===== src/SharedComponents/Teardown/Grounds.antt =====
-- On which grounds a shared component loses its finalizer.
use petri_operator.Prelude.{
  String, Bool, true, false, not, ◌||◌, ◌≡◌, refl, ap, ◌∙◌, none, some, List, [], ◌∷◌, leb, ◌==◌,
  eq_iff, arith, inl, inr, ◌⊎◌, Bool-cases, suc_ℤ, at_least, length,
}
use petri_operator.Prelude.Effects.{Err, ok, err, Result-cases, is_not_found}
use petri_operator.Types.Shared.{SharedComponent}
use petri_operator.Cluster.{
  Log, Api, Job, patch_shared, get_shared, get_job, list_labelled, get_lease, now, delete_lease,
}
use petri_operator.Cluster
use petri_operator.Cluster.Patches.{patches, IsUnpatched}
use petri_operator.Platform.{Platform}
use petri_operator.Jobs.{DeployOptions, JobPhase, JobState, JobPhase-cases}
use petri_operator.Jobs.Provisioner.{shared_namespace}
use petri_operator.Status.{max_deploy_retries}
use petri_operator.Deploys.{Deployer}
use petri_operator.Shared.{shared_label}
use petri_operator.Shared.Lease.{acquire_provision_lease, with_lease, release_provision_lease}
use petri_operator.SharedComponents.{shared_finalizer, count_consumers}
use petri_operator.SharedComponents.Teardown.{
  unprotected, annotated, retries_of, uninstall_opts, drain, consumers_drained, release,
  count_failure, judge, uninstall, is_active, deploy_job, tear_down, after_drain, reconcile_delete,
}

-- The deployer does not patch shared components.
abbrev pub IsQuiet : Deployer → Type 0
IsQuiet deployer =
    ((opts : DeployOptions) → IsUnpatched (deployer.observe_undeploy opts))
    × ((opts : DeployOptions) → IsUnpatched (deployer.submit_undeploy opts))

acquire-IsUnpatched :
    (api : Api) (live : Bool) (name namespace holder : String)
    → IsUnpatched (acquire_provision_lease api live name namespace holder)
unfolding acquire_provision_lease
acquire-IsUnpatched api live name namespace holder log = ground arith

module _ (api : Api) (p : Platform) (live : Bool) (deployer : Deployer) where
  drain-IsUnpatched : (sc : SharedComponent) → IsUnpatched (drain api p live deployer sc)
  unfolding drain count_consumers
  drain-IsUnpatched sc log = ground arith

  consumers_drained-IsUnpatched :
      (sc : SharedComponent) → IsUnpatched (consumers_drained api p live deployer sc)
  unfolding consumers_drained with_lease release_provision_lease
  consumers_drained-IsUnpatched sc log =
      let holder : String = "shared-component-deletion" in
      let got = acquire_provision_lease api live sc.name sc.namespace holder log in
      let kept = acquire-IsUnpatched api live sc.name sc.namespace holder log in
      elim (Result-cases got.0) [
        | inr (x, e) ↦ rw e kept
        | inl (none, e) ↦ rw e kept
        | inl (some l, e) ↦ rw e (drain-IsUnpatched sc got.1 ∙ kept)
      ]

  -- Under a lease that the server created for this, a read found the component that is being
  -- deleted, and a list after that no consumers.
  abbrev pub IsDrained : SharedComponent → Log → SharedComponent → Type 0
  IsDrained sc log again =
      (l : Cluster.Lease) × ((start : Log) × (acquire_provision_lease api live sc.name sc.namespace
            "shared-component-deletion" log
          ≡ (ok (some l), start))
        × (api.shared_at live sc.namespace sc.name start ≡ ok again)
        × (again.uid ≡ sc.uid)
        × (again.deleting ≡ true)
        × (api.labelled_of live (shared_label sc.name)
              (get_shared live sc.namespace sc.name ∷ start)
            ≡ ok []))

  no_members : {A : Type 0} (xs : List A) → leb (length xs) 0 ≡ true → xs ≡ []
  no_members [] h = refl
  no_members (x ∷ xs) h = absurd (ground arith)

  consumers_drained_ok :
      (sc again : SharedComponent) (log : Log)
      → (consumers_drained api p live deployer sc log).0 ≡ ok (some again)
      → IsDrained sc log again
  unfolding consumers_drained with_lease release_provision_lease drain count_consumers
  consumers_drained_ok sc again log h =
      let got =
        acquire_provision_lease api live sc.name sc.namespace "shared-component-deletion" log in
      elim (Result-cases got.0) [
        | inr (x, e) ↦ absurd (ground (arith, rw e at h))
        | inl (none, e) ↦ absurd (ground (arith, rw e at h))
        | inl (some l, e) ↦ elim (Result-cases (api.shared_at live sc.namespace sc.name got.1)) [
          | inr (x, f) ↦ absurd (ground (arith, rw (e, f) at h))
          | inl (found, f) ↦ elim (Bool-cases (not (found.uid == sc.uid) || not found.deleting)) [
            | inl g ↦ absurd (ground (arith, rw (e, f, g) at h))
            | inr g ↦
                let asked = get_shared live sc.namespace sc.name ∷ got.1 in
                elim (Result-cases (api.labelled_of live (shared_label sc.name) asked)) [
                  | inr (x, k) ↦ absurd (ground (arith, rw (e, f, g, k) at h))
                  | inl (nss, k) ↦
                      elim (Result-cases
                        (api.context_at (list_labelled live (shared_label sc.name) ∷ asked))) [
                          | inr (x, m) ↦ absurd (ground (arith, rw (e, f, g, k, m) at h))
                          | inl (tt, m) ↦ elim (Bool-cases (leb (length nss) 0)) [
                            | inr n ↦ absurd (ground (arith, rw (e, f, g, k, m, n) at h))
                            | inl n ↦
                                let same : ok (some found) ≡ ok (some again) =
                                  rw (e, f, g, k, m, n) at h in
                                (
                                  l,
                                  (
                                    got.1,
                                    ground (arith, e),
                                    ground (arith, f, same),
                                    ground (arith, g, same, eq_iff found.uid sc.uid),
                                    ground (arith, g, same),
                                    ground (arith, k, no_members nss n),
                                  ),
                                )
                          ]
                        ]
                ]
          ]
        ]
      ]

  -- A live read answers that there is no deploy Job, or that it has ended and stays.
  abbrev pub IsIdle : SharedComponent → Type 0
  IsIdle again =
      (log : Log) × (((e : Err) × (api.job_at live shared_namespace
              (deploy_job api p live deployer again) log
            ≡ err e)
          × (is_not_found e ≡ true))
        ⊎ ((job : Job) × (api.job_at live shared_namespace (deploy_job api p live deployer again)
                log
              ≡ ok job)
            × (is_active api p live deployer job ≡ false)))

  -- The uninstall was observed to succeed, or to fail once more than the retries allow.
  abbrev pub IsUninstalled : SharedComponent → Type 0
  IsUninstalled again =
      (st : JobState) × ((log : Log) × ((deployer.observe_undeploy (uninstall_opts p again) log).0
          ≡ ok st)
        × ((st.phase ≡ JobPhase.succeeded)
            ⊎ ((st.phase ≡ JobPhase.failed)
                × (at_least max_deploy_retries (suc_ℤ (retries_of p again)) ≡ true))))

  -- What a pass over a component that is being deleted patches.
  pub data Outcome (sc : SharedComponent) (log : Log) : Log → Type 0 where
    kept : {log' : Log} → patches log' ≡ patches log → Outcome sc log log'
    counted :
        (again : SharedComponent)
        → IsDrained sc log again
        → {log' : Log} → patches log' ≡ annotated again (suc_ℤ (retries_of p again)) ∷ patches log
        → Outcome sc log log'
    released :
        (again : SharedComponent)
        → IsDrained sc log again
        → IsIdle again
        → IsUninstalled again
        → {log' : Log} → patches log' ≡ unprotected p again ∷ patches log
        → Outcome sc log log'

  module _ (quiet : IsQuiet deployer) (sc again : SharedComponent) (start : Log)
      (drained : IsDrained sc start again) where
    patches-release :
        (log : Log)
        → patches (release api p live deployer again log).1 ≡ unprotected p again ∷ patches log
    unfolding release
    patches-release log = ground arith

    judge-Outcome :
        (st : JobState) (log log' : Log)
        → patches log ≡ patches start
        → IsIdle again
        → (deployer.observe_undeploy (uninstall_opts p again) log').0 ≡ ok st
        → Outcome sc start (judge api p live deployer again st log).1
    unfolding judge count_failure
    judge-Outcome st log log' same idle seen =
        let free = patches-release log in
        elim (JobPhase-cases st.phase) [
          | inl e ↦ rw e (released again drained idle (st, (log', seen, inl e)) (rw (← same) free))
          | inr (inl e) ↦ rw e (kept same)
          | inr (inr (inl e)) ↦
              let sent = deployer.submit_undeploy (uninstall_opts p again) log in
              let fine = quiet.1 (uninstall_opts p again) log ∙ same in
              elim (Result-cases sent.0) [
                | inl (tt, f) ↦ rw (e, f) (kept fine)
                | inr (x, f) ↦ rw (e, f) (kept fine)
              ]
          | inr (inr (inr e)) ↦
              let retries = suc_ℤ (retries_of p again) in
              elim (Bool-cases (at_least max_deploy_retries retries)) [
                | inl f ↦
                    rw (e, f)
                      (released again drained idle (st, (log', seen, inr (e, f)))
                        (rw (← same) free))
                | inr f ↦ elim (Result-cases (api.shared_patched (annotated again retries) log)) [
                  | inl (tt, g) ↦
                      rw (e, f, g)
                        (counted again drained (ap (λ ps. annotated again retries ∷ ps) same))
                  | inr (x, g) ↦
                      rw (e, f, g)
                        (counted again drained (ap (λ ps. annotated again retries ∷ ps) same))
                ]
              ]
        ]

    uninstall-Outcome :
        (log : Log)
        → patches log ≡ patches start
        → IsIdle again
        → Outcome sc start (uninstall api p live deployer again log).1
    unfolding uninstall
    uninstall-Outcome log same idle =
        let seen = deployer.observe_undeploy (uninstall_opts p again) log in
        let fine = quiet.0 (uninstall_opts p again) log ∙ same in
        elim (Result-cases seen.0) [
          | inr (x, e) ↦ rw e (kept fine)
          | inl (st, e) ↦ rw e (judge-Outcome st seen.1 log fine idle e)
        ]

    tear_down-Outcome :
        (log : Log)
        → patches log ≡ patches start
        → Outcome sc start (tear_down api p live deployer again log).1
    unfolding tear_down
    tear_down-Outcome log same =
        let name = deploy_job api p live deployer again in
        let asked = get_job live shared_namespace name ∷ log in
        elim (Result-cases (api.job_at live shared_namespace name log)) [
          | inr (x, e) ↦ elim (Bool-cases (is_not_found x)) [
            | inl f ↦ rw (e, f) (uninstall-Outcome asked same (log, inl (x, e, f)))
            | inr f ↦ rw (e, f) (kept same)
          ]
          | inl (job, e) ↦ elim (Bool-cases (is_active api p live deployer job)) [
            | inl f ↦ rw (e, f) (kept same)
            | inr f ↦ rw (e, f) (uninstall-Outcome asked same (log, inr (job, e, f)))
          ]
        ]

  -- A pass over a shared component that is being deleted sends at most one patch of it. It removes
  -- the finalizer only after all of these: a read under a lease of its own found the same component
  -- being deleted, and a list under that lease no consumers; a live read found the deploy Job missing
  -- or ended; and the uninstall was observed to succeed, or to fail with no retries left. The other
  -- patch, also after the drain, counts a failed uninstall. The deployer is one that patches no
  -- shared component.
  pub reconcile_delete-Outcome :
      IsQuiet deployer
      → (sc : SharedComponent) (log : Log)
      → Outcome sc log (reconcile_delete api p live deployer sc log).1
  unfolding reconcile_delete after_drain
  reconcile_delete-Outcome quiet sc log =
      let drained = consumers_drained api p live deployer sc log in
      let same = consumers_drained-IsUnpatched sc log in
      elim (Bool-cases (p.contains_finalizer sc.finalizers shared_finalizer)) [
        | inr e ↦ rw e (kept refl)
        | inl e ↦ elim (Result-cases drained.0) [
          | inr (x, f) ↦ rw (e, f) (kept same)
          | inl (none, f) ↦ rw (e, f) (kept same)
          | inl (some again, f) ↦
              rw (e, f)
                (tear_down-Outcome quiet sc again log (consumers_drained_ok sc again log f)
                  drained.1 same)
        ]
      ]
