-- ===== src/Environments/Reconcile/Timing.antt =====
-- When a reconciliation is repeated.
use petri_operator.Prelude.{
  ℕ, ◌+◌, ◌≤◌, String, true, ◌≡◌, ◌≢◌, refl, sym, subst, Option, none, some, List, leb, ℤ, arith,
  inl, inr, ◌⊎◌, Bool-cases,
}
use petri_operator.Prelude.Effects.{Result, ok, err, M, Result-cases, ok-injective}
use petri_operator.Types.{ComponentSpec, EnvironmentPhase}
use petri_operator.Cluster.{Api}
use petri_operator.Platform.{Platform}
use petri_operator.Status.{PhaseMap}
use petri_operator.Namespaces.{World, Reconciler}
use petri_operator.Environments.{is_phase, join}
use petri_operator.Environments.Frontier.{next_try}
use petri_operator.Environments.Reconcile.{body, in_time, settle, reconcile}

-- A try is due after at least one nanosecond; it is not after the deadline, unless that has passed
-- and the try is due at once; and it is not later than the time asked for, if one was.
abbrev pub IsDue : (requeue deadline time : ℕ) → ℕ → Type 0
IsDue requeue deadline time t =
    (1 ≤ t) × ((time + t ≤ deadline) ⊎ ((deadline ≤ time) × (t ≡ 1))) × (requeue ≢ 0 → t ≤ requeue)

next_try-IsDue :
    (requeue deadline time : ℕ) → IsDue requeue deadline time (next_try requeue deadline time)
unfolding next_try
next_try-IsDue requeue deadline time = elim (Bool-cases (leb deadline time)) [
  | inl late ↦ (ground arith, inr (ground arith, ground arith), λ h. ground arith)
  | inr early ↦ (ground arith, inl (ground arith), λ h. ground arith)
]

is_phase-terminating :
    (phase : EnvironmentPhase)
    → is_phase phase EnvironmentPhase.terminating ≡ true
    → phase ≡ EnvironmentPhase.terminating
is_phase-terminating EnvironmentPhase.terminating h = refl
is_phase-terminating EnvironmentPhase.unset h = absurd (ground (arith, h))
is_phase-terminating EnvironmentPhase.pending h = absurd (ground (arith, h))
is_phase-terminating EnvironmentPhase.deploying h = absurd (ground (arith, h))
is_phase-terminating EnvironmentPhase.ready h = absurd (ground (arith, h))
is_phase-terminating EnvironmentPhase.failed h = absurd (ground (arith, h))

join_ok : {A B : Type 0} (r : Result A) (s : Result B) (a : A) → join r s ≡ ok a → r ≡ ok a
join_ok r (ok b) a h = h
join_ok (ok x) (err e) a h = absurd (ground (arith, h))
join_ok (err x) (err e) a h = absurd (ground (arith, h))

module _ (api : Api) (p : Platform) (r : Reconciler) (default_timeout : ℤ)
    (process : String → List ComponentSpec → PhaseMap → ℤ → M World ℕ) where
  -- What the deferred function makes of a requeue time, by the world that the pass has left.
  abbrev pub IsCut : World → ℕ → Option ℕ → ℕ → Type 0
  IsCut w requeue none t = t ≡ requeue
  IsCut w requeue (some deadline) t =
      ((w.env.status.phase ≡ EnvironmentPhase.terminating) × (t ≡ requeue))
      ⊎ ((w.env.status.phase ≢ EnvironmentPhase.terminating)
          × IsDue requeue deadline (api.time_at w.log) t)

  in_time-IsCut :
      (requeue : ℕ) (deadline : Option ℕ) (w : World) (t : ℕ)
      → (in_time api p r default_timeout process (ok (requeue, deadline)) w).0 ≡ ok t
      → IsCut w requeue deadline t
  unfolding in_time
  in_time-IsCut requeue none w t h = sym (ok-injective h)
  in_time-IsCut requeue (some d) w t h =
      elim (Bool-cases (is_phase w.env.status.phase EnvironmentPhase.terminating)) [
        | inl e ↦ inl (is_phase-terminating w.env.status.phase e, sym (ok-injective (rw e at h)))
        | inr e ↦ inr (
          λ same. ground (arith, rw same at e),
          subst (IsDue requeue d (api.time_at w.log)) (ok-injective (rw e at h))
              (next_try-IsDue requeue d (api.time_at w.log)),
        )
      ]

  -- If `reconcile` succeeds with a requeue time, its pass has asked for a time and has left the
  -- deadline of the environment, or none. Without a deadline, and in the phase Terminating, the
  -- requeue time is the one that the pass asked for. Else it is at least one nanosecond; by the
  -- clock as it is after the pass it is not after the deadline, unless that has passed and it is one
  -- nanosecond; and it is not later than the pass asked for, if that was not 0.
  pub reconcile-IsCut :
      (w : World) (t : ℕ)
      → (reconcile api p r default_timeout process w).0 ≡ ok t
      → (requeue : ℕ) × ((deadline : Option ℕ) × ((body api p r default_timeout process w).0
            ≡ ok (requeue, deadline))
          × IsCut (body api p r default_timeout process w).1 requeue deadline t)
  unfolding reconcile
  reconcile-IsCut w t h =
      let done = body api p r default_timeout process w in
      let cut = in_time api p r default_timeout process done.0 done.1 in
      let patched = settle api p r default_timeout process w.env cut.1 in
      let kept : cut.0 ≡ ok t = join_ok cut.0 patched.0 t h in
      elim (Result-cases done.0) [
        | inr (x, e) ↦ absurd (ground (arith, rw (e, in_time) at kept))
        | inl ((requeue, deadline), e) ↦
            (requeue, (deadline, e, in_time-IsCut requeue deadline done.1 t (rw e at kept)))
      ]
