-- ===== src/Shared/Contention/Grants.antt =====
-- The steps of a caller that has a lease, or gets it, keep the invariant.
use petri_operator.Prelude.{
  ℕ, suc, String, true, false, ◌≡◌, refl, sym, ap, ◌∙◌, subst, inl, inr, Option, none, some, [],
  ◌==◌, ℤ, arith, eq_iff, Bool-cases,
}
use petri_operator.Shared.Contention.{
  Stage, idle, asking, holding, opened, outside, roomy, unlabelled, closing, ending, Grant, System,
  IsInTime, labelled, set, uid_of, Freed, Step, wait, mark, leave, ask, retire, take, open_up, skip,
  recognise, inspect, count, confirm, prepare, register, close, drain, release, quit,
}
use petri_operator.Shared.Contention.Invariant.{
  IsHeld, IsGood, HasRoom, Inv, IsGood-set, IsUnique-set,
}
use petri_operator.Shared.Contention.Steps.{
  IsWithin-labelled, IsUnlimited-HasRoom, has-HasRoom, IsBelow-HasRoom, still, wait_ok, mark_ok,
  leave_ok, retire_ok, move_ok, uid_old, alone,
}

module _ (max : ℤ) (target : String → String) (s : System) (inv : Inv max target s) where
  open inv use {good, unique, within, barrier}

  IsGood-stage : (a : String) (st : Stage) → s.stage a ≡ st → IsGood max target s a st
  IsGood-stage a st e = subst (λ x. IsGood max target s a x) e (good a)

  uid_of-stage :
      (a : String) (st : Stage) (u : ℕ)
      → s.stage a ≡ st
      → uid_of st ≡ some u
      → uid_of (s.stage a) ≡ some u
  uid_of-stage a st u e h = ap uid_of e ∙ h

  -- Nobody else is in time with a lease.
  no_other :
      {A : Type 0} (a b : String) (u t v r : ℕ)
      → uid_of (s.stage a) ≡ some u
      → IsHeld max target s u t
      → IsInTime t s.now
      → (b ≡ a → ⊥)
      → uid_of (s.stage b) ≡ some v
      → IsHeld max target s v r
      → IsInTime r s.now
      → A
  no_other a b u t v r ha held soon n hb there later =
      absurd (
        n (
          sym (alone max target s inv a b u t v r ha hb (held.current soon) (there.current later))))

  take_ok :
      (a : String) (t : ℕ)
      → s.lease ≡ none
      → Inv max target (record s {
        lease = some (record { uid = s.next_uid; since = t });
        next_uid = suc s.next_uid;
        stage = set a (holding s.next_uid t) s.stage;
      })
  take_ok a t e = record {
    good =
        IsGood-set max target s _ a (holding s.next_uid t) good
          (λ b n. record {
            time = omega arith;
            uids = omega arith;
            lease = λ u r h soon k. absurd (ground (arith, e, k));
            calm = λ u r h k soon. (λ d. d, λ x. x);
            closed = λ h. h;
          })
          (record { old = omega arith; current = λ soon. refl });
    unique = λ b c u hb hc. elim (Bool-cases (b == a)) [
      | inl eb ↦ elim (Bool-cases (c == a)) [
        | inl ec ↦ (eq_iff b a).0 eb ∙ sym ((eq_iff c a).0 ec)
        | inr ec ↦ absurd (fresh c u (rw ec at hc) (rw eb at hb))
      ]
      | inr eb ↦ elim (Bool-cases (c == a)) [
        | inl ec ↦ absurd (fresh b u (rw eb at hb) (rw ec at hc))
        | inr ec ↦ unique b c u (rw eb at hb) (rw ec at hc)
      ]
    ];
    within = within;
    barrier = barrier;
  }
    where
      fresh : (b : String) (u : ℕ) → uid_of (s.stage b) ≡ some u → some s.next_uid ≡ some u → ⊥
      fresh b u h k =
          let old = uid_old max target s inv b (s.stage b) u (good b) h in
          let same : s.next_uid ≡ u = cc in omega (arith, old, same)

  -- A caller with a lease comes to another stage with it.
  next_ok :
      (a : String) (st st' : Stage) (u : ℕ)
      → s.stage a ≡ st
      → uid_of st ≡ some u
      → uid_of st' ≡ some u
      → IsGood max target s a st'
      → Inv max target (record s { stage = set a st' s.stage })
  next_ok a st st' u e before after own =
      move_ok max target s inv a st' own (λ v h. uid_of-stage a st v e (before ∙ (sym after ∙ h)))

  open_up_ok :
      (a : String) (u t : ℕ)
      → s.stage a ≡ holding u t
      → s.deleting ≡ false
      → Inv max target (record s { stage = set a (opened u t) s.stage })
  open_up_ok a u t e here = next_ok a (holding u t) (opened u t) u e refl refl (
    IsGood-stage a (holding u t) e,
    λ soon. elim (Bool-cases s.drained) [
      | inl d ↦ absurd (ground (arith, here, (barrier d).0))
      | inr d ↦ d
    ],
  )

  roomy_ok :
      (a : String) (st : Stage) (u t : ℕ)
      → s.stage a ≡ st
      → uid_of st ≡ some u
      → IsHeld max target s u t × (IsInTime t s.now → s.drained ≡ false)
      → HasRoom max (target a) s.consumers
      → Inv max target (record s { stage = set a (roomy u t) s.stage })
  roomy_ok a st u t e mine (held, clear) room =
      next_ok a st (roomy u t) u e mine refl
        (held, λ soon. record { room = room; undrained = clear soon })

  register_ok :
      (a : String) (u t : ℕ)
      → s.stage a ≡ unlabelled u t
      → IsInTime t s.now
      → Inv max target (record s {
        consumers = labelled (target a) s.consumers;
        stage = set a (ending u t) s.stage;
      })
  register_ok a u t e soon = record {
    good =
        IsGood-set max target s _ a (ending u t) good
          (λ b n.
            still max target s inv _ b (s.stage b) (omega arith) (omega arith) refl (λ h. h)
              (λ v r h k later.
                no_other a b u t v r (uid_of-stage a (unlabelled u t) u e refl) there.0 soon n h k
                  later))
          (record { old = there.0.old; current = there.0.current });
    unique =
        IsUnique-set max target s.stage a (ending u t) unique
          (λ v h. uid_of-stage a (unlabelled u t) v e h);
    within = IsWithin-labelled max target max (target a) s.consumers (there.1 soon).room within;
    barrier = λ d. absurd (ground (arith, d, (there.1 soon).undrained));
  }
    where
      there : IsGood max target s a (unlabelled u t)
      there = IsGood-stage a (unlabelled u t) e

  drain_ok :
      (a : String) (u t : ℕ)
      → s.stage a ≡ closing u t
      → IsInTime t s.now
      → s.consumers ≡ []
      → Inv max target (record s { drained = true; stage = set a (ending u t) s.stage })
  drain_ok a u t e soon none_left = record {
    good =
        IsGood-set max target s _ a (ending u t) good
          (λ b n.
            still max target s inv _ b (s.stage b) (omega arith) (omega arith) refl (λ h. h)
              (λ v r h k later.
                no_other a b u t v r (uid_of-stage a (closing u t) u e refl) there.0 soon n h k
                  later))
          (record { old = there.0.old; current = there.0.current });
    unique =
        IsUnique-set max target s.stage a (ending u t) unique
          (λ v h. uid_of-stage a (closing u t) v e h);
    within = within;
    barrier = λ d. (there.1, none_left);
  }
    where
      there : IsGood max target s a (closing u t)
      there = IsGood-stage a (closing u t) e

  release_ok :
      (a : String) (u : ℕ) (after : Option Grant)
      → uid_of (s.stage a) ≡ some u
      → Freed s.lease u after
      → Inv max target (record s { lease = after; stage = set a idle s.stage })
  release_ok a u after h f = record {
    good =
        IsGood-set max target s _ a idle good
          (λ b n. record {
            time = omega arith;
            uids = omega arith;
            lease = λ v r hb soon k. elim f [
              | inl (g, before, mine, gone) ↦
                  let same : g ≡ record { uid = v; since = r } = cc in
                  absurd (n (unique b a u (hb ∙ ap some (sym (ap (λ x. x.uid) same) ∙ mine)) h))
              | inr (other, kept) ↦ kept ∙ k
            ];
            calm = λ v r hb k soon. (λ d. d, λ x. x);
            closed = λ k. k;
          })
          tt;
    unique = IsUnique-set max target s.stage a idle unique (λ v k. absurd (ground (arith, k)));
    within = within;
    barrier = barrier;
  }

  pub Step-Inv : {s' : System} → Step max target s s' → Inv max target s'
  Step-Inv wait = wait_ok max target s inv
  Step-Inv mark = mark_ok max target s inv
  Step-Inv (leave a) = leave_ok max target s inv a
  Step-Inv (ask a) =
      move_ok max target s inv a (asking s.now) tt (λ u h. absurd (ground (arith, h)))
  Step-Inv (retire a t g e l d) = retire_ok max target s inv g l d
  Step-Inv (take a t e soon l) = take_ok a t l
  Step-Inv (open_up a u t e soon here) = open_up_ok a u t e here
  Step-Inv (skip a u t e free) =
      roomy_ok a (opened u t) u t e refl (IsGood-stage a (opened u t) e)
        (IsUnlimited-HasRoom max target max (target a) s.consumers free)
  Step-Inv (recognise a u t e soon known) =
      roomy_ok a (opened u t) u t e refl (IsGood-stage a (opened u t) e)
        (has-HasRoom max target max (target a) s.consumers known)
  Step-Inv (inspect a u t e soon unknown) =
      next_ok a (opened u t) (outside u t) u e refl refl (IsGood-stage a (opened u t) e)
  Step-Inv (count a u t e soon below) =
      roomy_ok a (outside u t) u t e refl (IsGood-stage a (outside u t) e)
        (IsBelow-HasRoom max target max (target a) s.consumers below)
  Step-Inv (confirm a u t e soon known) =
      next_ok a (roomy u t) (ending u t) u e refl refl (IsGood-stage a (roomy u t) e).0
  Step-Inv (prepare a u t e soon unknown) =
      next_ok a (roomy u t) (unlabelled u t) u e refl refl (IsGood-stage a (roomy u t) e)
  Step-Inv (register a u t e soon) = register_ok a u t e soon
  Step-Inv (close a u t e soon gone) =
      next_ok a (holding u t) (closing u t) u e refl refl (IsGood-stage a (holding u t) e, gone)
  Step-Inv (drain a u t e soon n) = drain_ok a u t e soon n
  Step-Inv (release a u after h f) = release_ok a u after h f
  Step-Inv (quit a) = move_ok max target s inv a idle tt (λ u h. absurd (ground (arith, h)))
