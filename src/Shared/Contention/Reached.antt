-- ===== src/Shared/Contention/Reached.antt =====
-- What holds in every system that the callers can reach.
use petri_operator.Prelude.{
  ℕ, zero, suc, String, true, ◌≡◌, refl, subst, Option, none, some, [], ℤ, pos, negsuc, arith,
}
use petri_operator.Shared.Contention.{
  Stage, idle, asking, holding, opened, outside, roomy, unlabelled, closing, ending, Grant, System,
  IsInTime, uid_of, Step, wait, mark, leave, ask, retire, take, open_up, skip, recognise, inspect,
  count, confirm, prepare, register, close, drain, release, quit, init, Reach, start, later,
}
use petri_operator.Shared.Contention.Invariant.{IsHeld, IsGood, IsWithin, Inv}
use petri_operator.Shared.Contention.Steps.{alone}
use petri_operator.Shared.Contention.Grants.{Step-Inv}

abbrev pub lease_of : Stage → Option Grant
lease_of idle = none
lease_of (asking _) = none
lease_of (holding u t) = some (record { uid = u; since = t })
lease_of (opened u t) = some (record { uid = u; since = t })
lease_of (outside u t) = some (record { uid = u; since = t })
lease_of (roomy u t) = some (record { uid = u; since = t })
lease_of (unlabelled u t) = some (record { uid = u; since = t })
lease_of (closing u t) = some (record { uid = u; since = t })
lease_of (ending u t) = some (record { uid = u; since = t })

IsWithin-init : (m : ℤ) → IsWithin m []
IsWithin-init (pos zero) = tt
IsWithin-init (negsuc n) = tt
IsWithin-init (pos (suc n)) = ground arith

module _ (max : ℤ) (target : String → String) where
  Inv-init : Inv max target init
  Inv-init = record {
    good = λ a. tt;
    unique = λ a b u h k. absurd (ground (arith, h));
    within = IsWithin-init max;
    barrier = λ h. absurd (ground (arith, h));
  }

  Reach-Inv : {s : System} → Reach max target s → Inv max target s
  Reach-Inv start = Inv-init
  Reach-Inv (later r st) = Step-Inv max target _ (Reach-Inv r) st

  held_at :
      (s : System) (u t : ℕ) (g : Grant)
      → IsHeld max target s u t
      → record { uid = u; since = t } ≡ g
      → IsInTime g.since s.now
      → (some u ≡ some g.uid) × (s.lease ≡ some g)
  held_at s u t g h e =
      subst (λ (x : Grant). IsInTime x.since s.now → (some u ≡ some x.uid) × (s.lease ≡ some x)) e
        (λ soon. (refl, h.current soon))

  same : {g h : Grant} → some g ≡ some h → g ≡ h
  same e = cc

  lease_at :
      (s : System) (a : String) (st : Stage) (g : Grant)
      → IsGood max target s a st
      → lease_of st ≡ some g
      → IsInTime g.since s.now
      → (uid_of st ≡ some g.uid) × (s.lease ≡ some g)
  lease_at s a idle g h e soon = absurd (ground (arith, e))
  lease_at s a (asking t) g h e soon = absurd (ground (arith, e))
  lease_at s a (holding u t) g h e soon = held_at s u t g h (same e) soon
  lease_at s a (opened u t) g h e soon = held_at s u t g h.0 (same e) soon
  lease_at s a (outside u t) g h e soon = held_at s u t g h.0 (same e) soon
  lease_at s a (roomy u t) g h e soon = held_at s u t g h.0 (same e) soon
  lease_at s a (unlabelled u t) g h e soon = held_at s u t g h.0 (same e) soon
  lease_at s a (closing u t) g h e soon = held_at s u t g h.0 (same e) soon
  lease_at s a (ending u t) g h e soon = held_at s u t g h (same e) soon

  stays_drained : {s s' : System} → Step max target s s' → s.drained ≡ true → s'.drained ≡ true
  stays_drained wait h = h
  stays_drained mark h = h
  stays_drained (leave a) h = h
  stays_drained (ask a) h = h
  stays_drained (retire a t g e l d) h = h
  stays_drained (take a t e soon l) h = h
  stays_drained (open_up a u t e soon o) h = h
  stays_drained (skip a u t e f) h = h
  stays_drained (recognise a u t e soon k) h = h
  stays_drained (inspect a u t e soon k) h = h
  stays_drained (count a u t e soon k) h = h
  stays_drained (confirm a u t e soon k) h = h
  stays_drained (prepare a u t e soon k) h = h
  stays_drained (close a u t e soon k) h = h
  stays_drained (register a u t e soon) h = h
  stays_drained (drain a u t e soon n) h = refl
  stays_drained (release a u after e f) h = h
  stays_drained (quit a) h = h

  -- The systems that a system can come to.
  pub data Leads (s : System) : System → Type 0 where
    here : Leads s s
    further : {t u : System} → Leads s t → Step max target t u → Leads s u

  leads : {s t : System} → Reach max target s → Leads s t → Reach max target t
  leads r here = r
  leads r (further l st) = later (leads r l) st

  remains_drained : {s t : System} → Leads s t → s.drained ≡ true → t.drained ≡ true
  remains_drained here h = h
  remains_drained (further l st) h = stays_drained st (remains_drained l h)

  -- However the requests for the lease and those under it, of registrations and of the controller,
  -- are ordered, and however long they take, a shared component with a limit never has more consumers than that. The limit is taken
  -- not to change, a request to be made within the ten seconds of its context or not at all, and
  -- all clocks to agree.
  pub Reach-IsWithin : (s : System) → Reach max target s → IsWithin max s.consumers
  Reach-IsWithin s r = (Reach-Inv r).within

  -- In a system that the callers can reach, two callers that hold a lease within the ten seconds
  -- of their contexts are one.
  pub lease_of_exclusive :
      (s : System) (a b : String) (g h : Grant)
      → Reach max target s
      → lease_of (s.stage a) ≡ some g
      → IsInTime g.since s.now
      → lease_of (s.stage b) ≡ some h
      → IsInTime h.since s.now
      → a ≡ b
  lease_of_exclusive s a b g h r ea soon eb late =
      let inv = Reach-Inv r in
      let (ua, la) = lease_at s a (s.stage a) g (inv.good a) ea soon in
      let (ub, lb) = lease_at s b (s.stage b) h (inv.good b) eb late in
      alone max target s inv a b g.uid g.since h.uid h.since ua ub la lb

  -- Once the controller has found a shared component drained, it has no consumer in any system that
  -- can come after, whatever registrations there are. A request is taken to be made within the ten
  -- seconds of its context or not at all, and all clocks to agree.
  pub drained_empty :
      (s t : System) → Reach max target s → s.drained ≡ true → Leads s t → t.consumers ≡ []
  drained_empty s t r d l = ((Reach-Inv (leads r l)).barrier (remains_drained l d)).1
