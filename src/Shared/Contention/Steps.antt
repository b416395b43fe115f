-- ===== src/Shared/Contention/Steps.antt =====
-- Every step keeps the invariant.
use petri_operator.Prelude.{
  ℕ, zero, suc, ◌≤◌, ◌<◌, String, true, false, ◌≡◌, refl, sym, ap, ◌∙◌, subst, inl, inr, none, some,
  List, [], ◌∷◌, ◌==◌, ℤ, pos, negsuc, length, arith, eq_iff, Bool-cases,
}
use petri_operator.Shared.Contention.{
  Stage, idle, asking, holding, opened, outside, roomy, unlabelled, closing, ending, Grant, System,
  free_after, IsInTime, has, without, labelled, IsUnlimited, IsBelow, set, uid_of,
}
use petri_operator.Shared.Contention.Invariant.{
  IsHeld, IsGood, IsWithin, HasRoom, Inv, Spares, IsGood-Spares, IsGood-set, IsUnique-set,
}

length-without : (a : String) (cs : List String) → length (without a cs) ≤ length cs
length-without a [] = omega arith
length-without a (c ∷ cs) = ground (arith, length-without a cs)

length-without-has :
    (a : String) (cs : List String) → has a cs ≡ true → length (without a cs) < length cs
length-without-has a [] h = absurd (ground (arith, h))
length-without-has a (c ∷ cs) h = elim (Bool-cases (c == a)) [
  | inl e ↦ rw e (omega (arith, length-without a cs))
  | inr e ↦ rw e (omega (arith, length-without-has a cs (rw e at h)))
]

without-nil : (a : String) (cs : List String) → cs ≡ [] → without a cs ≡ []
without-nil a cs e = rw e refl

module _ (max : ℤ) (target : String → String) where
  IsWithin-without :
      (m : ℤ) (a : String) (cs : List String) → IsWithin m cs → IsWithin m (without a cs)
  IsWithin-without (pos zero) a cs h = tt
  IsWithin-without (negsuc n) a cs h = tt
  IsWithin-without (pos (suc n)) a cs h = omega (arith, h, length-without a cs)

  has-without : (a b : String) (cs : List String) → (b ≡ a → ⊥) → has b (without a cs) ≡ has b cs
  has-without a b [] n = refl
  has-without a b (c ∷ cs) n =
      ground (arith, has-without a b cs n, eq_iff c a, eq_iff c b, eq_iff b a)

  -- A caller has room after another, or itself, has left.
  HasRoom-without :
      (m : ℤ) (a b : String) (cs : List String)
      → HasRoom m b cs
      → IsWithin m cs
      → HasRoom m b (without a cs)
  HasRoom-without (pos zero) a b cs h k = tt
  HasRoom-without (negsuc n) a b cs h k = tt
  HasRoom-without (pos (suc n)) a b cs (inr f) k = inr (omega (arith, f, length-without a cs))
  HasRoom-without (pos (suc n)) a b cs (inl e) k = elim (Bool-cases (b == a)) [
    | inl same ↦
        let mine : has a cs ≡ true = subst (λ x. has x cs ≡ true) ((eq_iff b a).0 same) e in
        inr (omega (arith, length-without-has a cs mine, k))
    | inr other ↦ inl (has-without a b cs (λ same. ground (arith, other, eq_iff b a)) ∙ e)
  ]

  pub IsWithin-labelled :
      (m : ℤ) (a : String) (cs : List String)
      → HasRoom m a cs
      → IsWithin m cs
      → IsWithin m (labelled a cs)
  IsWithin-labelled (pos zero) a cs r h = tt
  IsWithin-labelled (negsuc n) a cs r h = tt
  IsWithin-labelled (pos (suc n)) a cs r h = elim (Bool-cases (has a cs)) [
    | inl e ↦ rw e h
    | inr e ↦ elim r [ inl f ↦ absurd (ground (arith, e, f)) | inr f ↦ rw e (omega (arith, f)) ]
  ]

  -- Each of the three ways to pass the test leaves room.
  pub IsUnlimited-HasRoom : (m : ℤ) (a : String) (cs : List String) → IsUnlimited m → HasRoom m a cs
  IsUnlimited-HasRoom (pos zero) a cs h = tt
  IsUnlimited-HasRoom (negsuc n) a cs h = tt
  IsUnlimited-HasRoom (pos (suc n)) a cs h = absurd h

  pub has-HasRoom : (m : ℤ) (a : String) (cs : List String) → has a cs ≡ true → HasRoom m a cs
  has-HasRoom (pos zero) a cs h = tt
  has-HasRoom (negsuc n) a cs h = tt
  has-HasRoom (pos (suc n)) a cs h = inl h

  pub IsBelow-HasRoom : (m : ℤ) (a : String) (cs : List String) → IsBelow m cs → HasRoom m a cs
  IsBelow-HasRoom (pos zero) a cs h = tt
  IsBelow-HasRoom (negsuc n) a cs h = tt
  IsBelow-HasRoom (pos (suc n)) a cs h = inr h

  module _ (s : System) (inv : Inv max target s) where
    open inv use {good, unique, within, barrier}

    -- A step that leaves the lease alone spares a caller if it leaves its room, and the component
    -- undrained.
    pub still :
        (s' : System) (b : String) (st : Stage)
        → s.now ≤ s'.now
        → s.next_uid ≤ s'.next_uid
        → s'.lease ≡ s.lease
        → (s.deleting ≡ true → s'.deleting ≡ true)
        → ((u t : ℕ)
            → uid_of st ≡ some u
            → IsHeld max target s u t
            → IsInTime t s.now
            → (s.drained ≡ false → s'.drained ≡ false)
              × (HasRoom max (target b) s.consumers → HasRoom max (target b) s'.consumers))
        → Spares max target s s' b st
    still s' b st time uids same closed calm = record {
      time = time;
      uids = uids;
      lease = λ u t e soon h. same ∙ h;
      calm = calm;
      closed = closed;
    }

    pub wait_ok : Inv max target (record s { now = suc s.now })
    wait_ok = record {
      good = λ a.
          IsGood-Spares max target s _ a (s.stage a)
            (still _ a (s.stage a) (omega arith) (omega arith) refl (λ h. h)
              (λ u t e h soon. (λ d. d, λ r. r)))
            (good a);
      unique = unique;
      within = within;
      barrier = barrier;
    }

    pub mark_ok : Inv max target (record s { deleting = true })
    mark_ok = record {
      good = λ a.
          IsGood-Spares max target s _ a (s.stage a)
            (still _ a (s.stage a) (omega arith) (omega arith) refl (λ h. refl)
              (λ u t e h soon. (λ d. d, λ r. r)))
            (good a);
      unique = unique;
      within = within;
      barrier = λ h. (refl, (barrier h).1);
    }

    pub leave_ok : (a : String) → Inv max target (record s { consumers = without a s.consumers })
    leave_ok a = record {
      good = λ b.
          IsGood-Spares max target s _ b (s.stage b)
            (still _ b (s.stage b) (omega arith) (omega arith) refl (λ h. h)
              (λ u t e h soon.
                (λ d. d, λ r. HasRoom-without max a (target b) s.consumers r within)))
            (good b);
      unique = unique;
      within = IsWithin-without max a s.consumers within;
      barrier = λ h. ((barrier h).0, without-nil a s.consumers (barrier h).1);
    }

    pub retire_ok :
        (g : Grant)
        → s.lease ≡ some g
        → free_after g.since < s.now
        → Inv max target (record s { lease = none })
    retire_ok g e due = record {
      good = λ b.
          IsGood-Spares max target s _ b (s.stage b)
            (record {
              time = omega arith;
              uids = omega arith;
              lease = λ u t h soon k. absurd (late u t soon k);
              calm = λ u t e h soon. (λ d. d, λ r. r);
              closed = λ h. h;
            })
            (good b);
      unique = unique;
      within = within;
      barrier = barrier;
    }
      where
        late : (u t : ℕ) → IsInTime t s.now → s.lease ≡ some (record { uid = u; since = t }) → ⊥
        late u t soon k =
            let same : g ≡ record { uid = u; since = t } = cc in
            omega (arith, ap (λ x. x.since) same, soon, due)

    -- A caller comes to another stage, with no lease but its own.
    pub move_ok :
        (a : String) (st : Stage)
        → IsGood max target s a st
        → ((u : ℕ) → uid_of st ≡ some u → uid_of (s.stage a) ≡ some u)
        → Inv max target (record s { stage = set a st s.stage })
    move_ok a st own mine = record {
      good =
          IsGood-set max target s _ a st good
            (λ b n.
              still _ b (s.stage b) (omega arith) (omega arith) refl (λ h. h)
                (λ u t e h soon. (λ d. d, λ r. r)))
            (IsGood-Spares max target s _ a st
              (still _ a st (omega arith) (omega arith) refl (λ h. h)
                (λ u t e h soon. (λ d. d, λ r. r)))
              own);
      unique = IsUnique-set max target s.stage a st unique mine;
      within = within;
      barrier = barrier;
    }

    pub uid_old :
        (b : String) (st : Stage) (u : ℕ)
        → IsGood max target s b st
        → uid_of st ≡ some u
        → u < s.next_uid
    uid_old b idle u h e = absurd (ground (arith, e))
    uid_old b (asking t) u h e = absurd (ground (arith, e))
    uid_old b (holding v t) u h e = let same : v ≡ u = cc in omega (arith, same, h.old)
    uid_old b (opened v t) u h e = let same : v ≡ u = cc in omega (arith, same, h.0.old)
    uid_old b (outside v t) u h e = let same : v ≡ u = cc in omega (arith, same, h.0.old)
    uid_old b (roomy v t) u h e = let same : v ≡ u = cc in omega (arith, same, h.0.old)
    uid_old b (unlabelled v t) u h e = let same : v ≡ u = cc in omega (arith, same, h.0.old)
    uid_old b (closing v t) u h e = let same : v ≡ u = cc in omega (arith, same, h.0.old)
    uid_old b (ending v t) u h e = let same : v ≡ u = cc in omega (arith, same, h.old)

    -- Two callers with a lease in time are one.
    pub alone :
        (a b : String) (u t v r : ℕ)
        → uid_of (s.stage a) ≡ some u
        → uid_of (s.stage b) ≡ some v
        → s.lease ≡ some (record { uid = u; since = t })
        → s.lease ≡ some (record { uid = v; since = r })
        → a ≡ b
    alone a b u t v r ha hb ka kb =
        let same : record { uid = u; since = t } ≡ record { uid = v; since = r } = cc in
        unique a b u ha (hb ∙ ap (λ (g : Grant). some g.uid) (sym same))
