-- ===== src/Shared/Contention/Invariant.antt =====
-- What holds of the callers at every moment, and how it carries over from one moment to the next.
use petri_operator.Prelude.{
  ℕ, zero, suc, ◌≤◌, ◌<◌, String, true, false, ◌≡◌, ◌⊎◌, refl, sym, subst, inl, inr, some, List, [],
  ◌==◌, ℤ, pos, negsuc, length, arith, eq_iff, Bool-cases,
}
use petri_operator.Shared.Contention.{
  Stage, idle, asking, holding, opened, outside, roomy, unlabelled, closing, ending, System,
  IsInTime, has, set, uid_of,
}

-- The limit of consumers, of which zero and less are none, is kept.
abbrev pub IsWithin : ℤ → List String → Type 0
IsWithin (pos zero) cs = Unit
IsWithin (negsuc n) cs = Unit
IsWithin (pos (suc n)) cs = length cs ≤ suc n

-- A namespace may be labelled: it is already, or there is room for one more.
abbrev pub HasRoom : ℤ → String → List String → Type 0
HasRoom (pos zero) a cs = Unit
HasRoom (negsuc n) a cs = Unit
HasRoom (pos (suc n)) a cs = (has a cs ≡ true) ⊎ (length cs < suc n)

module _ (max : ℤ) (target : String → String) where
  -- A lease that was granted; as long as its holder is in time, the server has it.
  pub record IsHeld (s : System) (u t : ℕ) : Type 0 where
    pub old : u < s.next_uid
    pub current : IsInTime t s.now → s.lease ≡ some (record { uid = u; since = t })

  -- A caller that may go on to label its namespace.
  pub record IsRoomy (s : System) (a : String) : Type 0 where
    pub room : HasRoom max (target a) s.consumers
    pub undrained : s.drained ≡ false

  abbrev pub IsGood : System → String → Stage → Type 0
  IsGood s a idle = Unit
  IsGood s a (asking t) = Unit
  IsGood s a (holding u t) = IsHeld s u t
  IsGood s a (opened u t) = IsHeld s u t × (IsInTime t s.now → s.drained ≡ false)
  IsGood s a (outside u t) = IsHeld s u t × (IsInTime t s.now → s.drained ≡ false)
  IsGood s a (roomy u t) = IsHeld s u t × (IsInTime t s.now → IsRoomy s a)
  IsGood s a (unlabelled u t) = IsHeld s u t × (IsInTime t s.now → IsRoomy s a)
  IsGood s a (closing u t) = IsHeld s u t × (s.deleting ≡ true)
  IsGood s a (ending u t) = IsHeld s u t

  -- Different callers have different leases.
  abbrev pub IsUnique : (String → Stage) → Type 0
  IsUnique stage =
      (a b : String) (u : ℕ) → uid_of (stage a) ≡ some u → uid_of (stage b) ≡ some u → a ≡ b

  pub record Inv (s : System) : Type 0 where
    pub good : (a : String) → IsGood s a (s.stage a)
    pub unique : IsUnique s.stage
    pub within : IsWithin max s.consumers
    pub barrier : s.drained ≡ true → (s.deleting ≡ true) × (s.consumers ≡ [])

  -- What a step must leave to a caller: its lease while it is in time, and its room.
  pub record Spares (s s' : System) (a : String) (st : Stage) : Type 0 where
    pub time : s.now ≤ s'.now
    pub uids : s.next_uid ≤ s'.next_uid
    pub lease :
        (u t : ℕ)
        → uid_of st ≡ some u
        → IsInTime t s.now
        → s.lease ≡ some (record { uid = u; since = t })
        → s'.lease ≡ some (record { uid = u; since = t })
    pub calm :
        (u t : ℕ)
        → uid_of st ≡ some u
        → IsHeld s u t
        → IsInTime t s.now
        → (s.drained ≡ false → s'.drained ≡ false)
          × (HasRoom max (target a) s.consumers → HasRoom max (target a) s'.consumers)
    pub closed : s.deleting ≡ true → s'.deleting ≡ true

  module _ (s s' : System) (a : String) where
    IsHeld-Spares :
        (st : Stage) (u t : ℕ)
        → Spares s s' a st
        → uid_of st ≡ some u
        → IsHeld s u t
        → IsHeld s' u t
    IsHeld-Spares st u t sp e h = record {
      old = omega (arith, h.old, sp.uids);
      current = λ soon.
          let before : IsInTime t s.now = omega (arith, soon, sp.time) in
          sp.lease u t e before (h.current before);
    }

    open-Spares :
        (st : Stage) (u t : ℕ)
        → Spares s s' a st
        → uid_of st ≡ some u
        → IsHeld s u t × (IsInTime t s.now → s.drained ≡ false)
        → IsHeld s' u t × (IsInTime t s'.now → s'.drained ≡ false)
    open-Spares st u t sp e (h, o) = (
      IsHeld-Spares st u t sp e h,
      λ soon.
          let before : IsInTime t s.now = omega (arith, soon, sp.time) in
          (sp.calm u t e h before).0 (o before),
    )

    IsRoomy-Spares :
        (st : Stage) (u t : ℕ)
        → Spares s s' a st
        → uid_of st ≡ some u
        → IsHeld s u t × (IsInTime t s.now → IsRoomy s a)
        → IsHeld s' u t × (IsInTime t s'.now → IsRoomy s' a)
    IsRoomy-Spares st u t sp e (h, r) = (
      IsHeld-Spares st u t sp e h,
      λ soon.
          let before : IsInTime t s.now = omega (arith, soon, sp.time) in
          let (clear, room) = sp.calm u t e h before in
          record { room = room (r before).room; undrained = clear (r before).undrained },
    )

    pub IsGood-Spares : (st : Stage) → Spares s s' a st → IsGood s a st → IsGood s' a st
    IsGood-Spares idle sp h = tt
    IsGood-Spares (asking t) sp h = tt
    IsGood-Spares (holding u t) sp h = IsHeld-Spares (holding u t) u t sp refl h
    IsGood-Spares (opened u t) sp h = open-Spares (opened u t) u t sp refl h
    IsGood-Spares (outside u t) sp h = open-Spares (outside u t) u t sp refl h
    IsGood-Spares (roomy u t) sp h = IsRoomy-Spares (roomy u t) u t sp refl h
    IsGood-Spares (unlabelled u t) sp h = IsRoomy-Spares (unlabelled u t) u t sp refl h
    IsGood-Spares (closing u t) sp (h, c) = (IsHeld-Spares (closing u t) u t sp refl h, sp.closed c)
    IsGood-Spares (ending u t) sp h = IsHeld-Spares (ending u t) u t sp refl h

  -- One caller moves on, the others are spared.
  pub IsGood-set :
      (s s' : System) (a : String) (st : Stage)
      → ((b : String) → IsGood s b (s.stage b))
      → ((b : String) → (b ≡ a → ⊥) → Spares s s' b (s.stage b))
      → IsGood s' a st
      → (b : String) → IsGood s' b (set a st s.stage b)
  IsGood-set s s' a st good spares own b = elim (Bool-cases (b == a)) [
    | inl e ↦ rw e (subst (λ x. IsGood s' x st) (sym ((eq_iff b a).0 e)) own)
    | inr e ↦
        rw e (
          IsGood-Spares s s' b (s.stage b) (spares b (λ same. ground (arith, eq_iff b a))) (good b))
  ]

  -- The new stage has the caller's own lease, or none.
  pub IsUnique-set :
      (stage : String → Stage) (a : String) (st : Stage)
      → IsUnique stage
      → ((u : ℕ) → uid_of st ≡ some u → uid_of (stage a) ≡ some u)
      → IsUnique (set a st stage)
  IsUnique-set stage a st unique own b c u hb hc = unique b c u (back b hb) (back c hc)
    where
      back : (d : String) → uid_of (set a st stage d) ≡ some u → uid_of (stage d) ≡ some u
      back d h = elim (Bool-cases (d == a)) [
        | inl e ↦
            subst (λ x. uid_of (stage x) ≡ some u) (sym ((eq_iff d a).0 e)) (own u (rw e at h))
        | inr e ↦ (rw e at h)
      ]
