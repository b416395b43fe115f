-- ===== src/Shared/Contention.antt =====
-- internal/controller/shared.go and sharedcomponent_controller.go: many environments that register
-- with one shared component, and its controller that drains it, all under one lease. A step is one
-- request to the server at most, or the passing of time, in any order. A read that changes nothing
-- for the caller, such as the last one of `registerConsumer`, is left out, and so is whether the
-- component is ready.
pub mod Invariant
pub mod Steps
pub mod Grants
pub mod Reached
mod Samples
use petri_operator.Prelude.{
  ℕ, zero, suc, ◌+◌, ◌*◌, ◌≤◌, ◌<◌, String, Bool, true, false, ◌≡◌, ◌⊎◌, Option, none, some, List,
  [], ◌∷◌, if◌then◌else◌, ◌==◌, ℤ, pos, negsuc, length,
}
use petri_operator.Cluster
use petri_operator.Shared.Lease.{new_lease, expiry_of}

-- What a caller of `acquireProvisionLease` has come to: it has read the clock; it holds a lease by
-- its UID and the time in it. `registerConsumer`: it has read the component as not being deleted;
-- it has read its namespace as not labelled; it has passed the test of the limit; `labelConsumer`
-- has read the namespace as not labelled. The controller: it has read the component as being
-- deleted. Both: it has done its work.
pub data Stage : Type 0 where
  idle : Stage
  asking : (since : ℕ) → Stage
  holding opened outside roomy unlabelled closing ending : (uid since : ℕ) → Stage

-- The lease as the server has it.
pub record Grant : Type 0 where
  pub uid : ℕ
  pub since : ℕ

-- The callers go by names of their own, since a namespace may be registered twice at once.
pub record System : Type 0 where
  pub now : ℕ
  pub lease : Option Grant
  pub next_uid : ℕ
  pub consumers : List String
  pub deleting : Bool
  pub drained : Bool
  pub stage : String → Stage

-- When a lease of this time is free for others.
abbrev pub free_after : ℕ → ℕ
free_after since = elim (expiry_of (new_lease "" "" "" since)) [ none ↦ 0 | some t ↦ t ]

-- `context.WithTimeout(ctx, 10*time.Second)` starts before the clock is read, so a request that is
-- made at all is made by then.
abbrev pub IsInTime : ℕ → ℕ → Type 0
IsInTime since now = now ≤ since + 10 * 1000000000

abbrev pub has : String → List String → Bool
has a [] = false
has a (c ∷ cs) = let rest = has a cs in if c == a then true else rest

abbrev pub without : String → List String → List String
without a [] = []
without a (c ∷ cs) = let rest = without a cs in if c == a then rest else c ∷ rest

-- labelConsumer
abbrev pub labelled : String → List String → List String
labelled a cs = if has a cs then cs else a ∷ cs

-- `sc.Spec.MaxConsumers > 0` does not hold.
abbrev pub IsUnlimited : ℤ → Type 0
IsUnlimited (pos zero) = Unit
IsUnlimited (negsuc n) = Unit
IsUnlimited (pos (suc n)) = ⊥

-- There are fewer consumers than the limit.
abbrev pub IsBelow : ℤ → List String → Type 0
IsBelow (pos zero) cs = Unit
IsBelow (negsuc n) cs = Unit
IsBelow (pos (suc n)) cs = length cs < suc n

abbrev pub set : String → Stage → (String → Stage) → String → Stage
set a st stage b = if b == a then st else stage b

abbrev pub uid_of : Stage → Option ℕ
uid_of idle = none
uid_of (asking _) = none
uid_of (holding u _) = some u
uid_of (opened u _) = some u
uid_of (outside u _) = some u
uid_of (roomy u _) = some u
uid_of (unlabelled u _) = some u
uid_of (closing u _) = some u
uid_of (ending u _) = some u

-- A delete with the precondition on the UID.
abbrev pub Freed : Option Grant → ℕ → Option Grant → Type 0
Freed before u after =
    ((g : Grant) × (before ≡ some g) × (g.uid ≡ u) × (after ≡ none))
    ⊎ (((g : Grant) → before ≡ some g → g.uid ≡ u → ⊥) × (after ≡ before))

-- `target` is the namespace that a caller registers.
pub data Step (max : ℤ) (target : String → String) (s : System) : System → Type 0 where
  wait : Step max target s (record s { now = suc s.now })
  mark : Step max target s (record s { deleting = true })
  leave :
      (namespace : String)
      → Step max target s (record s { consumers = without namespace s.consumers })
  ask : (a : String) → Step max target s (record s { stage = set a (asking s.now) s.stage })
  retire :
      (a : String) (t : ℕ) (g : Grant)
      → s.stage a ≡ asking t
      → s.lease ≡ some g
      → free_after g.since < s.now
      → Step max target s (record s { lease = none })
  take :
      (a : String) (t : ℕ)
      → s.stage a ≡ asking t
      → IsInTime t s.now
      → s.lease ≡ none
      → Step max target s (record s {
        lease = some (record { uid = s.next_uid; since = t });
        next_uid = suc s.next_uid;
        stage = set a (holding s.next_uid t) s.stage;
      })
  -- The Get of the shared component in `registerConsumer`.
  open_up :
      (a : String) (u t : ℕ)
      → s.stage a ≡ holding u t
      → IsInTime t s.now
      → s.deleting ≡ false
      → Step max target s (record s { stage = set a (opened u t) s.stage })
  -- No limit, and no request.
  skip :
      (a : String) (u t : ℕ)
      → s.stage a ≡ opened u t
      → IsUnlimited max
      → Step max target s (record s { stage = set a (roomy u t) s.stage })
  -- The Get of `isConsumer`, with its two answers.
  recognise :
      (a : String) (u t : ℕ)
      → s.stage a ≡ opened u t
      → IsInTime t s.now
      → has (target a) s.consumers ≡ true
      → Step max target s (record s { stage = set a (roomy u t) s.stage })
  inspect :
      (a : String) (u t : ℕ)
      → s.stage a ≡ opened u t
      → IsInTime t s.now
      → has (target a) s.consumers ≡ false
      → Step max target s (record s { stage = set a (outside u t) s.stage })
  -- The List of the consumers.
  count :
      (a : String) (u t : ℕ)
      → s.stage a ≡ outside u t
      → IsInTime t s.now
      → IsBelow max s.consumers
      → Step max target s (record s { stage = set a (roomy u t) s.stage })
  -- The Get of `labelConsumer`, with its two answers.
  confirm :
      (a : String) (u t : ℕ)
      → s.stage a ≡ roomy u t
      → IsInTime t s.now
      → has (target a) s.consumers ≡ true
      → Step max target s (record s { stage = set a (ending u t) s.stage })
  prepare :
      (a : String) (u t : ℕ)
      → s.stage a ≡ roomy u t
      → IsInTime t s.now
      → has (target a) s.consumers ≡ false
      → Step max target s (record s { stage = set a (unlabelled u t) s.stage })
  -- The Patch of `labelConsumer`.
  register :
      (a : String) (u t : ℕ)
      → s.stage a ≡ unlabelled u t
      → IsInTime t s.now
      → Step max target s (record s {
        consumers = labelled (target a) s.consumers;
        stage = set a (ending u t) s.stage;
      })
  -- The controller's Get of the shared component, and its List of the consumers.
  close :
      (a : String) (u t : ℕ)
      → s.stage a ≡ holding u t
      → IsInTime t s.now
      → s.deleting ≡ true
      → Step max target s (record s { stage = set a (closing u t) s.stage })
  drain :
      (a : String) (u t : ℕ)
      → s.stage a ≡ closing u t
      → IsInTime t s.now
      → s.consumers ≡ []
      → Step max target s (record s { drained = true; stage = set a (ending u t) s.stage })
  release :
      (a : String) (u : ℕ) (after : Option Grant)
      → uid_of (s.stage a) ≡ some u
      → Freed s.lease u after
      → Step max target s (record s { lease = after; stage = set a idle s.stage })
  quit : (a : String) → Step max target s (record s { stage = set a idle s.stage })

abbrev pub init : System
init = record {
  now = 0;
  lease = none;
  next_uid = 0;
  consumers = [];
  deleting = false;
  drained = false;
  stage = λ _. idle;
}

pub data Reach (max : ℤ) (target : String → String) : System → Type 0 where
  start : Reach max target init
  later : {s t : System} → Reach max target s → Step max target s t → Reach max target t
