-- ===== src/Undeploys/Down.antt =====
-- The specification of a finished undeploy: the observations of every component, in a list of
-- levels, and what was made of each.
use petri_operator.Prelude.{
  true, false, String, ◌≡◌, ◌≢◌, refl, ◌⊎◌, List, [], ◌∷◌, arith, inl, inr, All, All-map,
  Bool-cases, Option-cases, some, i32_lt, ◌==◌, eq_iff, not, ◌&&◌,
}
use Prim.Native.String.{◌++◌ as join}
use petri_operator.Prelude.Effects.{Result, ok, err}
use petri_operator.Types.{ComponentSpec, ComponentStatus}
use petri_operator.Jobs.{JobPhase, JobState, take}
use petri_operator.Status.{find_component, max_deploy_retries, record_runtime_failure}
use petri_operator.Namespaces.{World}
use petri_operator.Deploys.{Deployer, deploy_opts}
use petri_operator.Undeploys.{is_forced}

-- The component is one of a level.
abbrev pub IsListed : ComponentSpec → List ComponentSpec → Type 0
IsListed c [] = ⊥
IsListed c (x ∷ xs) = (c ≡ x) ⊎ IsListed c xs

abbrev pub IsIn : List (List ComponentSpec) → ComponentSpec → Type 0
IsIn [] c = ⊥
IsIn (level ∷ levels) c = IsListed c level ⊎ IsIn levels c

pub IsListed-All : (level : List ComponentSpec) → All (λ c. IsListed c level) level
IsListed-All [] = tt
IsListed-All (c ∷ level) = (inl refl, All-map level (λ x h. inr h) (IsListed-All level))

pub IsIn-All : (levels : List (List ComponentSpec)) → All (All (IsIn levels)) levels
IsIn-All [] = tt
IsIn-All (level ∷ levels) = (
  All-map level (λ c h. inl h) (IsListed-All level),
  All-map levels (λ l. All-map l (λ c h. inr h)) (IsIn-All levels),
)

-- The status of the component says that an earlier undeploy has used up its retries.
abbrev pub IsExhausted : ComponentSpec → List ComponentStatus → Type 0
IsExhausted c statuses =
    (s : ComponentStatus) × (find_component c.name statuses ≡ some s)
    × (i32_lt s.deploy_retries max_deploy_retries ≡ false)
    × (take 10 s.last_failure_reason ≡ "undeploy: ")

pub is_forced-IsExhausted :
    (c : ComponentSpec) (statuses : List ComponentStatus)
    → is_forced (find_component c.name statuses) ≡ true
    → IsExhausted c statuses
is_forced-IsExhausted c statuses h = elim (Option-cases (find_component c.name statuses)) [
  | inl e ↦ absurd (ground (arith, rw e at h))
  | inr (s, e) ↦ parts s e (rw e at h)
]
  where
    parts :
        (s : ComponentStatus)
        → find_component c.name statuses ≡ some s
        → (not (i32_lt s.deploy_retries max_deploy_retries)
            && (take 10 s.last_failure_reason == "undeploy: "))
          ≡ true
        → IsExhausted c statuses
    parts s e k = elim (Bool-cases (i32_lt s.deploy_retries max_deploy_retries)) [
      | inl f ↦ absurd (ground (arith, rw f at k))
      | inr f ↦
          let start = take 10 s.last_failure_reason in
          (s, e, f, (eq_iff start "undeploy: ").0 (rw f at k))
    ]

-- The environment has other statuses of its components.
abbrev pub with_components : World → List ComponentStatus → World
with_components w statuses =
    let env = w.env in
    let s = env.status in
    record w { env = record env { status = record s { components = statuses } } }

module _ (deployer : Deployer) (target_ns : String) where
  -- What is found out about a component, and the world after that: a shared one and one with its
  -- retries used up count as undeployed without a call; of another the deployer is asked.
  abbrev pub IsObserved : ComponentSpec → World → Result JobState → World → Type 0
  IsObserved c w answer w' =
      let gone : Result JobState = ok (record { phase = JobPhase.succeeded; reason = "" }) in
      ((c.shared_component_ref ≢ "") × (answer ≡ gone) × (w' ≡ w))
      ⊎ ((IsExhausted c w.env.status.components × (answer ≡ gone) × (w' ≡ w))
          ⊎ (let asked = deployer.observe_undeploy (deploy_opts w.env target_ns c) w.log in
              (answer ≡ asked.0) × (w' ≡ record w { log = asked.1 })))

  -- The components of a level are observed one after another.
  abbrev pub AreObserved : List ComponentSpec → World → List (Result JobState) → World → Type 0
  AreObserved [] w [] w' = w' ≡ w
  AreObserved [] w (r ∷ rs) w' = ⊥
  AreObserved (c ∷ cs) w [] w' = ⊥
  AreObserved (c ∷ cs) w (r ∷ rs) w' = (u : World) × IsObserved c w r u × AreObserved cs u rs w'

  -- All answers count as an end: each is a success, or a failure whose record in the status, as the
  -- answers before have left it, uses up the retries.
  abbrev pub HasEnded : List ComponentSpec → List (Result JobState) → World → World → Type 0
  HasEnded [] [] w w' = w' ≡ w
  HasEnded [] (r ∷ rs) w w' = ⊥
  HasEnded (c ∷ cs) [] w w' = ⊥
  HasEnded (c ∷ cs) (err e ∷ rs) w w' = ⊥
  HasEnded (c ∷ cs) (ok st ∷ rs) w w' =
      let failure =
        record_runtime_failure c.name (join "undeploy: " st.reason) w.env.status.components in
      ((st.phase ≡ JobPhase.succeeded) × HasEnded cs rs w w')
      ⊎ ((st.phase ≡ JobPhase.failed)
          × (failure.1 ≡ true)
          × HasEnded cs rs (with_components w failure.0) w')

  abbrev pub IsLevelDown : List ComponentSpec → World → World → Type 0
  IsLevelDown level w w' =
      (answers : List (Result JobState)) × ((u : World) × AreObserved level w answers u
        × HasEnded level answers u w')

  -- The levels are taken down one after another, with no other call and no other change.
  abbrev pub AreDown : List (List ComponentSpec) → World → World → Type 0
  AreDown [] w w' = w' ≡ w
  AreDown (level ∷ levels) w w' = (u : World) × IsLevelDown level w u × AreDown levels u w'

  -- A list of levels with all the components is taken down.
  abbrev pub IsDown : List ComponentSpec → World → World → Type 0
  IsDown cs w w' = (order : List (List ComponentSpec)) × All (IsIn order) cs × AreDown order w w'
