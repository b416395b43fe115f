-- ===== src/Undeploys.antt =====
-- internal/controller/undeploy.go: the levels are undeployed from the last to the first.
pub mod Order
pub mod Down
pub mod Settled
pub mod Keeps
mod Samples
use petri_operator.Prelude.{
  ℕ, zero, ◌+◌, String, Bool, true, false, not, ◌&&◌, Option, none, some, List, [], ◌∷◌, ◌++◌,
  if◌then◌else◌, ◌==◌, i32_lt,
}
use Prim.Native.String.{count, ◌++◌ as join}
use petri_operator.Prelude.Effects.{Err, Result, ok, err, M, pure, fail, attempt, give, ◌>>=◌, ◌>>◌}
use petri_operator.Types.{ComponentSpec, ComponentStatus, Environment}
use petri_operator.Jobs.{JobPhase, JobState, take}
use petri_operator.Graph.{Built, build_levels}
use petri_operator.Status.{find_component, max_deploy_retries, requeue_after}
use petri_operator.Namespaces.{World, call, get_env}
use petri_operator.Environments
use petri_operator.Deploys.{Deployer, deploy_opts, each_component, record_failure}

-- `strings.HasPrefix`
abbrev has_prefix : String → String → Bool
has_prefix s prefix = take (count prefix) s == prefix

-- The retries of an earlier undeploy are exhausted, so that it counts as done.
abbrev is_forced : Option ComponentStatus → Bool
is_forced none = false
is_forced (some cs) =
    not (i32_lt cs.deploy_retries max_deploy_retries)
    && has_prefix cs.last_failure_reason "undeploy: "

abbrev job_state : JobPhase → JobState
job_state phase = record { phase = phase; reason = "" }

-- `errors.Join` of the errors of a level.
abbrev join_all : {A : Type 0} → List (Result A) → Result (Unit {0})
join_all [] = ok tt
join_all (r ∷ results) =
    let rest = join_all results in
    elim r [
      | ok _ ↦ rest
      | err e ↦ elim rest [
        | ok _ ↦ err e
        | err f ↦ err (record e { text = join e.text (join "\n" f.text) })
      ]
    ]

module _ (deployer : Deployer) where
  pub observe_one : String → ComponentSpec → M World JobState
  observe_one target_ns c w =
      let env = w.env in
      if not (c.shared_component_ref == "")
      then (ok (job_state JobPhase.succeeded), w)
      else if is_forced (find_component c.name env.status.components)
      then (ok (job_state JobPhase.succeeded), w)
      else call (deployer.observe_undeploy (deploy_opts env target_ns c)) w

  -- levelDone and needSubmit.
  abbrev pub Verdict : Type 0
  Verdict = Bool × List ComponentSpec

  -- The loop over the states of a level.
  judge_level : Verdict → List ComponentSpec → List (Result JobState) → M World Verdict
  judge_level v [] results = pure v
  judge_level v (c ∷ level) [] = pure v
  judge_level (done, need) (c ∷ level) (err e ∷ results) = fail e
  judge_level (done, need) (c ∷ level) (ok st ∷ results) =
      let again = judge_level (false, need ++ c ∷ []) level results in
      elim st.phase [
        | JobPhase.succeeded ↦ judge_level (done, need) level results
        | JobPhase.running ↦ judge_level (false, need) level results
        | JobPhase.pending ↦ again
        | JobPhase.failed ↦ do
          exhausted ← record_failure c.name (join "undeploy: " st.reason)
          let forced = judge_level (done, need) level results
          if exhausted then forced else again
      ]

  observe_undeploy_level : String → List ComponentSpec → M World Verdict
  unfolding observe_one judge_level
  observe_undeploy_level target_ns level = do
    results ← each_component (observe_one target_ns) level
    judge_level (true, []) level results

  submit_one : String → ComponentSpec → M World (Unit {0})
  submit_one target_ns c = do
    env ← get_env
    call (deployer.submit_undeploy (deploy_opts env target_ns c))

  submit_undeploy_level : String → List ComponentSpec → M World (Unit {0})
  unfolding submit_one
  submit_undeploy_level target_ns need = do
    results ← each_component (submit_one target_ns) need
    give (join_all results)

  undeploy_level : String → List ComponentSpec → M World Bool
  unfolding observe_undeploy_level submit_undeploy_level
  undeploy_level target_ns level = do
    (done, need) ← observe_undeploy_level target_ns level
    let submit = submit_undeploy_level target_ns need
    elim need [ [] ↦ pure tt | _ ∷ _ ↦ submit ]
    pure done

  -- The loop, over the levels in the order in which it visits them.
  pub undeploy_levels : String → List (List ComponentSpec) → M World (Bool × ℕ)
  unfolding undeploy_level
  undeploy_levels target_ns [] = pure (true, 0)
  undeploy_levels target_ns (level ∷ lower) = do
    done ← undeploy_level target_ns level
    let rest = undeploy_levels target_ns lower
    if done then rest else pure (false, requeue_after)

  abbrev pub reversed : List (List ComponentSpec) → List (List ComponentSpec)
  reversed [] = []
  reversed (level ∷ levels) = reversed levels ++ level ∷ []

  -- Components that cannot be ordered are torn down as one level.
  pub undeploy_all : String → List ComponentSpec → M World (Bool × ℕ)
  unfolding undeploy_levels
  undeploy_all target_ns components = elim (build_levels components) [
    | Built.ok levels ↦ undeploy_levels target_ns (reversed levels)
    | Built.err _ ↦ undeploy_levels target_ns (components ∷ [])
  ]
