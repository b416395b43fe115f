-- ===== src/Observability.antt =====
-- internal/controller/observability.go: the metrics and the events of an environment's phases.
pub mod Transitions
mod Samples
use petri_operator.Prelude.{
  ℕ, String, Bool, true, not, ◌||◌, Option, none, some, List, [], ◌∷◌, ◌++◌, if◌then◌else◌,
}
use Prim.Native.String.{◌++◌ as join}
use petri_operator.Types.{
  EnvironmentPhase, unset, pending, deploying, ready, failed, terminating, Environment,
}
use petri_operator.Environments.{is_phase}

-- string(p)
abbrev pub phase_name : EnvironmentPhase → String
phase_name unset = ""
phase_name pending = "Pending"
phase_name deploying = "Deploying"
phase_name ready = "Ready"
phase_name failed = "Failed"
phase_name terminating = "Terminating"

-- The reason and the type of an event.
abbrev pub event_reason : EnvironmentPhase → String × String
event_reason ready = ("Ready", "Normal")
event_reason failed = ("Failed", "Warning")
event_reason deploying = ("Deploying", "Normal")
event_reason terminating = ("Terminating", "Normal")
event_reason p = (phase_name p, "Normal")

-- What is sent: the counter of a phase, an event, the counter of failures, and the time that a
-- deployment took, from one time to another.
pub data Signal : Type 0 where
  counted : EnvironmentPhase → Signal
  event : (type reason action note : String) → Signal
  failure : Signal
  took : (started now : ℕ) → Signal

-- `has_recorder` is whether the recorder is not nil, `now` the time that time.Since reads.
module _ (has_recorder : Bool) (now : ℕ) where
  abbrev event_of : EnvironmentPhase → List Signal
  event_of p =
      let (reason, type) = event_reason p in
      if has_recorder
      then event type reason "PhaseChange" (join "environment " (phase_name p)) ∷ []
      else []

  abbrev outcome_of : EnvironmentPhase → Option ℕ → List Signal
  outcome_of failed started = failure ∷ []
  outcome_of ready (some started) = took started now ∷ []
  outcome_of _ _ = []

  abbrev pub entered : EnvironmentPhase → Option ℕ → EnvironmentPhase → List Signal
  entered p started old =
      if is_phase p old || is_phase p unset
      then []
      else (counted p ∷ (event_of p ++ outcome_of p started))

  pub record_phase_transition : Environment → EnvironmentPhase → List Signal
  record_phase_transition env old = entered env.status.phase env.status.deploy_started_at old

  abbrev pub with_phase : Environment → EnvironmentPhase → Environment
  with_phase env p = let s = env.status in record env { status = record s { phase = p } }

  -- The signals, and the environment, whose phase the loop sets.
  pub record_phase_transitions :
      Environment → EnvironmentPhase → List EnvironmentPhase → List Signal × Environment
  unfolding record_phase_transition
  record_phase_transitions env previous [] = ([], env)
  record_phase_transitions env previous (p ∷ passed) =
      let env' = with_phase env p in
      let (signals, last) = record_phase_transitions env' p passed in
      (record_phase_transition env' previous ++ signals, last)
