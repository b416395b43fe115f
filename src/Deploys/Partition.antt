-- ===== src/Deploys/Partition.antt =====
-- The partition of a level, against the selection of its components by phase.
use petri_operator.Prelude.{
  Bool, true, false, ◌≡◌, refl, ap, ◌∙◌, List, [], ◌∷◌, ◌++◌, append_assoc, append-nil,
  if◌then◌else◌,
}
use petri_operator.Types.{ComponentSpec, ComponentPhase}
use petri_operator.Status.{PhaseMap}
use petri_operator.Deploys.{Parts, place, partition_loop, partition_level}

-- The components for which the test holds, in order.
abbrev select : (ComponentSpec → Bool) → List ComponentSpec → List ComponentSpec
select test [] = []
select test (c ∷ cs) = if test c then c ∷ select test cs else select test cs

abbrev is_submitting : ComponentPhase → Bool
is_submitting ComponentPhase.submitting = true
is_submitting _ = false

abbrev is_deploying : ComponentPhase → Bool
is_deploying ComponentPhase.deploying = true
is_deploying _ = false

-- A component that was never deployed or is to be deployed again.
abbrev is_due : ComponentPhase → Bool
is_due ComponentPhase.unset = true
is_due ComponentPhase.pending = true
is_due _ = false

abbrev selected : PhaseMap → List ComponentSpec → Parts
selected m level = record {
  need_deploy = select (λ c. is_due (m c.name)) level;
  submitting = select (λ c. is_submitting (m c.name)) level;
  need_check = select (λ c. is_deploying (m c.name)) level;
}

abbrev joined : Parts → Parts → Parts
joined a b = record {
  need_deploy = a.need_deploy ++ b.need_deploy;
  submitting = a.submitting ++ b.submitting;
  need_check = a.need_check ++ b.need_check;
}

-- What the phase says of the component at the head.
abbrev headed : ComponentPhase → ComponentSpec → Parts → Parts
headed phase c rest = record {
  need_deploy = if is_due phase then c ∷ rest.need_deploy else rest.need_deploy;
  submitting = if is_submitting phase then c ∷ rest.submitting else rest.submitting;
  need_check = if is_deploying phase then c ∷ rest.need_check else rest.need_check;
}

place_lem :
    (phase : ComponentPhase) (c : ComponentSpec) (parts rest : Parts)
    → joined (place phase c parts) rest ≡ joined parts (headed phase c rest)
place_lem ComponentPhase.ready c parts rest = refl
place_lem ComponentPhase.failed c parts rest = refl
place_lem ComponentPhase.unset c parts rest =
    rw (append_assoc parts.need_deploy (c ∷ []) rest.need_deploy)
place_lem ComponentPhase.pending c parts rest =
    rw (append_assoc parts.need_deploy (c ∷ []) rest.need_deploy)
place_lem ComponentPhase.submitting c parts rest =
    rw (append_assoc parts.submitting (c ∷ []) rest.submitting)
place_lem ComponentPhase.deploying c parts rest =
    rw (append_assoc parts.need_check (c ∷ []) rest.need_check)

partition_loop_lem :
    (m : PhaseMap) (level : List ComponentSpec) (parts : Parts)
    → partition_loop m parts level ≡ joined parts (selected m level)
unfolding partition_loop
partition_loop_lem m [] parts =
    rw (append-nil parts.need_deploy, append-nil parts.submitting, append-nil parts.need_check)
partition_loop_lem m (c ∷ level) parts =
    partition_loop_lem m level (place (m c.name) c parts)
    ∙ place_lem (m c.name) c parts (selected m level)

-- `partitionLevel` selects the components by phase, in the order of the level: those that were
-- never deployed or wait for another try, those whose Job was submitted, and those that run and
-- wait to be ready.
partition_level_exact :
    (m : PhaseMap) (level : List ComponentSpec)
    → (partition_level m level).need_deploy ≡ select (λ c. is_due (m c.name)) level
      × (partition_level m level).submitting ≡ select (λ c. is_submitting (m c.name)) level
      × (partition_level m level).need_check ≡ select (λ c. is_deploying (m c.name)) level
unfolding partition_level
partition_level_exact m level =
    let e =
      partition_loop_lem m level (record { need_deploy = []; submitting = []; need_check = [] }) in
    (ap (λ x. x.need_deploy) e, ap (λ x. x.submitting) e, ap (λ x. x.need_check) e)
