-- ===== src/Shared/Contention/Samples.antt =====
-- A shared component for one consumer: one environment registers, another finds it full, and once
-- the first has left, the controller drains it.
use petri_operator.Prelude.{String, true, ◌≡◌, refl, none, some, [], ◌∷◌, ℤ, pos, arith, inl}
use petri_operator.Shared.Contention.{
  Stage, Grant, System, set, idle, asking, holding, opened, outside, roomy, unlabelled, closing,
  ending, ask, take, open_up, inspect, count, prepare, register, release, mark, leave, close, drain,
  init, Reach, start, later,
}
use petri_operator.Shared.Contention.Invariant.{IsWithin}
use petri_operator.Shared.Contention.Reached.{
  here, further, Reach-IsWithin, lease_of_exclusive, drained_empty,
}

abbrev web : String
web = "web"

abbrev deleter : String
deleter = "shared-component-deletion"

abbrev one : ℤ
one = pos 1

-- Every caller registers the namespace of its own name.
abbrev itself : String → String
itself a = a

abbrev grant : Grant
grant = record { uid = 0; since = 0 }

abbrev asked : System
asked = record init { stage = set "web" (asking 0) init.stage }

abbrev held : System
held = record asked {
  lease = some grant;
  next_uid = 1;
  stage = set "web" (holding 0 0) asked.stage;
}

-- The caller "web" comes to a stage.
abbrev at_stage : Stage → System → System
at_stage st s = record s { stage = set "web" st s.stage }

abbrev admitted : System
admitted = at_stage (roomy 0 0) (at_stage (outside 0 0) (at_stage (opened 0 0) held))

abbrev waiting : System
waiting = at_stage (unlabelled 0 0) admitted

abbrev registered : System
registered = at_stage (ending 0 0) (record waiting { consumers = "web" ∷ [] })

reach_held : Reach one itself held
reach_held =
    later {s = asked} (later {s = init} start (ask "web")) (take "web" 0 refl (omega arith) refl)

reach_waiting : Reach one itself waiting
reach_waiting =
    later {s = admitted}
      (later {s = at_stage (outside 0 0) (at_stage (opened 0 0) held)}
        (later {s = at_stage (opened 0 0) held}
          (later {s = held} reach_held (open_up "web" 0 0 refl (omega arith) refl))
          (inspect "web" 0 0 refl (omega arith) refl))
        (count "web" 0 0 refl (omega arith) (omega arith)))
      (prepare "web" 0 0 refl (omega arith) refl)

reach_registered : Reach one itself registered
reach_registered = later {s = waiting} reach_waiting (register "web" 0 0 refl (omega arith))

Reach-IsWithin_example : IsWithin one ("web" ∷ [])
Reach-IsWithin_example = Reach-IsWithin one itself registered reach_registered

lease_of_exclusive_example : web ≡ web
lease_of_exclusive_example =
    lease_of_exclusive one itself registered web web grant grant reach_registered refl (omega arith)
      refl (omega arith)

-- The environment is done and gone, and the controller has its turn.
abbrev left : System
left = record registered { lease = none; stage = set "web" idle registered.stage }

abbrev marked : System
marked = record left { deleting = true; consumers = [] }

abbrev entered : System
entered = record marked {
  lease = some (record { uid = 1; since = 0 });
  next_uid = 2;
  stage = set deleter (holding 1 0) (set deleter (asking 0) marked.stage);
}

abbrev closed : System
closed = record entered { stage = set deleter (closing 1 0) entered.stage }

abbrev emptied : System
emptied = record closed { drained = true; stage = set deleter (ending 1 0) closed.stage }

reach_left : Reach one itself left
reach_left =
    later {s = registered} reach_registered
      (release "web" 0 none refl (inl (grant, refl, refl, refl)))

reach_entered : Reach one itself entered
reach_entered =
    later {s = record marked { stage = set deleter (asking 0) marked.stage }}
      (later {s = marked}
        (later {s = record left { deleting = true }} (later {s = left} reach_left mark)
          (leave "web"))
        (ask deleter))
      (take deleter 0 refl (omega arith) refl)

reach_emptied : Reach one itself emptied
reach_emptied =
    later {s = closed}
      (later {s = entered} reach_entered (close deleter 1 0 refl (omega arith) refl))
      (drain deleter 1 0 refl (omega arith) refl)

drained_empty_example : emptied.consumers ≡ []
drained_empty_example =
    drained_empty one itself emptied (record emptied { stage = set "api" (asking 0) emptied.stage })
      reach_emptied refl (further {t = emptied} here (ask "api"))
