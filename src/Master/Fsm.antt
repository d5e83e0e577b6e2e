-- ===== src/Master/Fsm.antt =====
-- app/master/build_fsm.py: the states of a build, the events that move it, and `trigger`.
-- The state machine itself is the library fysom. Which entry of the table an event takes, and in
-- which order the callbacks of a transition run, are its documented behaviour: a parameter.
pub mod Fysom
pub mod Trigger
pub mod Simple
mod Examples
use cluster_runner_jie.Prelude.{List, [], ◌∷◌}

pub data BuildState : Type 0 where
  queued preparing prepared building finished error canceled : BuildState

pub data BuildEvent : Type 0 where
  start_prepare finish_prepare start_building postbuild_tasks_complete fail cancel : BuildEvent

-- `'src'`: one state or a list of them, or `'*'`.
pub data Source : Type 0 where
  from : List BuildState → Source
  anywhere : Source

-- `'dst'`: a state, or `'='`.
pub data Target : Type 0 where
  to : BuildState → Target
  same : Target

pub record Transition : Type 0 where
  pub name : BuildEvent
  pub src : Source
  pub dst : Target

abbrev pub transition : BuildEvent → Source → Target → Transition
transition e s d = record { name = e; src = s; dst = d }

abbrev pub initial : BuildState
initial = queued

-- The table that `_create_state_machine` passes to fysom.
unfoldable pub events : List Transition
events =
    transition start_prepare (from (queued ∷ [])) (to preparing)
    ∷ transition finish_prepare (from (preparing ∷ [])) (to prepared)
    ∷ transition start_building (from (prepared ∷ [])) (to building)
    ∷ transition postbuild_tasks_complete (from (prepared ∷ building ∷ [])) (to finished)
    ∷ transition cancel (from (queued ∷ preparing ∷ prepared ∷ building ∷ [])) (to canceled)
    ∷ transition fail anywhere (to error)
    ∷ transition start_prepare (from (canceled ∷ [])) same
    ∷ transition finish_prepare (from (canceled ∷ [])) same
    ∷ transition cancel (from (canceled ∷ error ∷ finished ∷ [])) same
    ∷ []
