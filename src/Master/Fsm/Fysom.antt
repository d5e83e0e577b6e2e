-- ===== src/Master/Fsm/Fysom.antt =====
-- The library fysom, as build_fsm.py uses it: a parameter with its documented behaviour.
use cluster_runner_jie.Prelude.{
  ◌≡◌, Bool, true, false, ◌&&◌, ◌||◌, Option, none, some, List, [], ◌∷◌, if◌then◌else◌, arith,
}
use cluster_runner_jie.Errors.{Error}
use cluster_runner_jie.Master.Fsm.{
  BuildState, queued, preparing, prepared, building, finished, error, canceled, BuildEvent,
  start_prepare, finish_prepare, start_building, postbuild_tasks_complete, fail, cancel, Source,
  from, anywhere, Target, to, same, Transition,
}

abbrev pub state_eq : BuildState → BuildState → Bool
state_eq queued queued = true
state_eq preparing preparing = true
state_eq prepared prepared = true
state_eq building building = true
state_eq finished finished = true
state_eq error error = true
state_eq canceled canceled = true
state_eq _ _ = false

pub state_eq→eq : (s t : BuildState) → state_eq s t ≡ true → s ≡ t
state_eq→eq queued t h = ground arith
state_eq→eq s t h = ground arith

abbrev pub event_eq : BuildEvent → BuildEvent → Bool
event_eq start_prepare start_prepare = true
event_eq finish_prepare finish_prepare = true
event_eq start_building start_building = true
event_eq postbuild_tasks_complete postbuild_tasks_complete = true
event_eq fail fail = true
event_eq cancel cancel = true
event_eq _ _ = false

abbrev pub contains : List BuildState → BuildState → Bool
contains [] s = false
contains (x ∷ xs) s = state_eq x s || contains xs s

abbrev pub source_has : Source → BuildState → Bool
source_has (from xs) s = contains xs s
source_has anywhere s = true

-- The targets that a table declares for an event in a state.
unfoldable pub declared : List Transition → BuildState → BuildEvent → List Target
declared [] s e = []
declared (t ∷ ts) s e =
    let rest = declared ts s e in
    if event_eq t.name e && source_has t.src s then t.dst ∷ rest else rest

-- What a call of `fsm.trigger` comes to: it returns, raises FysomError because the event is
-- inappropriate in the current state, or passes on what a callback raised.
pub data Outcome : Type 0 where
  done refused : Outcome
  raised : Error → Outcome

-- The object that carries the machine: its current state and the registered callbacks, which are
-- given the states that the transition leads from and to.
pub record Machine (W : Type 0) : Type 0 where
  pub current : W → BuildState
  pub set_current : BuildState → W → W
  pub on_leave : BuildState → BuildState → W → W
  pub on_enter : BuildState → BuildState → W → W × Option Error
  pub on_change : BuildState → BuildState → W → W

-- The callbacks of a transition between different states, in order: leave the old state, enter the
-- new one, record the change. What the enter callback raises skips the last one.
abbrev pub after_enter :
    {W : Type 0} → Machine W → BuildState → BuildState → W × Option Error → W × Outcome
after_enter m src dst (w, none) = (m.on_change src dst w, done)
after_enter m src dst (w, some x) = (w, raised x)

abbrev pub moves : {W : Type 0} → Machine W → BuildState → W → W × Outcome
moves m dst w =
    let src = m.current w in
    after_enter m src dst (m.on_enter src dst (m.set_current dst (m.on_leave src dst w)))

abbrev pub goes_to : {W : Type 0} → Machine W → Target → W → W × Outcome
goes_to m same w = (w, done)
goes_to m (to dst) w = if state_eq (m.current w) dst then (w, done) else moves m dst w

-- An event that is declared once in the current state takes that entry; with no entry it is refused
-- and nothing changes. (No callback is registered for re-entering a state.)
pub record Fysom : Type 1 where
  pub trigger : {W : Type 0} → List Transition → Machine W → BuildEvent → W → W × Outcome
  pub trigger_declared :
      {W : Type 0} (ts : List Transition) (m : Machine W) (e : BuildEvent) (w : W) (d : Target)
      → declared ts (m.current w) e ≡ d ∷ []
      → trigger ts m e w ≡ goes_to m d w
  pub trigger_undeclared :
      {W : Type 0} (ts : List Transition) (m : Machine W) (e : BuildEvent) (w : W)
      → declared ts (m.current w) e ≡ []
      → trigger ts m e w ≡ (w, refused)
