-- ===== src/Master/Fsm/Trigger.antt =====
-- `BuildFsm.trigger`: an event that the table does not allow fails the build, and never raises.
use cluster_runner_jie.Prelude.{◌≡◌, refl, ap, ◌∙◌, Option, none, some, String, List, [], ◌∷◌}
use cluster_runner_jie.Errors.{Error}
use cluster_runner_jie.Master.Fsm.{
  BuildState, queued, preparing, prepared, building, finished, error, canceled, BuildEvent,
  start_prepare, finish_prepare, start_building, postbuild_tasks_complete, fail, cancel, Target, to,
  same, events,
}
use cluster_runner_jie.Master.Fsm.Fysom.{
  Fysom, Machine, Outcome, done, refused, raised, declared, goes_to,
}

-- The text behind it is that of fysom's exception.
abbrev pub transition_error : String
transition_error = "Error during build state transition."

-- `machine error_msg` has the callbacks of an event with that keyword argument.
module _ (fysom : Fysom) {W : Type 0} (machine : Option String → Machine W) where
  -- The recursive call, with `__trigger_fail_on_error=False`: a second refusal is only logged.
  unfoldable pub after_fail : W × Outcome → W × Option Error
  after_fail (w, done) = (w, none)
  after_fail (w, refused) = (w, none)
  after_fail (w, raised x) = (w, some x)

  unfoldable pub after_trigger : W × Outcome → W × Option Error
  unfolding after_fail
  after_trigger (w, done) = (w, none)
  after_trigger (w, refused) =
      after_fail (fysom.trigger events (machine (some transition_error)) fail w)
  after_trigger (w, raised x) = (w, some x)

  unfoldable pub trigger : BuildEvent → Option String → W → W × Option Error
  unfolding after_trigger
  trigger e error_msg w = after_trigger (fysom.trigger events (machine error_msg) e w)

-- The diagram in the documentation of `BuildFsm`: the edge that an event takes from a state.
unfoldable pub diagram : BuildState → BuildEvent → Option Target
diagram s fail = some (to error)
diagram queued start_prepare = some (to preparing)
diagram preparing finish_prepare = some (to prepared)
diagram prepared start_building = some (to building)
diagram prepared postbuild_tasks_complete = some (to finished)
diagram building postbuild_tasks_complete = some (to finished)
diagram queued cancel = some (to canceled)
diagram preparing cancel = some (to canceled)
diagram prepared cancel = some (to canceled)
diagram building cancel = some (to canceled)
diagram canceled start_prepare = some same
diagram canceled finish_prepare = some same
diagram canceled cancel = some same
diagram error cancel = some same
diagram finished cancel = some same
diagram _ _ = none

abbrev pub to_list {ℓ} : {A : Type ℓ} → Option A → List A
to_list none = []
to_list (some a) = a ∷ []

-- The table declares exactly the edges of the diagram, each of them once.
pub declared-events :
    (s : BuildState) (e : BuildEvent) → declared events s e ≡ to_list (diagram s e)
unfolding declared events diagram
declared-events queued start_prepare = refl
declared-events queued _ = refl
declared-events preparing start_prepare = refl
declared-events preparing _ = refl
declared-events prepared start_prepare = refl
declared-events prepared _ = refl
declared-events building start_prepare = refl
declared-events building _ = refl
declared-events finished start_prepare = refl
declared-events finished _ = refl
declared-events error start_prepare = refl
declared-events error _ = refl
declared-events canceled start_prepare = refl
declared-events canceled _ = refl

pub diagram-fail : (s : BuildState) → diagram s fail ≡ some (to error)
unfolding diagram
diagram-fail queued = refl
diagram-fail _ = refl

module _ (fysom : Fysom) {W : Type 0} (machine : Option String → Machine W) where
  pub trigger_edge :
      (e : BuildEvent) (msg : Option String) (w : W) (d : Target)
      → diagram ((machine msg).current w) e ≡ some d
      → trigger fysom machine e msg w ≡ after_trigger fysom machine (goes_to (machine msg) d w)
  unfolding trigger
  trigger_edge e msg w d h =
      ap (after_trigger fysom machine)
        (fysom.trigger_declared events (machine msg) e w d (declared-events _ e ∙ ap to_list h))

  pub trigger_no_edge :
      (e : BuildEvent) (msg : Option String) (w : W)
      → diagram ((machine msg).current w) e ≡ none
      → trigger fysom machine e msg w
        ≡ after_fail fysom machine (goes_to (machine (some transition_error)) (to error) w)
  unfolding trigger
  trigger_no_edge e msg w h =
      let m = machine (some transition_error) in
      ap (after_trigger fysom machine)
        (fysom.trigger_undeclared events (machine msg) e w (declared-events _ e ∙ ap to_list h))
      ∙ ap (after_fail fysom machine) (
          fysom.trigger_declared events m fail w (to error)
            (declared-events (m.current w) fail ∙ ap to_list (diagram-fail (m.current w))))
