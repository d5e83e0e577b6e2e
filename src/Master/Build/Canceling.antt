-- ===== src/Master/Build/Canceling.antt =====
-- What canceling a build does.
use cluster_runner_jie.Prelude.{
  ℕ, ◌≡◌, refl, sym, ap, subst, ◌∙◌, true, false, ◌||◌, Option, none, some, String, List, [], ◌∷◌,
  arith,
}
use cluster_runner_jie.Errors.{Error}
use cluster_runner_jie.Util.Queue.{Queue}
use cluster_runner_jie.Master.Fsm.{
  BuildState, queued, preparing, prepared, building, finished, error, canceled, BuildEvent,
  start_prepare, finish_prepare, start_building, postbuild_tasks_complete, fail, Target, to, same,
}
use cluster_runner_jie.Master.Fsm as Fsm
use cluster_runner_jie.Master.Fsm.Fysom.{Fysom, state_eq}
use cluster_runner_jie.Master.Fsm.Trigger.{diagram}
use cluster_runner_jie.Master.Build.{
  Build, on_enter_canceled_state, on_leave_state, record_state_timestamp, is_stopped, cancel,
  deplete,
}
use cluster_runner_jie.Master.Build.States.{
  stamped, arrive, outcome_of, arrive-state, trigger_at-outcome,
}

abbrev pub IsDepleted : Option (Queue ℕ) → Type 0
IsDepleted none = Unit
IsDepleted (some q) = q.items ≡ []

deplete-nil : (xs : List ℕ) → deplete xs ≡ []
unfolding deplete
deplete-nil [] = refl
deplete-nil (x ∷ xs) = deplete-nil xs

depleted :
    (b : Build) (o : Option (Queue ℕ))
    → b.unstarted_subjobs ≡ o
    → b.has_project_type ≡ true
    → ((on_enter_canceled_state b).0.is_killed ≡ true)
      × ((on_enter_canceled_state b).1 ≡ none)
      × IsDepleted (on_enter_canceled_state b).0.unstarted_subjobs
unfolding on_enter_canceled_state
depleted b none e has = rw (has, e) (refl, refl, tt)
depleted b (some q) e has = rw (has, e) (refl, refl, deplete-nil q.items)

stamped-keeps :
    (now : ℕ) (dst : BuildState) (r : Build × Option Error)
    → ((stamped now dst r).is_killed ≡ r.0.is_killed)
      × ((stamped now dst r).unstarted_subjobs ≡ r.0.unstarted_subjobs)
unfolding record_state_timestamp
stamped-keeps now dst (b, none) = (refl, refl)
stamped-keeps now dst (b, some e) = (refl, refl)

left-has_project_type :
    (now : ℕ) (src : BuildState) (b : Build)
    → (on_leave_state now src b).has_project_type ≡ b.has_project_type
unfolding on_leave_state
left-has_project_type now src b = ground arith

arrive-canceled :
    (now : ℕ) (msg : Option String) (b : Build)
    → b.has_project_type ≡ true
    → state_eq b.state canceled ≡ false
    → ((arrive now msg (to canceled) b).is_killed ≡ true)
      × IsDepleted (arrive now msg (to canceled) b).unstarted_subjobs
unfolding arrive
arrive-canceled now msg b has h =
    let b' = on_leave_state now b.state b in
    let c : Build = record b' { state = canceled } in
    let kept = stamped-keeps now canceled (on_enter_canceled_state c) in
    let d = depleted c _ refl (left-has_project_type now b.state b ∙ has) in
    rw h (kept.0 ∙ d.0, subst IsDepleted (sym kept.1) d.2)

diagram-cancel :
    (s : BuildState)
    → ((state_eq s finished || (state_eq s error || state_eq s canceled)) ≡ true
        → diagram s Fsm.cancel ≡ some same)
      × ((state_eq s finished || (state_eq s error || state_eq s canceled)) ≡ false
          → (diagram s Fsm.cancel ≡ some (to canceled)) × (state_eq s canceled ≡ false))
unfolding diagram
diagram-cancel queued = ground arith
diagram-cancel s = ground arith

-- `cancel` stops every build that has its project type and has not finished, tells its subprocesses to stop and forgets its
-- subjobs that are not started. A build that is finished, canceled or failed it leaves as it is.
pub cancel_lem :
    (fysom : Fysom) (now : ℕ) (b : Build)
    → b.has_project_type ≡ true
    → ((state_eq b.state finished || is_stopped b) ≡ true → cancel fysom now b ≡ b)
      × ((state_eq b.state finished || is_stopped b) ≡ false
          → ((cancel fysom now b).state ≡ canceled)
            × ((cancel fysom now b).is_killed ≡ true)
            × IsDepleted (cancel fysom now b).unstarted_subjobs)
unfolding cancel arrive
cancel_lem fysom now b has = (
  (λ h.
      trigger_at-outcome fysom now Fsm.cancel none b
      ∙ ap (outcome_of now none b) ((diagram-cancel b.state).0 h)),
  (λ h.
      rw (trigger_at-outcome fysom now Fsm.cancel none b, ((diagram-cancel b.state).1 h).0)
        (let c = arrive-canceled now none b has ((diagram-cancel b.state).1 h).1 in
          (arrive-state now none (to canceled) b, c.0, c.1))),
)
