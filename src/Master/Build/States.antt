-- ===== src/Master/Build/States.antt =====
-- How events move a build, whatever implementation of fysom runs the machine.
use cluster_runner_jie.Prelude.{
  ℕ, ◌≡◌, refl, sym, ap, ◌∙◌, inl, inr, Bool, true, false, ◌||◌, Option, none, some, String, arith,
  Option-cases, Bool-cases, if◌then◌else◌,
}
use cluster_runner_jie.Errors.{Error}
use cluster_runner_jie.Master.Fsm.{
  BuildState, queued, error, canceled, BuildEvent, Target, to, same,
}
use cluster_runner_jie.Master.Fsm.Fysom.{
  Fysom, Machine, Outcome, done, refused, raised, state_eq, state_eq→eq, goes_to,
}
use cluster_runner_jie.Master.Fsm.Trigger.{
  after_trigger, after_fail, diagram, trigger_edge, trigger_no_edge, transition_error,
}
use cluster_runner_jie.Master.Build.{
  Build, machine, no_preparation, trigger_at, on_enter_error_state, on_enter_canceled_state,
  on_leave_state, record_state_timestamp, is_stopped,
}

unfoldable pub enter : Option String → BuildState → Build → Build × Option Error
unfolding on_enter_error_state on_enter_canceled_state
enter msg error b = (on_enter_error_state msg b, none)
enter msg canceled b = on_enter_canceled_state b
enter msg _ b = (b, none)

abbrev pub stamped : ℕ → BuildState → Build × Option Error → Build
stamped now dst (b, none) = record_state_timestamp now dst b
stamped now dst (b, some e) = b

-- The effect of a transition to another state.
unfoldable pub moved : ℕ → Option String → BuildState → Build → Build
unfolding enter on_leave_state record_state_timestamp
moved now msg dst b =
    stamped now dst
      (enter msg dst (let b' = on_leave_state now b.state b in record b' { state = dst }))

unfoldable pub arrive : ℕ → Option String → Target → Build → Build
unfolding moved
arrive now msg same b = b
arrive now msg (to dst) b = if state_eq b.state dst then b else moved now msg dst b

abbrev pub outcome_of : ℕ → Option String → Build → Option Target → Build
outcome_of now msg b none = arrive now (some transition_error) (to error) b
outcome_of now msg b (some d) = arrive now msg d b

abbrev was_taken : Outcome → Bool
was_taken refused = false
was_taken _ = true

goes_to-arrive :
    (now : ℕ) (msg : Option String) (d : Target) (b : Build)
    → let r = goes_to (machine now now no_preparation msg) d b in
      (r.0 ≡ arrive now msg d b) × (was_taken r.1 ≡ true)
unfolding machine arrive
goes_to-arrive now msg same b = (refl, refl)
goes_to-arrive now msg (to queued) b = ground arith
goes_to-arrive now msg (to dst) b = ground arith

after_trigger-taken :
    (fysom : Fysom) (m : Option String → Machine Build) (r : Build × Outcome)
    → was_taken r.1 ≡ true
    → (after_trigger fysom m r).0 ≡ r.0
unfolding after_trigger
after_trigger-taken fysom m (b, refused) h = absurd (ground arith)
after_trigger-taken fysom m (b, done) h = refl
after_trigger-taken fysom m (b, raised e) h = refl

after_fail-build :
    (fysom : Fysom) (m : Option String → Machine Build) (r : Build × Outcome)
    → (after_fail fysom m r).0 ≡ r.0
unfolding after_fail
after_fail-build fysom m (b, refused) = refl
after_fail-build fysom m (b, done) = refl
after_fail-build fysom m (b, raised e) = refl

-- What `trigger` does, from the diagram: the edge that it shows is taken, and an event that has
-- none moves the build to ERROR.
pub trigger_at-outcome :
    (fysom : Fysom) (now : ℕ) (e : BuildEvent) (msg : Option String) (b : Build)
    → trigger_at fysom now e msg b ≡ outcome_of now msg b (diagram b.state e)
unfolding trigger_at machine
trigger_at-outcome fysom now e msg b = elim (Option-cases (diagram b.state e)) [
  | inl h ↦
      ap (λ r. r.0) (trigger_no_edge fysom callbacks e msg b h)
      ∙ after_fail-build fysom callbacks _
      ∙ (goes_to-arrive now (some transition_error) (to error) b).0
      ∙ sym (ap (outcome_of now msg b) h)
  | inr (d, h) ↦
      ap (λ r. r.0) (trigger_edge fysom callbacks e msg b d h)
      ∙ after_trigger-taken fysom callbacks _ (goes_to-arrive now msg d b).1
      ∙ (goes_to-arrive now msg d b).0
      ∙ sym (ap (outcome_of now msg b) h)
]
  where
    callbacks : Option String → Machine Build
    callbacks = machine now now no_preparation

-- The state to which an edge of the diagram leads, or its absence.
abbrev pub next : BuildState → Option Target → BuildState
next s none = error
next s (some same) = s
next s (some (to dst)) = dst

moved-state :
    (now : ℕ) (msg : Option String) (dst : BuildState) (b : Build)
    → (moved now msg dst b).state ≡ dst
unfolding moved
moved-state now msg queued b = ground arith
moved-state now msg _ b = ground arith

pub arrive-state :
    (now : ℕ) (msg : Option String) (d : Target) (b : Build)
    → (arrive now msg d b).state ≡ next b.state (some d)
unfolding arrive
arrive-state now msg same b = refl
arrive-state now msg (to dst) b = elim (Bool-cases (state_eq b.state dst)) [
  | inl here ↦ rw here (state_eq→eq b.state dst here)
  | inr there ↦ rw there (moved-state now msg dst b)
]

outcome_of-state :
    (now : ℕ) (msg : Option String) (b : Build) (t : Option Target)
    → (outcome_of now msg b t).state ≡ next b.state t
outcome_of-state now msg b none = arrive-state now (some transition_error) (to error) b
outcome_of-state now msg b (some d) = arrive-state now msg d b

pub trigger_at-state :
    (fysom : Fysom) (now : ℕ) (e : BuildEvent) (msg : Option String) (b : Build)
    → (trigger_at fysom now e msg b).state ≡ next b.state (diagram b.state e)
trigger_at-state fysom now e msg b =
    ap (λ r. r.state) (trigger_at-outcome fysom now e msg b)
    ∙ outcome_of-state now msg b (diagram b.state e)

next-stopped :
    (s : BuildState) (e : BuildEvent)
    → ((state_eq s error || state_eq s canceled) ≡ true
        → (state_eq (next s (diagram s e)) error || state_eq (next s (diagram s e)) canceled)
          ≡ true)
      × (s ≡ error → next s (diagram s e) ≡ error)
unfolding diagram
next-stopped error e = ground arith
next-stopped canceled e = ground arith
next-stopped s e = ground arith

-- From ERROR and from CANCELED no event leads back to work: what is stopped stays stopped, and what
-- has failed stays failed.
pub trigger_at-is_stopped :
    (fysom : Fysom) (now : ℕ) (e : BuildEvent) (msg : Option String) (b : Build)
    → (is_stopped b ≡ true → is_stopped (trigger_at fysom now e msg b) ≡ true)
      × (b.state ≡ error → (trigger_at fysom now e msg b).state ≡ error)
trigger_at-is_stopped fysom now e msg b =
    rw (trigger_at-state fysom now e msg b) (next-stopped b.state e)
