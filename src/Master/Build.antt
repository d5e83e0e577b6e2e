-- ===== src/Master/Build.antt =====
-- app/master/build.py. A build holds its subjobs in `all_subjobs_by_id`, and its queues hold their
-- ids: a subjob that is changed is changed for both. Times are seconds of a clock that does not run
-- backwards, given with each call. The logger is left out; what the metric of state durations
-- observes is kept in `observed`.
pub mod Subjobs
pub mod Postbuild
pub mod States
pub mod Canceling
pub mod Keeping
pub mod Preparing
pub mod Prepared
pub mod Payloads
pub mod Completion
pub mod Outcome
pub mod Updates
mod Examples
use cluster_runner_jie.Prelude.{
  ℕ, zero, suc, ◌+◌, ◌-◌, Bool, true, false, not, ◌&&◌, ◌||◌, Option, none, some, String, List, [],
  ◌∷◌, ◌++◌, map, length, if◌then◌else◌,
}
use cluster_runner_jie.Prelude.Int.{ℤ}
use cluster_runner_jie.Prelude.Dict.{Dict, lookup, insert, values, ℕ_eq}
use cluster_runner_jie.Errors.{
  Error, attribute_error, exception, runtime_error, item_not_found, Result, ok, err,
}
use cluster_runner_jie.Util.Queue
use cluster_runner_jie.Util.Queue.{Queue}
use cluster_runner_jie.Util.SingleUseCoin
use cluster_runner_jie.Util.SingleUseCoin.{SingleUseCoin, spend}
use cluster_runner_jie.Master.Subjob.{Subjob}
use cluster_runner_jie.Master.Fsm.{
  BuildState, queued, preparing, finished, error, canceled, BuildEvent, start_prepare,
  finish_prepare, start_building, fail, initial,
}
use cluster_runner_jie.Master.Fsm as Fsm
use cluster_runner_jie.Master.Fsm.Fysom.{Fysom, Machine, state_eq}
use cluster_runner_jie.Master.Fsm.Trigger.{trigger}

pub record Build : Type 0 where
  pub build_id : ℕ
  -- the state machine: its current state, and the times at which states were entered
  pub state : BuildState
  pub transition_timestamps : BuildState → Option ℕ
  pub observed : List (BuildState × ℕ)
  pub error_message : Option String
  pub preparation_coin : SingleUseCoin
  -- the project type: whether it is there, and whether its subprocesses were told to stop
  pub has_project_type : Bool
  pub is_killed : Bool
  pub all_subjobs_by_id : Dict ℕ Subjob
  pub unstarted_subjobs : Option (Queue ℕ)
  pub finished_subjobs : Option (Queue ℕ)
  -- the threads that `finish` has started
  pub postbuild_threads : ℕ
  pub postbuild_tasks_are_finished : Bool
  -- the artifact, once it is created: the (subjob, atom) pairs that failed
  pub failed_pairs : Option (List (ℕ × ℕ))
  pub setup_failures : ℕ

abbrev pub stamp : BuildState → ℕ → (BuildState → Option ℕ) → BuildState → Option ℕ
stamp s now f x = if state_eq s x then some now else f x

-- `Build.__init__`: creating the state machine records the time of its initial state.
unfoldable pub new_build : ℕ → ℕ → Build
new_build build_id now = record {
  build_id = build_id;
  state = initial;
  transition_timestamps = stamp initial now (λ s. none);
  observed = [];
  error_message = none;
  preparation_coin = SingleUseCoin.new;
  has_project_type = false;
  is_killed = false;
  all_subjobs_by_id = [];
  unstarted_subjobs = none;
  finished_subjobs = none;
  postbuild_threads = 0;
  postbuild_tasks_are_finished = false;
  failed_pairs = none;
  setup_failures = 0;
}

abbrev pub get_or {ℓ} : {A : Type ℓ} → Option A → A → A
get_or none d = d
get_or (some a) d = a

unfoldable pub on_enter_error_state : Option String → Build → Build
on_enter_error_state msg b = record b {
  error_message = some (get_or msg "An unspecified error occurred.");
}

-- The loop that empties the queue of subjobs that are not started.
unfoldable pub deplete : List ℕ → List ℕ
deplete [] = []
deplete (i ∷ is') = deplete is'

-- Without a project type, telling it to kill its subprocesses raises AttributeError.
unfoldable pub on_enter_canceled_state : Build → Build × Option Error
unfolding deplete
on_enter_canceled_state b =
    if b.has_project_type
    then (
      record b {
        is_killed = true;
        unstarted_subjobs = elim b.unstarted_subjobs [
          | none ↦ none
          | some q ↦ some (record q { items = deplete q.items })
        ];
      },
      none,
    )
    else (b, some exception)

unfoldable pub on_leave_state : ℕ → BuildState → Build → Build
on_leave_state now src b = elim (b.transition_timestamps src) [
  | none ↦ b
  | some start_time ↦ record b { observed = (src, now - start_time) ∷ b.observed }
]

unfoldable pub record_state_timestamp : ℕ → BuildState → Build → Build
record_state_timestamp now dst b = record b {
  transition_timestamps = stamp dst now b.transition_timestamps;
}

unfoldable pub enter_state :
    (Build → Build × Option Error) → Option String → BuildState → Build → Build × Option Error
unfolding on_enter_error_state on_enter_canceled_state
enter_state on_preparing msg error b = (on_enter_error_state msg b, none)
enter_state on_preparing msg canceled b = on_enter_canceled_state b
enter_state on_preparing msg preparing b = on_preparing b
enter_state on_preparing msg _ b = (b, none)

-- The callbacks that `Build.__init__` and `BuildFsm` register, at the times at which the state is
-- left and at which the change is recorded.
unfoldable pub machine : ℕ → ℕ → (Build → Build × Option Error) → Option String → Machine Build
unfolding enter_state on_leave_state record_state_timestamp
machine left_at changed_at on_preparing msg = record {
  current = λ b. b.state;
  set_current = λ s b. record b { state = s };
  on_leave = λ src dst b. on_leave_state left_at src b;
  on_enter = λ src dst b. enter_state on_preparing msg dst b;
  on_change = λ src dst b. record_state_timestamp changed_at dst b;
}

-- Only `prepare` triggers START_PREPARE, the one event that enters PREPARING.
abbrev pub no_preparation : Build → Build × Option Error
no_preparation b = (b, none)

module _ (fysom : Fysom) where
  -- `self._state_machine.trigger(event, ...)` for every event but START_PREPARE.
  unfoldable pub trigger_at : ℕ → BuildEvent → Option String → Build → Build
  trigger_at now e msg b = (trigger fysom (machine now now no_preparation) e msg b).0

  unfoldable pub cancel : ℕ → Build → Build
  unfolding trigger_at
  cancel now b = trigger_at now Fsm.cancel none b

  unfoldable pub mark_failed : ℕ → String → Build → Build
  unfolding trigger_at
  mark_failed now failure_reason b = trigger_at now fail (some failure_reason) b

  unfoldable pub mark_started : ℕ → Build → Build
  unfolding trigger_at
  mark_started now b = trigger_at now start_building none b

-- What other threads do to a build while it is prepared.
pub data Interruption : Type 0 where
  cancels : ℕ → Interruption
  fails : ℕ → String → Interruption

-- What a preparation meets: what other threads do meanwhile, the subjobs that
-- `compute_subjobs_for_build` returns or what fetching and atomizing raise, and the times.
pub record Preparation : Type 0 where
  pub started_at : ℕ
  pub prepared_at : ℕ
  pub recorded_at : ℕ
  pub meanwhile : List Interruption
  pub subjobs : Result (List Subjob)

unfoldable pub add_subjobs : List Subjob → Dict ℕ Subjob → Dict ℕ Subjob
add_subjobs [] d = d
add_subjobs (s ∷ ss) d = add_subjobs ss (insert s.subjob_id s d)

-- The new queues, and the loop that fills them: `unstarted_subjobs` has room for every subjob.
unfoldable pub fill_queues : List Subjob → Build → Build
unfolding add_subjobs
fill_queues subjobs b = record b {
  all_subjobs_by_id = add_subjobs subjobs b.all_subjobs_by_id;
  unstarted_subjobs =
      some (record { maxsize = length subjobs; items = map (λ s. s.subjob_id) subjobs });
  finished_subjobs = some (Queue.new (length subjobs));
}

module _ (fysom : Fysom) where
  unfoldable pub interrupt : Interruption → Build → Build
  unfolding cancel mark_failed
  interrupt (cancels now) b = cancel fysom now b
  interrupt (fails now reason) b = mark_failed fysom now reason b

  unfoldable pub interrupt_all : List Interruption → Build → Build
  unfolding interrupt
  interrupt_all [] b = b
  interrupt_all (i ∷ is') b = interrupt_all is' (interrupt i b)

  unfoldable pub prepare_subjobs : ℕ → Result (List Subjob) → Build → Build × Option Error
  unfolding trigger_at fill_queues
  prepare_subjobs now (err e) b = (b, some e)
  prepare_subjobs now (ok subjobs) b =
      (trigger_at fysom now finish_prepare none (fill_queues subjobs b), none)

  unfoldable pub on_enter_preparing_state : Preparation → Build → Build × Option Error
  unfolding interrupt_all prepare_subjobs
  on_enter_preparing_state p b =
      prepare_subjobs p.prepared_at p.subjobs (interrupt_all p.meanwhile b)

  -- The coin is spent, whatever comes of it.
  unfoldable pub prepare : Preparation → Build → Build × Option Error
  unfolding spend on_enter_preparing_state
  prepare p b =
      let (coin, is_first) = spend b.preparation_coin in
      let b' = record b { preparation_coin = coin } in
      let run =
        trigger fysom (machine p.started_at p.recorded_at (on_enter_preparing_state p))
          start_prepare none b' in
      if not b.has_project_type
      then (b, some runtime_error)
      else if is_first
      then run
      else (b', some runtime_error)

abbrev pub is_canceled : Build → Bool
is_canceled b = state_eq b.state canceled

abbrev pub has_error : Build → Bool
has_error b = state_eq b.state error

abbrev pub is_stopped : Build → Bool
is_stopped b = state_eq b.state error || state_eq b.state canceled

-- What `cancel` raises to its caller: a build that it moves to CANCELED has no project type, where
-- the callback calls it. The build itself is as `cancel` leaves it.
unfoldable pub cancel_raises : Build → Option Error
cancel_raises b =
    if state_eq b.state finished || is_stopped b || b.has_project_type
    then none
    else some attribute_error

abbrev pub is_finished : Build → Bool
is_finished b = is_canceled b || b.postbuild_tasks_are_finished

-- Starts the thread that performs the postbuild tasks.
unfoldable pub finish : Build → Build
finish b = record b { postbuild_threads = b.postbuild_threads + 1 }

abbrev or_not_found : Option Subjob → Result Subjob
or_not_found none = err item_not_found
or_not_found (some s) = ok s

unfoldable pub subjob : ℕ → Build → Result Subjob
subjob i b = or_not_found (lookup i b.all_subjobs_by_id)
