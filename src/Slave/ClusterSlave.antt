-- ===== src/Slave/ClusterSlave.antt =====
-- app/slave/cluster_slave.py. The threads that the slave starts are kept in lists; a step of one
-- takes it from there. What the master and the project type answer are arguments. A thread that
-- raises ends there, and its exception is kept in `raised` (the exception handler sees it).
pub mod Steps
mod Frames
pub mod Idle
pub mod Teardowns
pub mod Heartbeats
pub mod Posts
mod Examples
use cluster_runner_jie.Prelude.{
  ℕ, zero, suc, ◌+◌, Bool, true, false, not, ◌&&◌, Option, none, some, List, [], ◌∷◌, ◌++◌, leb,
  ◌==◌, take, if◌then◌else◌,
}
use cluster_runner_jie.Prelude.Dict.{Dict, lookup, insert, ℕ_eq}
use cluster_runner_jie.Errors.{Error, exception, runtime_error, bad_request}
use cluster_runner_jie.Util.Queue
use cluster_runner_jie.Util.Queue.{Queue}
use cluster_runner_jie.Util.SingleUseCoin
use cluster_runner_jie.Util.SingleUseCoin.{SingleUseCoin, spend}
use cluster_runner_jie.Master.ClusterMaster.{
  SlaveState, disconnected, idle, setup_completed, setup_failed,
}
use cluster_runner_jie.Slave.SubjobExecutor.{
  SubjobExecutor, new_executor, configure_project_type, begin_subjob, end_subjob,
}

-- A thread that executes a subjob.
pub record Work : Type 0 where
  pub build_id : ℕ
  pub subjob_id : ℕ
  pub executor_id : ℕ

-- A thread that sets a build up on executors.
pub record Setup : Type 0 where
  pub executors : List ℕ
  pub start_index : ℕ

pub record ClusterSlave : Type 0 where
  pub num_executors : ℕ
  pub is_alive : Bool
  pub slave_id : Option ℕ
  pub idle_executors : Queue ℕ
  pub executors_by_id : Dict ℕ SubjobExecutor
  pub current_build_id : Option ℕ
  pub build_teardown_coin : Option SingleUseCoin
  pub has_project_type : Bool
  pub base_executor_index : Option ℕ
  pub heartbeat_failure_count : ℕ
  pub heartbeat_failure_threshold : ℕ
  -- threads: setups, teardowns before and after the build is reset, subjobs
  pub setups : List Setup
  pub teardowns : ℕ
  pub waiting : ℕ
  pub working : List Work
  -- subjobs whose threads have raised before they put the executor back
  pub lost : List Work
  -- the states that notifications to the master name, and the builds set up and torn down so far
  pub notified : List SlaveState
  pub builds_set_up : ℕ
  pub builds_torn_down : ℕ
  pub raised : List Error
  pub has_exited : Bool

-- `range`, from `i` on
abbrev pub ids_from : ℕ → ℕ → List ℕ
ids_from i zero = []
ids_from i (suc n) = i ∷ ids_from (suc i) n

abbrev pub executors_from : ℕ → ℕ → Dict ℕ SubjobExecutor
executors_from i zero = []
executors_from i (suc n) = (i, new_executor i) ∷ executors_from (suc i) n

unfoldable pub new_slave : ℕ → ℕ → ClusterSlave
new_slave num_executors threshold = record {
  num_executors = num_executors;
  is_alive = true;
  slave_id = none;
  idle_executors = record { maxsize = num_executors; items = ids_from 0 num_executors };
  executors_by_id = executors_from 0 num_executors;
  current_build_id = none;
  build_teardown_coin = none;
  has_project_type = false;
  base_executor_index = none;
  heartbeat_failure_count = 0;
  heartbeat_failure_threshold = threshold;
  setups = [];
  teardowns = 0;
  waiting = 0;
  working = [];
  lost = [];
  notified = [];
  builds_set_up = 0;
  builds_torn_down = 0;
  raised = [];
  has_exited = false;
}

abbrev pub raising : Option Error → ClusterSlave → ClusterSlave
raising none s = s
raising (some e) s = record s { raised = s.raised ++ e ∷ [] }

-- `created` says whether there is a project type of the name that is asked for.
unfoldable pub setup_build : ℕ → ℕ → Bool → ClusterSlave → ClusterSlave × Option Error
setup_build build_id start_index created s =
    let s' = record s {
      current_build_id = some build_id;
      build_teardown_coin = some SingleUseCoin.new;
      has_project_type = created;
      builds_set_up = s.builds_set_up + 1;
    } in
    if Queue.full s.idle_executors
    then (
      record s' {
        setups =
            s'.setups
            ++ record { executors = s.idle_executors.items; start_index = start_index } ∷ [];
      },
      none,
    )
    else (s', some runtime_error)

-- The setup of a build completes, or fails or raises something else after some executors were
-- configured.
pub data SetupOutcome : Type 0 where
  completes : SetupOutcome
  fails raises : ℕ → SetupOutcome

unfoldable pub configure : List ℕ → Dict ℕ SubjobExecutor → Dict ℕ SubjobExecutor
unfolding configure_project_type
configure [] d = d
configure (i ∷ is') d = elim (lookup i d) [
  | none ↦ configure is' d
  | some e ↦ configure is' (insert i (configure_project_type e).0 d)
]

-- The master answers a notification with success, or the call raises.
unfoldable pub notify_master_of_state_change :
    Option Error → SlaveState → ClusterSlave → ClusterSlave
notify_master_of_state_change answer st s =
    raising answer (record s { notified = s.notified ++ st ∷ [] })

abbrev pub configured : List ℕ → ClusterSlave → ClusterSlave
configured is' s = record s { executors_by_id = configure is' s.executors_by_id }

abbrev pub after_setup : Option Error → List ℕ → SetupOutcome → ClusterSlave → ClusterSlave
after_setup answer executors completes s =
    notify_master_of_state_change answer setup_completed (configured executors s)
after_setup answer executors (fails n) s =
    notify_master_of_state_change answer setup_failed (configured (take n executors) s)
after_setup answer executors (raises n) s =
    raising (some exception) (configured (take n executors) s)

unfoldable pub async_setup_build : Setup → SetupOutcome → Option Error → ClusterSlave → ClusterSlave
unfolding configure notify_master_of_state_change
async_setup_build w outcome answer s =
    let s' = record s { base_executor_index = some w.start_index } in
    if s.has_project_type
    then after_setup answer w.executors outcome s'
    else raising (some exception) s'

abbrev pub is_build : ℕ → Option ℕ → Bool
is_build i none = false
is_build i (some j) = i == j

abbrev check_build : Option ℕ → Option ℕ → Bool
check_build current none = true
check_build current (some i) = is_build i current

unfoldable pub teardown_build : Option ℕ → ClusterSlave → ClusterSlave × Option Error
teardown_build build_id s = elim s.current_build_id [
  | none ↦ (s, some bad_request)
  | some i ↦
      if check_build (some i) build_id
      then (record s { teardowns = s.teardowns + 1 }, none)
      else (s, some bad_request)
]

-- `failure` is what the project type's teardown raises.
unfoldable pub do_build_teardown_and_reset :
    Option Error → ClusterSlave → ClusterSlave × Option Error
unfolding spend
do_build_teardown_and_reset failure s = elim s.build_teardown_coin [
  | none ↦ (s, none)
  | some coin ↦
      let (coin', is_first) = spend coin in
      let s' = record s { build_teardown_coin = some coin' } in
      let torn = record s' { builds_torn_down = s'.builds_torn_down + 1 } in
      let reset = record torn {
        current_build_id = none;
        has_project_type = false;
        base_executor_index = none;
      } in
      if is_first && s.has_project_type
      then elim failure [ none ↦ (reset, none) | some e ↦ (torn, some e) ]
      else (s', none)
]

abbrev pub then_wait : ClusterSlave × Option Error → ClusterSlave
then_wait (s, none) = record s { waiting = s.waiting + 1 }
then_wait (s, some e) = raising (some e) s

-- `_async_teardown_build`, up to the loop that waits until all executors are idle.
unfoldable pub begin_teardown : Option Error → ClusterSlave → ClusterSlave
unfolding do_build_teardown_and_reset
begin_teardown failure s = then_wait (do_build_teardown_and_reset failure s)

-- `_async_teardown_build`, behind the loop.
unfoldable pub send_master_idle_notification : Bool → Option Error → ClusterSlave → ClusterSlave
unfolding notify_master_of_state_change
send_master_idle_notification is_responsive answer s =
    if is_responsive then notify_master_of_state_change answer idle s else s

unfoldable pub disconnect_from_master : Bool → Option Error → ClusterSlave → ClusterSlave
unfolding notify_master_of_state_change
disconnect_from_master is_responsive answer s =
    let s' = record s { is_alive = false } in
    if is_responsive then notify_master_of_state_change answer disconnected s' else s'

-- The master answers with an id, or the call raises: `none`.
unfoldable pub connect_to_master : Option ℕ → ClusterSlave → ClusterSlave
connect_to_master none s = record s { is_alive = true }
connect_to_master (some slave_id) s = record s { is_alive = true; slave_id = some slave_id }

abbrev pub on_executor :
    (SubjobExecutor → SubjobExecutor) → ℕ → Dict ℕ SubjobExecutor → Dict ℕ SubjobExecutor
on_executor f i d = elim (lookup i d) [ none ↦ d | some e ↦ insert i (f e) d ]

-- With no idle executor the call blocks: `none`.
unfoldable pub start_working_on_subjob : ℕ → ℕ → ClusterSlave → Option (ClusterSlave × Option Error)
start_working_on_subjob build_id subjob_id s =
    if is_build build_id s.current_build_id
    then elim (Queue.get s.idle_executors) [
      | none ↦ none
      | some (i, q) ↦ some (
        record s {
          idle_executors = q;
          executors_by_id = on_executor (begin_subjob build_id subjob_id) i s.executors_by_id;
          working =
              s.working
              ++ record { build_id = build_id; subjob_id = subjob_id; executor_id = i } ∷ [];
        },
        none,
      )
    ]
    else some (s, some bad_request)

-- The end of `_execute_subjob`: the executor is idle again before the results are posted.
unfoldable pub finish_subjob : Work → ClusterSlave → ClusterSlave
finish_subjob w s = record s {
  executors_by_id = on_executor end_subjob w.executor_id s.executors_by_id;
  idle_executors = elim (Queue.put w.executor_id s.idle_executors) [
    | none ↦ s.idle_executors
    | some q ↦ q
  ];
}

-- `_execute_subjob` raises before it is at its end: the executor stays claimed.
unfoldable pub fail_subjob : Error → Work → ClusterSlave → ClusterSlave
fail_subjob e w s = record (raising (some e) s) { lost = s.lost ++ w ∷ [] }
