-- ===== src/Master/Slave.antt =====
-- app/master/slave.py: the master's view of a slave. What the slave's service answers is an
-- argument of each call; removal from the registry is part of the result where it happens.
use cluster_runner_jie.Prelude.{
  ℕ, Bool, true, false, not, Option, none, some, String, if◌then◌else◌,
}
use cluster_runner_jie.Prelude.Int.{ℤ, pos, ltb_ℤ}
use cluster_runner_jie.Errors.{
  Error, exception, dead_slave, slave_marked_for_shutdown, slave_communication, Result, ok, err,
}
use cluster_runner_jie.Util.Counter
use cluster_runner_jie.Util.Counter.{Counter, increment, decrement, value}

pub record Slave : Type 0 where
  pub url : String
  pub num_executors : ℕ
  pub slave_id : ℕ
  pub num_executors_in_use : Counter
  pub current_build_id : Option ℕ
  pub last_heartbeat_time : ℕ
  pub is_alive : Bool
  pub is_in_shutdown_mode : Bool
  pub session_id : Option String

-- What a post comes to: a response, a response of failure, or that there is no connection.
pub data Reply : Type 0 where
  answered failed unreachable : Reply

-- `Slave.__init__`, with the id that the class's counter gives out
unfoldable pub new_slave : String → ℕ → Option String → ℕ → ℕ → Slave
new_slave url num_executors session_id slave_id now = record {
  url = url;
  num_executors = num_executors;
  slave_id = slave_id;
  num_executors_in_use = Counter.new;
  current_build_id = none;
  last_heartbeat_time = now;
  is_alive = true;
  is_in_shutdown_mode = false;
  session_id = session_id;
}

unfoldable pub mark_dead : Slave → Slave
mark_dead sl = record sl { is_alive = false; current_build_id = none }

-- `kill` marks the slave as dead, whatever comes of the call.
unfoldable pub kill : Reply → Slave → Slave
unfolding mark_dead
kill r sl = mark_dead sl

-- The slave, whether it was removed from the registry, and what is raised.
pub record Idled : Type 0 where
  pub slave : Slave
  pub is_removed : Bool
  pub raises : Option Error

unfoldable pub mark_as_idle : Reply → Slave → Idled
unfolding kill value
mark_as_idle r sl =
    let idle = record sl { current_build_id = none } in
    if ltb_ℤ (pos 0) (value sl.num_executors_in_use)
    then record { slave = sl; is_removed = false; raises = some exception }
    else if sl.is_in_shutdown_mode
    then record { slave = kill r idle; is_removed = true; raises = some slave_marked_for_shutdown }
    else record { slave = idle; is_removed = false; raises = none }

unfoldable pub setup : Reply → ℕ → Slave → Slave × Bool
unfolding mark_dead
setup unreachable build_id sl = (mark_dead (record sl { current_build_id = some build_id }), false)
setup _ build_id sl = (record sl { current_build_id = some build_id }, true)

abbrev dead_if_unreachable : Reply → Slave → Slave
dead_if_unreachable unreachable sl = mark_dead sl
dead_if_unreachable _ sl = sl

unfoldable pub teardown : Reply → Slave → Slave
unfolding mark_dead
teardown r sl = if sl.is_alive then dead_if_unreachable r sl else sl

abbrev error_of : Reply → Option Error
error_of answered = none
error_of _ = some slave_communication

unfoldable pub start_subjob : Reply → Slave → Option Error
start_subjob r sl =
    if not sl.is_alive
    then some dead_slave
    else if sl.is_in_shutdown_mode
    then some slave_marked_for_shutdown
    else error_of r

unfoldable pub claim_executor : Slave → Slave × Result ℤ
unfolding increment
claim_executor sl =
    let (c, new_count) = increment sl.num_executors_in_use in
    (
      record sl { num_executors_in_use = c },
      (if ltb_ℤ (pos sl.num_executors) new_count then err exception else ok new_count),
    )

unfoldable pub free_executor : Slave → Slave × Result ℤ
unfolding decrement
free_executor sl =
    let (c, new_count) = decrement sl.num_executors_in_use in
    (
      record sl { num_executors_in_use = c },
      (if ltb_ℤ new_count (pos 0) then err exception else ok new_count),
    )

-- What the slave's API shows: whether it is alive, or no (proper) answer to that.
pub data Shown : Type 0 where
  shows : Bool → Shown
  no_response not_ok missing_key not_boolean : Shown

unfoldable pub check_alive : Shown → Slave → Slave × Bool
unfolding mark_dead
check_alive (shows b) sl = (record sl { is_alive = b }, b)
check_alive _ sl = (mark_dead sl, false)

unfoldable pub set_shutdown_mode : Reply → Slave → Idled
unfolding kill
set_shutdown_mode r sl =
    let down = record sl { is_in_shutdown_mode = true } in
    elim sl.current_build_id [
      | none ↦ record { slave = kill r down; is_removed = true; raises = none }
      | some b ↦ record { slave = down; is_removed = false; raises = none }
    ]

unfoldable pub update_last_heartbeat_time : ℕ → Slave → Slave
update_last_heartbeat_time now sl = record sl { last_heartbeat_time = now }
