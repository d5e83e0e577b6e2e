-- ===== src/Master/ClusterMaster.antt =====
-- app/master/cluster_master.py, with the idle slaves of app/master/slave_allocator.py. A handler is
-- given the object of its slave and writes it back to the store of slaves. What the thread pool is
-- given to do is kept in `submitted`.
pub mod Failures
pub mod Shutdown
mod ShutdownExamples
mod Examples
use cluster_runner_jie.Prelude.{
  ℕ, zero, suc, ◌+◌, ◌-◌, ◌%◌, Bool, true, false, not, ◌&&◌, ◌||◌, Option, none, some, String, List,
  [], ◌∷◌, ◌++◌, length, leb, ltb, ◌==◌, if◌then◌else◌,
}
use cluster_runner_jie.Prelude.Dict.{Dict, lookup, insert, values, ℕ_eq, String_eq}
use cluster_runner_jie.Errors.{
  Error, bad_request, item_not_found, slave_marked_for_shutdown, Result, ok, err,
}
use cluster_runner_jie.Util.Pagination.{get_paginated_indices}
use cluster_runner_jie.Prelude.Int.{ℤ}
use cluster_runner_jie.Master.Fsm.Fysom.{Fysom}
use cluster_runner_jie.Master.Build.{Build, cancel, mark_failed, is_finished}
use cluster_runner_jie.Master.Build.Subjobs.{Payload, complete_subjob}
use cluster_runner_jie.Master.Slave.{
  Slave, Reply, Idled, new_slave, mark_dead, mark_as_idle, teardown, set_shutdown_mode,
  update_last_heartbeat_time,
}
use cluster_runner_jie.Master.Registry.{
  SlaveRegistry, BuildStore, add_slave, get_slave, remove_slave, delete, get, get_range, size,
}

-- What is submitted to the thread pool.
pub data Task : Type 0 where
  begin_subjob_executions : ℕ → ℕ → Task
  execute_next_subjob : ℕ → ℕ → Task

pub record ClusterMaster : Type 0 where
  pub slaves : Dict ℕ Slave
  pub slave_id_counter : ℕ
  pub slave_registry : SlaveRegistry
  pub builds : BuildStore
  -- an ordered set, as a list
  pub idle_slaves : List ℕ
  pub submitted : List Task

-- `SlaveState`
pub data SlaveState : Type 0 where
  disconnected shutdown idle setup_completed setup_failed : SlaveState

abbrev pub max_setup_failures : ℕ
max_setup_failures = 5

abbrev pub write_slave : Slave → ClusterMaster → ClusterMaster
write_slave sl m = record m { slaves = insert sl.slave_id sl m.slaves }

abbrev pub write_build : Build → ClusterMaster → ClusterMaster
write_build b m = record m { builds = insert b.build_id b m.builds }

abbrev is_in : ℕ → List ℕ → Bool
is_in i [] = false
is_in i (j ∷ js) = (j == i) || is_in i js

unfoldable pub put_idle : ℕ → List ℕ → List ℕ
put_idle i xs = if is_in i xs then xs else xs ++ i ∷ []

abbrev pub removed_if : Bool → Slave → ClusterMaster → ClusterMaster
removed_if false sl m = m
removed_if true sl m = elim (remove_slave m.slaves none (some sl.url) m.slave_registry) [
  | ok g ↦ record m { slave_registry = g }
  | err e ↦ m
]

abbrev after_idle : Idled → ClusterMaster → ClusterMaster × Option Error
after_idle r m = elim r.raises [
  | none ↦ (
    (let m' = write_slave r.slave m in
        record m' { idle_slaves = put_idle r.slave.slave_id m'.idle_slaves }),
    none,
  )
  | some slave_marked_for_shutdown ↦ (removed_if r.is_removed r.slave (write_slave r.slave m), none)
  | some e ↦ (write_slave r.slave m, some e)
]

-- `SlaveAllocator.add_idle_slave`
unfoldable pub add_idle_slave : Reply → Slave → ClusterMaster → ClusterMaster × Option Error
unfolding mark_as_idle put_idle remove_slave
add_idle_slave r sl m = after_idle (mark_as_idle r sl) m

unfoldable pub get_builds : Option ℤ → Option ℤ → ClusterMaster → List Build
unfolding get_paginated_indices get_range size
get_builds offset limit m =
    let (start, end) = get_paginated_indices offset limit (size m.builds) in
    get_range start end m.builds

abbrev unfinished : List Build → List Build
unfinished [] = []
unfinished (b ∷ bs) = if is_finished b then unfinished bs else b ∷ unfinished bs

unfoldable pub active_builds : ClusterMaster → List Build
unfolding get_builds
active_builds m = unfinished (get_builds none none m)

module _ (fysom : Fysom) (now : ℕ) where
  -- The build of a slave that connects again is canceled.
  unfoldable pub cancel_build_of : Option ℕ → ClusterMaster → ClusterMaster
  unfolding cancel get
  cancel_build_of none m = m
  cancel_build_of (some build_id) m = elim (get build_id m.builds) [
    | err e ↦ m
    | ok b ↦ record m { builds = insert build_id (cancel fysom now b) m.builds }
  ]

  unfoldable pub forget_slave : Slave → ClusterMaster → ClusterMaster
  unfolding cancel_build_of delete
  forget_slave old m =
      let m' = cancel_build_of old.current_build_id m in
      record m' { slave_registry = delete old m'.slave_registry }

  unfoldable pub forget_url : String → ClusterMaster → ClusterMaster
  unfolding get_slave forget_slave
  forget_url url m = elim (get_slave none (some url) m.slave_registry) [
    | err e ↦ m
    | ok i ↦ elim (lookup i m.slaves) [ none ↦ m | some old ↦ forget_slave old m ]
  ]

  unfoldable pub connect_slave :
      Reply → String → ℕ → Option String → ClusterMaster → (ClusterMaster × ℕ) × Option Error
  unfolding forget_url new_slave add_slave add_idle_slave
  connect_slave r url num_executors session_id m =
      let m' = forget_url url m in
      let i = m'.slave_id_counter + 1 in
      let sl = new_slave url num_executors session_id i now in
      let registered = record m' {
        slaves = insert i sl m'.slaves;
        slave_id_counter = i;
        slave_registry = add_slave sl m'.slave_registry;
      } in
      let (m'', e) = add_idle_slave r sl registered in ((m'', i), e)

  abbrev build_of : Slave → ClusterMaster → Result Build
  build_of sl m = elim sl.current_build_id [ none ↦ err item_not_found | some i ↦ get i m.builds ]

  unfoldable pub disconnect_slave : Slave → ClusterMaster → ClusterMaster
  unfolding mark_dead
  disconnect_slave sl m = write_slave (mark_dead sl) m

  unfoldable pub graceful_shutdown_slave : Reply → Slave → ClusterMaster → ClusterMaster
  unfolding set_shutdown_mode remove_slave
  graceful_shutdown_slave r sl m =
      let s = set_shutdown_mode r sl in removed_if s.is_removed s.slave (write_slave s.slave m)

  unfoldable pub handle_setup_success_on_slave :
      Slave → ClusterMaster → ClusterMaster × Option Error
  unfolding get
  handle_setup_success_on_slave sl m = elim (build_of sl m) [
    | err e ↦ (m, some e)
    | ok b ↦ (
      record m { submitted = m.submitted ++ begin_subjob_executions b.build_id sl.slave_id ∷ [] },
      none,
    )
  ]

  -- The fifth failure of a build's setup cancels and fails it.
  unfoldable pub count_setup_failure : String → Build → Build
  unfolding cancel mark_failed
  count_setup_failure reason b =
      let b' = record b { setup_failures = b.setup_failures + 1 } in
      if leb max_setup_failures b'.setup_failures
      then mark_failed fysom now reason (cancel fysom now b')
      else b'

  unfoldable pub handle_setup_failure_on_slave :
      String → Reply → Slave → ClusterMaster → ClusterMaster × Option Error
  unfolding get count_setup_failure teardown
  handle_setup_failure_on_slave reason r sl m = elim (build_of sl m) [
    | err e ↦ (m, some e)
    | ok b ↦ (write_slave (teardown r sl) (write_build (count_setup_failure reason b) m), none)
  ]

  -- `none` stands for a state that is none of the five.
  unfoldable pub handle_slave_state_update :
      String → Reply → Slave → Option SlaveState → ClusterMaster → ClusterMaster × Option Error
  unfolding disconnect_slave graceful_shutdown_slave add_idle_slave handle_setup_success_on_slave
      handle_setup_failure_on_slave
  handle_slave_state_update reason r sl none m = (m, some bad_request)
  handle_slave_state_update reason r sl (some disconnected) m = (disconnect_slave sl m, none)
  handle_slave_state_update reason r sl (some shutdown) m = (graceful_shutdown_slave r sl m, none)
  handle_slave_state_update reason r sl (some idle) m = add_idle_slave r sl m
  handle_slave_state_update reason r sl (some setup_completed) m =
      handle_setup_success_on_slave sl m
  handle_slave_state_update reason r sl (some setup_failed) m =
      handle_setup_failure_on_slave reason r sl m

-- An alive slave's heartbeat is recorded.
unfoldable pub record_heartbeat : ℕ → Slave → ClusterMaster → ClusterMaster × Bool
unfolding update_last_heartbeat_time
record_heartbeat now sl m =
    if sl.is_alive then (write_slave (update_last_heartbeat_time now sl) m, true) else (m, false)

-- `timedelta.seconds` is what is left of a day; times are in seconds.
unfoldable pub is_slave_responsive : ℕ → ℕ → Slave → Bool
is_slave_responsive now interval sl = ltb ((now - sl.last_heartbeat_time) % 86400) interval

-- The result is recorded, and whatever that raises, the slave's next subjob is submitted.
unfoldable pub handle_result_reported_from_slave :
    String → ℕ → ℕ → Payload → ClusterMaster → ClusterMaster × Option Error
unfolding get get_slave complete_subjob
handle_result_reported_from_slave url build_id subjob_id p m = elim (get build_id m.builds) [
  | err e ↦ (m, some e)
  | ok b ↦ elim (get_slave none (some url) m.slave_registry) [
    | err e ↦ (m, some e)
    | ok i ↦
        let (b', e) = complete_subjob subjob_id p b in
        (
          record m {
            builds = insert build_id b' m.builds;
            submitted = m.submitted ++ execute_next_subjob build_id i ∷ [];
          },
          e,
        )
  ]
]
