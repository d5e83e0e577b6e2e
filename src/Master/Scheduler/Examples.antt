-- ===== src/Master/Scheduler/Examples.antt =====
-- A slave with two executors, and a build with two subjobs to start.
use cluster_runner_jie.Prelude.{
  ℕ, ◌≡◌, Bool, ◌⊎◌, ◌≢◌, refl, inr, true, false, none, some, [], ◌∷◌, arith,
}
use cluster_runner_jie.Prelude.Int.{pos}
use cluster_runner_jie.Prelude.Dict.{lookup}
use cluster_runner_jie.Util.Queue.{Queue}
use cluster_runner_jie.Master.Subjob.{Subjob, new_subjob, new_atom}
use cluster_runner_jie.Master.Fsm.{building}
use cluster_runner_jie.Master.Build.{Build}
use cluster_runner_jie.Master.Slave.{Slave, answered, unreachable}
use cluster_runner_jie.Master.Scheduler.{
  Scheduler, Replies, execute_next_subjob_or_free_executor, free_slave_executor,
  begin_subjob_executions_on_slave,
}
use cluster_runner_jie.Master.Fsm.Simple.{simple}
use cluster_runner_jie.Master.Scheduler.{allocate_slave, needs_more_slaves}
use cluster_runner_jie.Master.Scheduler.Allocation.{allocate_slave_lem}
use cluster_runner_jie.Master.Scheduler.Execution.{using, free_slave_executor_lem, execute_next_lem}
use cluster_runner_jie.Master.Scheduler.Executors.{HasBegun, begin_subjob_executions_lem}

abbrev subjob : ℕ → Subjob
subjob i = new_subjob 7 i "make test" (new_atom "export X=1" ∷ [])

abbrev unstarted : Queue ℕ
unstarted = record { maxsize = 2; items = 0 ∷ 1 ∷ [] }

abbrev build : Build
build = record {
  build_id = 7;
  state = building;
  transition_timestamps = λ s. none;
  observed = [];
  error_message = none;
  preparation_coin = record { is_spent = true };
  has_project_type = true;
  is_killed = false;
  all_subjobs_by_id = (0, subjob 0) ∷ (1, subjob 1) ∷ [];
  unstarted_subjobs = some unstarted;
  finished_subjobs = some (record { maxsize = 2; items = [] });
  postbuild_threads = 0;
  postbuild_tasks_are_finished = false;
  failed_pairs = none;
  setup_failures = 0;
}

abbrev slave : ℕ → Slave
slave k = record {
  url = "slave:43001";
  num_executors = 2;
  slave_id = 5;
  num_executors_in_use = record { step = pos 1; current = pos k };
  current_build_id = some 7;
  last_heartbeat_time = 0;
  is_alive = true;
  is_in_shutdown_mode = false;
  session_id = none;
}

abbrev scheduler : Scheduler
scheduler = record {
  build = build;
  max_executors = 4;
  max_executors_per_slave = 2;
  slaves_allocated = 5 ∷ [];
  build_started = true;
  num_executors_allocated = 1;
  num_executors_in_use = 0;
  waiting = 0;
}

abbrev cut_off : Replies
cut_off = record { start = unreachable; tear_down = answered }

execute_next_lem_example :
    (execute_next_subjob_or_free_executor cut_off
      (slave 2)
      scheduler).scheduler.build.unstarted_subjobs
    ≡ some (record { maxsize = 2; items = 1 ∷ 0 ∷ [] })
unfolding lookup
execute_next_lem_example =
    ((execute_next_lem cut_off (slave 2) scheduler unstarted 0 (1 ∷ []) (subjob 0) refl refl refl
        refl).1
      (inr (λ e. absurd (ground arith)))).0

free_slave_executor_lem_example :
    let free = free_slave_executor unreachable (slave 1) scheduler in
    (free.scheduler.slaves_allocated ≡ [])
    × (free.scheduler.build ≡ build)
    × (free.raises ≡ none)
    × (◌≡◌ {A = Bool} true true → unreachable ≡ unreachable → free.slave.is_alive ≡ false)
    × ((◌≡◌ {A = Bool} true false) ⊎ (unreachable ≢ unreachable) → free.slave ≡ using 0 (slave 1))
free_slave_executor_lem_example =
    ((free_slave_executor_lem unreachable 0 (slave 1) scheduler [] []).0 (refl, refl) refl refl).0

begin_subjob_executions_lem_example :
    HasBegun 2 scheduler
      (slave 0)
      (begin_subjob_executions_on_slave (λ n. cut_off) (slave 0) scheduler)
begin_subjob_executions_lem_example =
    begin_subjob_executions_lem (λ n. cut_off) (slave 0) scheduler (refl, refl) refl (omega arith)

allocate_slave_lem_example :
    (allocate_slave simple 9 unreachable (slave 0) scheduler).0.0.build ≡ build
allocate_slave_lem_example =
    (allocate_slave_lem simple 9 unreachable (slave 0) scheduler needs).1 refl
  where
    needs : needs_more_slaves scheduler ≡ true
    needs = unfold needs_more_slaves in refl
