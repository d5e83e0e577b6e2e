-- ===== src/Master/ClusterMaster/Examples.antt =====
-- A master with one build and one slave.
use cluster_runner_jie.Prelude.{◌≡◌, refl, true, false, none, some, [], ◌∷◌, ◌+◌, arith}
use cluster_runner_jie.Prelude.Dict.{lookup}
use cluster_runner_jie.Prelude.Int.{pos}
use cluster_runner_jie.Master.Fsm.{building}
use cluster_runner_jie.Master.Fsm.Simple.{simple}
use cluster_runner_jie.Master.Build.{Build, has_error}
use cluster_runner_jie.Master.Build.Subjobs.{no_payload}
use cluster_runner_jie.Master.Slave.{Slave, answered}
use cluster_runner_jie.Master.Registry.{get_slave, get}
use cluster_runner_jie.Master.ClusterMaster.{
  ClusterMaster, execute_next_subjob, count_setup_failure, handle_result_reported_from_slave,
  connect_slave, is_slave_responsive,
}
use cluster_runner_jie.Master.ClusterMaster.Failures.{
  count_setup_failure_lem, handle_result_reported_lem, connect_slave_lem, is_slave_responsive_day,
}

abbrev build : Build
build = record {
  build_id = 7;
  state = building;
  transition_timestamps = λ s. none;
  observed = [];
  error_message = none;
  preparation_coin = record { is_spent = true };
  has_project_type = true;
  is_killed = false;
  all_subjobs_by_id = [];
  unstarted_subjobs = some (record { maxsize = 0; items = [] });
  finished_subjobs = some (record { maxsize = 0; items = [] });
  postbuild_threads = 0;
  postbuild_tasks_are_finished = false;
  failed_pairs = none;
  setup_failures = 4;
}

abbrev slave : Slave
slave = record {
  url = "slave:43001";
  num_executors = 2;
  slave_id = 1;
  num_executors_in_use = record { step = pos 1; current = pos 0 };
  current_build_id = some 7;
  last_heartbeat_time = 100;
  is_alive = true;
  is_in_shutdown_mode = false;
  session_id = none;
}

abbrev master : ClusterMaster
master = record {
  slaves = (1, slave) ∷ [];
  slave_id_counter = 1;
  slave_registry = record {
    all_slaves_by_url = ("slave:43001", 1) ∷ [];
    all_slaves_by_id = (1, 1) ∷ [];
  };
  builds = (7, build) ∷ [];
  idle_slaves = [];
  submitted = [];
}

fifth_failure : has_error (count_setup_failure simple 9 "Setup failed" build) ≡ true
fifth_failure = (count_setup_failure_lem simple 9 "Setup failed" build).2 (omega arith)

unknown_slave_reports :
    (handle_result_reported_from_slave "slave:43001" 7 0 no_payload master).0.submitted
    ≡ execute_next_subjob 7 1 ∷ []
unfolding get get_slave lookup
unknown_slave_reports =
    ((handle_result_reported_lem "slave:43001" 7 0 no_payload master).0 build 1 refl refl).0

connect_raises : (connect_slave simple 9 answered "slave:43002" 4 none master).1 ≡ none
connect_raises = (connect_slave_lem simple 9 answered "slave:43002" 4 none master).raises

a_day_late : is_slave_responsive (110 + 86400) 60 slave ≡ is_slave_responsive 110 60 slave
a_day_late = is_slave_responsive_day 110 60 slave (omega arith)
