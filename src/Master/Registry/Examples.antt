-- ===== src/Master/Registry/Examples.antt =====
-- One slave comes and goes.
use cluster_runner_jie.Prelude.{ℕ, ◌≡◌, refl, true, false, none, [], arith}
use cluster_runner_jie.Prelude.Dict.{Dict, lookup, insert, ℕ_eq, String_eq}
use cluster_runner_jie.Prelude.Int.{pos}
use cluster_runner_jie.Master.Slave.{Slave}
use cluster_runner_jie.Master.Registry.{no_slaves, add_slave, delete}
use cluster_runner_jie.Master.Registry.Agreement.{Agree, add_slave-Agree, delete-Agree}

abbrev slave : Slave
slave = record {
  url = "slave:43001";
  num_executors = 2;
  slave_id = 1;
  num_executors_in_use = record { step = pos 1; current = pos 0 };
  current_build_id = none;
  last_heartbeat_time = 100;
  is_alive = true;
  is_in_shutdown_mode = false;
  session_id = none;
}

no_slaves-Agree : (slaves : Dict ℕ Slave) → Agree slaves no_slaves
unfolding lookup
no_slaves-Agree slaves = record {
  by_url = λ url i h. absurd (ground arith);
  by_id = λ i j h. absurd (ground arith);
}

one_slave-Agree : Agree (insert 1 slave []) (add_slave slave no_slaves)
unfolding lookup
one_slave-Agree = add_slave-Agree [] no_slaves slave (no_slaves-Agree []) refl refl

deleted-Agree :
    lookup "slave:43001" (delete slave (add_slave slave no_slaves)).all_slaves_by_url ≡ none
unfolding lookup insert add_slave
deleted-Agree =
    (delete-Agree (insert 1 slave []) (add_slave slave no_slaves) slave
      (add_slave-Agree [] no_slaves slave (no_slaves-Agree []) refl refl) refl refl).1
