-- ===== src/Master/ClusterMaster/ShutdownExamples.antt =====
-- One slave, and an id that nobody has.
use cluster_runner_jie.Prelude.{ℕ, true, false, none, some, List, [], ◌∷◌, ◌++◌, ◌≡◌, arith}
use cluster_runner_jie.Prelude.Dict.{lookup, ℕ_eq}
use cluster_runner_jie.Errors.{item_not_found, ok}
use cluster_runner_jie.Master.Fsm.Simple.{simple}
use cluster_runner_jie.Master.Slave.{Slave, Reply, answered, new_slave}
use cluster_runner_jie.Master.Registry.{add_slave, no_slaves}
use cluster_runner_jie.Master.ClusterMaster.{ClusterMaster}
use cluster_runner_jie.Master.ClusterMaster.Shutdown.{
  find_slaves, set_shutdown_mode_on_slaves, set_shutdown_mode_lem, is_in,
}

abbrev slave : Slave
slave = new_slave "slave:43001" 2 none 1 5

abbrev master : ClusterMaster
master = record {
  slaves = (1, slave) ∷ [];
  slave_id_counter = 1;
  slave_registry = add_slave slave no_slaves;
  builds = [];
  idle_slaves = 1 ∷ [];
  submitted = [];
}

abbrev replies : ℕ → Reply
replies i = answered

master_IsStore : (i : ℕ) (sl : Slave) → lookup i master.slaves ≡ some sl → sl.slave_id ≡ i
unfolding lookup new_slave
master_IsStore i sl e = ground (arith, e)

set_shutdown_mode_lem_example :
    let r = set_shutdown_mode_on_slaves simple 9 replies (1 ∷ 2 ∷ []) master in
    ((before after : List ℕ) (i : ℕ)
      → 1 ∷ 2 ∷ [] ≡ before ++ i ∷ after
      → lookup i master.slave_registry.all_slaves_by_id ≡ none
      → r ≡ (master, some item_not_found))
    × ((js : List ℕ)
        → find_slaves (1 ∷ 2 ∷ []) master.slave_registry ≡ ok js
        → (r.1 ≡ none)
          × ((j : ℕ) (sl : Slave)
              → lookup j master.slaves ≡ some sl
              → (is_in j js ≡ true
                  → (down : Slave) × (lookup j r.0.slaves ≡ some down)
                    × (down.is_in_shutdown_mode ≡ true))
                × (is_in j js ≡ false → lookup j r.0.slaves ≡ some sl)))
set_shutdown_mode_lem_example =
    set_shutdown_mode_lem simple 9 replies (1 ∷ 2 ∷ []) master master_IsStore
