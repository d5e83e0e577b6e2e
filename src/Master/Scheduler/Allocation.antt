-- ===== src/Master/Scheduler/Allocation.antt =====
-- What the allocation of a slave to a build comes to.
use cluster_runner_jie.Prelude.{
  ℕ, ◌+◌, ◌<◌, ◌≡◌, ◌≢◌, refl, min, true, false, none, some, [], ◌∷◌, ◌++◌, arith,
}
use cluster_runner_jie.Master.Fsm.{prepared, building, start_building}
use cluster_runner_jie.Master.Fsm.Fysom.{Fysom}
use cluster_runner_jie.Master.Fsm.Trigger.{diagram}
use cluster_runner_jie.Master.Build.{Build, mark_started}
use cluster_runner_jie.Master.Build.States.{trigger_at-state}
use cluster_runner_jie.Master.Slave.{Slave, Reply, unreachable, setup}
use cluster_runner_jie.Master.Scheduler.{Scheduler, allocate_slave, needs_more_slaves}

mark_started-state :
    (fysom : Fysom) (now : ℕ) (b : Build)
    → b.state ≡ prepared
    → (mark_started fysom now b).state ≡ building
unfolding mark_started diagram
mark_started-state fysom now b h = rw (trigger_at-state fysom now start_building none b, h) refl

setup-alive :
    (r : Reply) (i : ℕ) (sl : Slave)
    → (r ≡ unreachable → ((setup r i sl).0.is_alive ≡ false) × ((setup r i sl).1 ≡ false))
      × (r ≢ unreachable → ((setup r i sl).0.current_build_id ≡ some i) × ((setup r i sl).1 ≡ true))
unfolding setup
setup-alive r i sl = ground arith

-- The first slave that a prepared build is allocated starts it. A slave is allocated to a build
-- that needs more while the executors allocated are below the maximum; its share is added to them,
-- and they exceed the maximum by less than that. If the slave cannot be reached it is dead, and its
-- share and its id are added all the same; otherwise it is set up for this build.
pub allocate_slave_lem :
    (fysom : Fysom) (now : ℕ) (r : Reply) (sl : Slave) (st : Scheduler)
    → needs_more_slaves st ≡ true
    → let a = allocate_slave fysom now r sl st in
      let share = min sl.num_executors st.max_executors_per_slave in
      (st.build_started ≡ false → st.build.state ≡ prepared → a.0.0.build.state ≡ building)
      × (st.build_started ≡ true → a.0.0.build ≡ st.build)
      × (a.0.0.build_started ≡ true)
      × (a.0.0.num_executors_allocated ≡ st.num_executors_allocated + share)
      × (a.0.0.num_executors_allocated < st.max_executors + share)
      × (a.0.0.slaves_allocated ≡ st.slaves_allocated ++ sl.slave_id ∷ [])
      × (r ≡ unreachable → (a.0.1.is_alive ≡ false) × (a.1 ≡ false))
      × (r ≢ unreachable → (a.0.1.current_build_id ≡ some a.0.0.build.build_id) × (a.1 ≡ true))
unfolding allocate_slave needs_more_slaves
allocate_slave_lem fysom now r sl st h = (
  (λ first p. ground (arith, mark_started-state fysom now st.build p)),
  (λ later. ground arith),
  refl,
  refl,
  ground arith,
  refl,
  (λ e. (setup-alive r _ sl).0 e),
  (λ e. (setup-alive r _ sl).1 e),
)
