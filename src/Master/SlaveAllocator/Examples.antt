-- ===== src/Master/SlaveAllocator/Examples.antt =====
-- A prepared build with one subjob, and three idle slaves, one of which does not answer.
use cluster_runner_jie.Prelude.{
  ℕ, true, false, ◌==◌, if◌then◌else◌, some, none, [], ◌∷◌, ◌≡◌, ◌⊎◌, refl, arith,
}
use cluster_runner_jie.Prelude.Dict.{lookup, insert, ℕ_eq}
use cluster_runner_jie.Prelude.Int.{◌+ℤ◌}
use cluster_runner_jie.Util.Counter.{value}
use cluster_runner_jie.Master.Subjob.{new_subjob}
use cluster_runner_jie.Master.Build.{Build, new_build}
use cluster_runner_jie.Master.Slave.{Slave, new_slave, check_alive, shows, no_response, answered}
use cluster_runner_jie.Master.Fsm.Simple.{simple}
use cluster_runner_jie.Master.Scheduler.{new_scheduler, needs_more_slaves, is_in, allocate_slave}
use cluster_runner_jie.Master.SlaveAllocator.{
  Allocation, Answers, Meanwhile, allocate_claimed, slave_allocation_loop,
}
use cluster_runner_jie.Master.SlaveAllocator.Serving.{allocate_claimed_lem}
use cluster_runner_jie.Master.SlaveAllocator.Loop.{loop_ends}

abbrev build : Build
build = record (new_build 7 1) {
  all_subjobs_by_id = (0, new_subjob 7 0 "make test" []) ∷ [];
  unstarted_subjobs = some (record { maxsize = 1; items = 0 ∷ [] });
}

abbrev slave : ℕ → Slave
slave i = new_slave "slave:43001" 2 none i 0

abbrev start : Allocation
start = record {
  slaves = (3, slave 3) ∷ (4, slave 4) ∷ (5, slave 5) ∷ [];
  idle_slaves = 3 ∷ 4 ∷ 5 ∷ [];
  scheduler = record (new_scheduler build 10 2) { build_started = true };
  raised = none;
}

abbrev answers : ℕ → Answers
answers i = record {
  alive = if i == 5 then no_response else shows true;
  set_up = answered;
  kill = answered;
}

-- Slave 4 is put in shutdown mode while it is asked whether it is alive, and given to the build.
abbrev stopped_meanwhile : Meanwhile
stopped_meanwhile = record {
  to_scheduler = λ st. st;
  to_slave = λ sl. record sl { is_in_shutdown_mode = true };
}

allocate_claimed_lem_example :
    is_in 4
        (allocate_claimed simple 9
          (answers 4)
          stopped_meanwhile
          (slave 4)
          start).scheduler.slaves_allocated
      ≡ true
    × (allocate_claimed simple 9 (answers 4) stopped_meanwhile (slave 4) start).idle_slaves
      ≡ start.idle_slaves
unfolding new_slave check_alive new_build new_scheduler value ◌+ℤ◌
allocate_claimed_lem_example =
    (allocate_claimed_lem simple 9 (answers 4) stopped_meanwhile (slave 4) start refl refl).1 refl
      needs
  where
    needs : needs_more_slaves start.scheduler ≡ true
    needs = unfold needs_more_slaves in refl

abbrev after : Allocation
after = slave_allocation_loop simple 9 answers 3 start

loop_ends_example :
    ((needs_more_slaves after.scheduler ≡ false) ⊎ (after.idle_slaves ≡ []))
    × slave_allocation_loop simple 9 answers 2 after ≡ after
loop_ends_example = loop_ends simple 9 answers 3 2 start (omega arith)

-- The slave that became idle last is asked first, and is dropped; one slave is enough.
loop_run : after.idle_slaves ≡ 3 ∷ []
unfolding slave_allocation_loop new_build new_slave new_scheduler needs_more_slaves lookup insert
    check_alive allocate_slave
loop_run = refl
