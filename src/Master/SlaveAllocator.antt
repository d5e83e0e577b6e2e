-- ===== src/Master/SlaveAllocator.antt =====
-- app/master/slave_allocator.py and app/master/build_scheduler_pool.py. The idle slaves are the
-- list that the ordered set of app/util/ordered_set_queue.py stands for. What the slaves answer is
-- an argument, and so is what other threads do while the allocator waits for an answer.
pub mod Serving
pub mod Loop
mod Examples
use cluster_runner_jie.Prelude.{
  ℕ, zero, suc, ◌+◌, Bool, true, false, not, Option, none, some, List, [], ◌∷◌, if◌then◌else◌,
}
use cluster_runner_jie.Prelude.Dict.{Dict, lookup, insert, ℕ_eq}
use cluster_runner_jie.Errors.{Error, slave_marked_for_shutdown}
use cluster_runner_jie.Util.Queue
use cluster_runner_jie.Util.Queue.{Queue}
use cluster_runner_jie.Util.OrderedSet.Lists.{put, pop_back}
use cluster_runner_jie.Master.Fsm.Fysom.{Fysom}
use cluster_runner_jie.Master.Build.{Build}
use cluster_runner_jie.Master.Slave.{Slave, Reply, Shown, Idled, check_alive, mark_as_idle}
use cluster_runner_jie.Master.Scheduler.{
  Scheduler, new_scheduler, needs_more_slaves, allocate_slave,
}

pub record BuildSchedulerPool : Type 0 where
  pub schedulers_by_build_id : Dict ℕ Scheduler
  -- ids of builds
  pub builds_waiting_for_slaves : Queue ℕ

abbrev pub new_pool : BuildSchedulerPool
new_pool = record { schedulers_by_build_id = []; builds_waiting_for_slaves = Queue.new 0 }

-- The limits are those of the build's job configuration.
unfoldable pub get : Build → ℕ → ℕ → BuildSchedulerPool → BuildSchedulerPool × Scheduler
get build max_executors max_executors_per_slave p =
    elim (lookup build.build_id p.schedulers_by_build_id) [
      | none ↦
          let st = new_scheduler build max_executors max_executors_per_slave in
          (
            record p { schedulers_by_build_id = insert build.build_id st p.schedulers_by_build_id },
            st,
          )
      | some st ↦ (p, st)
    ]

-- The queue has no bound, so that it is never full.
unfoldable pub add_build_waiting_for_slaves : ℕ → BuildSchedulerPool → BuildSchedulerPool
add_build_waiting_for_slaves build_id p = elim (Queue.put build_id p.builds_waiting_for_slaves) [
  | none ↦ p
  | some q ↦ record p { builds_waiting_for_slaves = q }
]

-- With no build that waits the call blocks: `none`.
unfoldable pub next_prepared_build_scheduler :
    (ℕ → Build) → ℕ → ℕ → BuildSchedulerPool → Option (BuildSchedulerPool × Scheduler)
unfolding get
next_prepared_build_scheduler builds max_executors max_executors_per_slave p =
    elim (Queue.get p.builds_waiting_for_slaves) [
      | none ↦ none
      | some (i, q) ↦ some (
          get (builds i) max_executors max_executors_per_slave
            (record p { builds_waiting_for_slaves = q }))
    ]

pub record Allocation : Type 0 where
  pub slaves : Dict ℕ Slave
  pub idle_slaves : List ℕ
  pub scheduler : Scheduler
  pub raised : Option Error

-- What comes of the calls to a slave: whether it is alive, and the answers to a setup and to a kill.
pub record Answers : Type 0 where
  pub alive : Shown
  pub set_up : Reply
  pub kill : Reply

abbrev pub write_slave : Slave → Allocation → Allocation
write_slave sl a = record a { slaves = insert sl.slave_id sl a.slaves }

abbrev after_idle : Idled → Allocation → Allocation
after_idle r a = elim r.raises [
  | none ↦ record (write_slave r.slave a) { idle_slaves = put r.slave.slave_id a.idle_slaves }
  | some slave_marked_for_shutdown ↦ write_slave r.slave a
  | some e ↦ record (write_slave r.slave a) { raised = some e }
]

unfoldable pub add_idle_slave : Reply → Slave → Allocation → Allocation
unfolding mark_as_idle put
add_idle_slave r sl a = after_idle (mark_as_idle r sl) a

abbrev allocated : (Scheduler × Slave) × Bool → Allocation → Allocation
allocated ((st, sl), _) a = record (write_slave sl a) { scheduler = st }

-- The slave `sl` is alive; the scheduler is looked at once more.
unfoldable pub allocate_or_return : Fysom → ℕ → Answers → Slave → Allocation → Allocation
unfolding add_idle_slave
allocate_or_return fysom now r sl a =
    if needs_more_slaves a.scheduler
    then allocated (allocate_slave fysom now r.set_up sl a.scheduler) a
    else add_idle_slave r.kill sl a

-- What other threads do to the scheduler and to the slave while `is_alive` waits for its answer.
pub record Meanwhile : Type 0 where
  pub to_scheduler : Scheduler → Scheduler
  pub to_slave : Slave → Slave

abbrev pub nothing : Meanwhile
nothing = record { to_scheduler = λ st. st; to_slave = λ sl. sl }

-- A round with the slave `sl` from the queue.
unfoldable pub allocate_claimed : Fysom → ℕ → Answers → Meanwhile → Slave → Allocation → Allocation
unfolding allocate_or_return
allocate_claimed fysom now r meanwhile sl a =
    let (sl', is_alive) = check_alive r.alive sl in
    if sl.is_in_shutdown_mode
    then a
    else if not is_alive
    then write_slave sl' a
    else let sl'' = meanwhile.to_slave sl' in
      allocate_or_return fysom now r sl''
        (record (write_slave sl'' a) { scheduler = meanwhile.to_scheduler a.scheduler })

-- A round in which no other thread does anything; the queue holds objects of slaves.
unfoldable pub serve : Fysom → ℕ → Answers → ℕ → List ℕ → Allocation → Allocation
unfolding allocate_claimed
serve fysom now r i rest a = elim (lookup i a.slaves) [
  | none ↦ record a { idle_slaves = rest }
  | some sl ↦ allocate_claimed fysom now r nothing sl (record a { idle_slaves = rest })
]

-- `n` rounds of the loop at most. It ends when the build needs no more slaves, and waits when no
-- slave is idle.
unfoldable pub slave_allocation_loop : Fysom → ℕ → (ℕ → Answers) → ℕ → Allocation → Allocation
unfolding serve pop_back
slave_allocation_loop fysom now r zero a = a
slave_allocation_loop fysom now r (suc n) a = elim (needs_more_slaves a.scheduler) [
  | false ↦ a
  | true ↦ elim (pop_back a.idle_slaves) [
    | none ↦ a
    | some (i, is') ↦ slave_allocation_loop fysom now r n (serve fysom now (r i) i is' a)
  ]
]
