-- ===== src/Master/Scheduler.antt =====
-- app/master/build_scheduler.py: how the subjobs of a build come to slaves. A method changes the
-- scheduler with its build, and the one slave that it is given. The answers of that slave's service
-- to the calls of a step are an argument.
pub mod Execution
pub mod Executors
pub mod Allocation
mod Examples
use cluster_runner_jie.Prelude.{
  ℕ, zero, suc, ◌+◌, min, Bool, true, false, not, ◌&&◌, ◌||◌, Option, none, some, List, [], ◌∷◌,
  ◌++◌, length, leb, ◌==◌, if◌then◌else◌,
}
use cluster_runner_jie.Prelude.Int.{ℤ, pos, negsuc}
use cluster_runner_jie.Prelude.Dict.{lookup, ℕ_eq}
use cluster_runner_jie.Errors.{Error, exception, Result, ok, err}
use cluster_runner_jie.Util.Queue
use cluster_runner_jie.Util.Queue.{Queue}
use cluster_runner_jie.Master.Subjob.{Subjob, mark_in_progress}
use cluster_runner_jie.Master.Fsm.Fysom.{Fysom}
use cluster_runner_jie.Master.Build.{Build, is_canceled, mark_started}
use cluster_runner_jie.Master.Build.Subjobs.{put_subjob}
use cluster_runner_jie.Master.Slave.{
  Slave, Reply, setup, teardown, start_subjob, claim_executor, free_executor,
}

pub record Scheduler : Type 0 where
  pub build : Build
  pub max_executors : ℕ
  pub max_executors_per_slave : ℕ
  -- ids of slaves
  pub slaves_allocated : List ℕ
  pub build_started : Bool
  pub num_executors_allocated : ℕ
  pub num_executors_in_use : ℕ
  -- how often the build was put on the pool's queue of builds that wait for slaves
  pub waiting : ℕ

unfoldable pub new_scheduler : Build → ℕ → ℕ → Scheduler
new_scheduler build max_executors max_executors_per_slave = record {
  build = build;
  max_executors = max_executors;
  max_executors_per_slave = max_executors_per_slave;
  slaves_allocated = [];
  build_started = false;
  num_executors_allocated = 0;
  num_executors_in_use = 0;
  waiting = 0;
}

-- A build that a scheduler is given is prepared: it has its queues.
abbrev pub nothing_unstarted : Option (Queue ℕ) → Bool
nothing_unstarted none = true
nothing_unstarted (some q) = Queue.empty q

unfoldable pub needs_more_slaves : Scheduler → Bool
needs_more_slaves st =
    not (leb st.max_executors st.num_executors_allocated)
    && not (nothing_unstarted st.build.unstarted_subjobs)
    && not (leb (length st.build.all_subjobs_by_id) st.num_executors_allocated)
    && not (is_canceled st.build)

unfoldable pub allocate_slave : Fysom → ℕ → Reply → Slave → Scheduler → (Scheduler × Slave) × Bool
unfolding mark_started setup
allocate_slave fysom now r sl st =
    let build = if st.build_started then st.build else mark_started fysom now st.build in
    let (sl', is_set_up) = setup r build.build_id sl in
    (
      (
        record st {
          build = build;
          build_started = true;
          num_executors_allocated =
              st.num_executors_allocated + min sl.num_executors st.max_executors_per_slave;
          slaves_allocated = st.slaves_allocated ++ sl.slave_id ∷ [];
        },
        sl',
      ),
      is_set_up,
    )

abbrev pub is_in : ℕ → List ℕ → Bool
is_in i [] = false
is_in i (j ∷ js) = (j == i) || is_in i js

-- `list.remove`: the first one
unfoldable pub remove_slave : ℕ → List ℕ → List ℕ
remove_slave i [] = []
remove_slave i (j ∷ js) = let rest = remove_slave i js in if j == i then js else j ∷ rest

-- The scheduler, the slave and what is raised.
pub record Step : Type 0 where
  pub scheduler : Scheduler
  pub slave : Slave
  pub raises : Option Error

unfoldable pub deallocate : Reply → Slave → Scheduler → Step
unfolding teardown remove_slave needs_more_slaves
deallocate r sl st =
    let st' = record st { slaves_allocated = remove_slave sl.slave_id st.slaves_allocated } in
    if is_in sl.slave_id st.slaves_allocated
    then record {
      scheduler =
          if (length st'.slaves_allocated == 0) && needs_more_slaves st'
          then record st' { waiting = st'.waiting + 1 }
          else st';
      slave = teardown r sl;
      raises = none;
    }
    else record { scheduler = st; slave = sl; raises = none }

abbrev after_free : Reply → Scheduler → Slave × Result ℤ → Step
after_free r st (sl, err e) = record { scheduler = st; slave = sl; raises = some e }
after_free r st (sl, ok (pos zero)) = deallocate r sl st
after_free r st (sl, ok _) = record { scheduler = st; slave = sl; raises = none }

unfoldable pub free_slave_executor : Reply → Slave → Scheduler → Step
unfolding free_executor deallocate
free_slave_executor r sl st = after_free r st (free_executor sl)

abbrev pub with_unstarted : Option (Queue ℕ) → Scheduler → Scheduler
with_unstarted q st = record st { build = record st.build { unstarted_subjobs = q } }

abbrev pub in_progress_on : ℕ → ℕ → Option Subjob → Build → Build
in_progress_on i slave none b = b
in_progress_on i slave (some s) b = put_subjob i (mark_in_progress slave s) b

-- The answers to `start_subjob` and to a teardown.
pub record Replies : Type 0 where
  pub start : Reply
  pub tear_down : Reply

-- The subjob `i` has been taken from the queue. `put` finds the room that it left.
unfoldable pub send : Replies → ℕ → Queue ℕ → Slave → Scheduler → Step
unfolding start_subjob mark_in_progress free_slave_executor
send r i q sl st = elim (start_subjob r.start sl) [
  | none ↦ record {
    scheduler = record st {
      build =
          in_progress_on i sl.slave_id (lookup i st.build.all_subjobs_by_id)
            (record st.build { unstarted_subjobs = some q });
    };
    slave = sl;
    raises = none;
  }
  | some e ↦
      free_slave_executor r.tear_down sl
        (with_unstarted (some (record q { items = q.items ++ i ∷ [] })) st)
]

abbrev pub after_get : Replies → Slave → Scheduler → Option (ℕ × Queue ℕ) → Step
after_get r sl st none = free_slave_executor r.tear_down sl st
after_get r sl st (some (i, q)) = send r i q sl st

abbrev pub take_next : Replies → Slave → Scheduler → Option (Queue ℕ) → Step
take_next r sl st none = record { scheduler = st; slave = sl; raises = some exception }
take_next r sl st (some q) = after_get r sl st (Queue.get q)

unfoldable pub execute_next_subjob_or_free_executor : Replies → Slave → Scheduler → Step
unfolding send free_slave_executor
execute_next_subjob_or_free_executor r sl st =
    if is_canceled st.build
    then free_slave_executor r.tear_down sl st
    else take_next r sl st st.build.unstarted_subjobs

abbrev pub claim_and_execute : Replies → Scheduler → Slave × Result ℤ → Step
claim_and_execute r st (sl, err e) = record { scheduler = st; slave = sl; raises = some e }
claim_and_execute r st (sl, ok n) =
    execute_next_subjob_or_free_executor r sl
      (record st { num_executors_in_use = st.num_executors_in_use + 1 })

-- The loop over `range(slave.num_executors)`: `n` more rounds, after `count` of them.
unfoldable pub begin_executions : (ℕ → Replies) → ℕ → ℕ → Slave → Scheduler → Step
unfolding claim_executor execute_next_subjob_or_free_executor
begin_executions r zero count sl st = record { scheduler = st; slave = sl; raises = none }
begin_executions r (suc n) count sl st =
    elim (leb st.max_executors st.num_executors_in_use || leb st.max_executors_per_slave count) [
      | true ↦ record { scheduler = st; slave = sl; raises = none }
      | false ↦
          let step = claim_and_execute (r count) st (claim_executor sl) in
          elim step.raises [
            | some e ↦ step
            | none ↦ begin_executions r n (count + 1) step.slave step.scheduler
          ]
    ]

unfoldable pub begin_subjob_executions_on_slave : (ℕ → Replies) → Slave → Scheduler → Step
unfolding begin_executions
begin_subjob_executions_on_slave r sl st = begin_executions r sl.num_executors 0 sl st
