-- ===== src/Slave/ClusterSlave/Examples.antt =====
-- A slave with two executors: a build is set up and a subjob started, then the build is torn down.
use cluster_runner_jie.Prelude.{
  ℕ, suc, ◌≤◌, ◌<◌, true, false, none, some, [], ◌∷◌, ◌++◌, ◌≡◌, ◌≢◌, ◌↔◌, refl, arith, ◌-◌, ◌+◌,
  Option,
}
use mathlib.Core.List.{Perm}
use cluster_runner_jie.Errors.{Error}
use cluster_runner_jie.Util.Queue
use cluster_runner_jie.Slave.ClusterSlave.{
  ClusterSlave, new_slave, setup_build, async_setup_build, completes, teardown_build,
  begin_teardown, start_working_on_subjob, configure, ids_from,
}
use cluster_runner_jie.Slave.ClusterSlave.Posts.{post_results}
use cluster_runner_jie.Slave.ClusterSlave.Heartbeats.{says_alive}
use cluster_runner_jie.Slave.ClusterSlave.Steps.{
  Reach, begins, then_step, sets_up, runs_setup, starts, tears_down, resets,
}
use cluster_runner_jie.Slave.ClusterSlave.Idle.{idle_or_working, executor_ids}
use cluster_runner_jie.Slave.ClusterSlave.Teardowns.{torn_down_once, left}
use cluster_runner_jie.Slave.ClusterSlave.Heartbeats.{gives_up_iff, run_heartbeats, no_answers}
use cluster_runner_jie.Slave.ClusterSlave.Posts.{posts_bounded}

abbrev fresh : ClusterSlave
fresh = new_slave 2 10

abbrev with_build : ClusterSlave
with_build = (setup_build 7 4 true fresh).0

abbrev set_up : ClusterSlave
set_up =
    async_setup_build (record { executors = 0 ∷ 1 ∷ []; start_index = 4 }) completes none
      (record with_build { setups = [] })

abbrev state_of : ClusterSlave → Option (ClusterSlave × Option Error) → ClusterSlave
state_of s none = s
state_of s (some (t, e)) = t

abbrev working : ClusterSlave
working = state_of set_up (start_working_on_subjob 7 0 set_up)

abbrev asked : ClusterSlave
asked = (teardown_build (some 7) working).0

abbrev torn_down : ClusterSlave
torn_down = begin_teardown none (record asked { teardowns = 0 })

Reach-set_up : Reach 2 10 set_up
unfolding new_slave setup_build
Reach-set_up =
    then_step (then_step begins (sets_up 7 4 true)) (runs_setup [] [] _ completes none refl)

Reach-working : Reach 2 10 working
unfolding new_slave setup_build async_setup_build configure start_working_on_subjob
Reach-working = then_step Reach-set_up (starts 7 0 none refl)

Reach-torn_down : Reach 2 10 torn_down
unfolding new_slave setup_build async_setup_build configure start_working_on_subjob teardown_build
Reach-torn_down = then_step (then_step Reach-working (tears_down (some 7))) (resets 0 none refl)

idle_or_working_example :
    Perm
      (working.idle_executors.items ++ executor_ids (working.lost ++ working.working))
      (ids_from 0 2)
    × (Queue.full working.idle_executors ≡ true ↔ working.lost ++ working.working ≡ [])
idle_or_working_example = idle_or_working (omega arith) Reach-working

torn_down_once_example :
    torn_down.builds_torn_down + left torn_down.build_teardown_coin ≤ torn_down.builds_set_up
torn_down_once_example = torn_down_once Reach-torn_down

was_torn_down : torn_down.builds_torn_down ≡ 1
unfolding new_slave setup_build async_setup_build configure start_working_on_subjob teardown_build
    begin_teardown
was_torn_down = refl

gives_up_iff_example :
    ((run_heartbeats (no_answers 10) fresh).has_exited ≡ true
      ↔ fresh.heartbeat_failure_threshold ≤ fresh.heartbeat_failure_count + 10)
    × ((run_heartbeats (says_alive true ∷ no_answers 10) fresh).has_exited ≡ true
        ↔ fresh.heartbeat_failure_threshold ≤ 10)
gives_up_iff_example = gives_up_iff 9 fresh (unfold new_slave in refl)

abbrev third_time : ℕ → ℕ
third_time (suc (suc i)) = 200
third_time i = 503

at_most_five_posts :
    let r = post_results third_time 5 0 in
    r.0 ≤ 5
    × ((i : ℕ) → suc i < r.0 → third_time i ≢ 200)
    × (r.1 ≡ true → third_time (r.0 - 1) ≡ 200)
    × (r.1 ≡ false → r.0 ≡ 5 × ((i : ℕ) → i < 5 → third_time i ≢ 200))
at_most_five_posts = posts_bounded third_time
