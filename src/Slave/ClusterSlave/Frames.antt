-- ===== src/Slave/ClusterSlave/Frames.antt =====
-- The parts of the state of a slave that its operations leave alone.
use cluster_runner_jie.Prelude.{
  ℕ, Bool, true, false, Option, none, some, List, ◌++◌, ◌≡◌, ◌∙◌, refl, arith,
}
use cluster_runner_jie.Errors.{Error}
use cluster_runner_jie.Util.Queue.{Queue}
use cluster_runner_jie.Util.SingleUseCoin.{spend}
use cluster_runner_jie.Slave.ClusterSlave.{
  ClusterSlave, Setup, Work, SetupOutcome, setup_build, async_setup_build,
  notify_master_of_state_change, teardown_build, begin_teardown, do_build_teardown_and_reset,
  send_master_idle_notification, disconnect_from_master, raising, then_wait, after_setup, completes,
  fails, raises,
}
use cluster_runner_jie.Slave.ClusterSlave.Heartbeats.{Heartbeat, run_heartbeat}

-- The part of the state that subjobs change, with those whose threads have raised.
pub record Pool : Type 0 where
  pub num_executors : ℕ
  pub idle : Queue ℕ
  pub working : List Work

abbrev pub pool : ClusterSlave → Pool
pool s = record {
  num_executors = s.num_executors;
  idle = s.idle_executors;
  working = s.lost ++ s.working;
}

pub pool-setup_build :
    (s : ClusterSlave) (i j : ℕ) (created : Bool) → pool (setup_build i j created s).0 ≡ pool s
unfolding setup_build
pool-setup_build s i j created = ground arith

pub pool-raising : (e : Option Error) (s : ClusterSlave) → pool (raising e s) ≡ pool s
pool-raising none s = refl
pool-raising (some e) s = refl

pub pool-after_setup :
    (answer : Option Error) (xs : List ℕ) (o : SetupOutcome) (s : ClusterSlave)
    → pool (after_setup answer xs o s) ≡ pool s
unfolding notify_master_of_state_change
pool-after_setup none xs completes s = refl
pool-after_setup (some e) xs completes s = refl
pool-after_setup none xs (fails n) s = refl
pool-after_setup (some e) xs (fails n) s = refl
pool-after_setup answer xs (raises n) s = refl

pub pool-async_setup_build :
    (answer : Option Error) (w : Setup) (o : SetupOutcome) (s : ClusterSlave)
    → pool (async_setup_build w o answer s) ≡ pool s
unfolding async_setup_build
pool-async_setup_build answer w o s = ground (
  arith,
  pool-after_setup answer w.executors o (record s { base_executor_index = some w.start_index }),
)

pub pool-teardown_build : (s : ClusterSlave) (i : Option ℕ) → pool (teardown_build i s).0 ≡ pool s
unfolding teardown_build
pool-teardown_build s i = ground arith

pub pool-then_wait : (s : ClusterSlave) (e : Option Error) → pool (then_wait (s, e)) ≡ pool s
pool-then_wait s none = refl
pool-then_wait s (some e) = refl

pub pool-do_build_teardown_and_reset :
    (s : ClusterSlave) (e : Option Error) → pool (do_build_teardown_and_reset e s).0 ≡ pool s
unfolding do_build_teardown_and_reset spend
pool-do_build_teardown_and_reset s e = ground arith

pub pool-begin_teardown : (s : ClusterSlave) (e : Option Error) → pool (begin_teardown e s) ≡ pool s
unfolding begin_teardown
pool-begin_teardown s e =
    pool-then_wait (do_build_teardown_and_reset e s).0 (do_build_teardown_and_reset e s).1
    ∙ pool-do_build_teardown_and_reset s e

pub pool-notify :
    (s : ClusterSlave) (b : Bool) (e : Option Error)
    → pool (send_master_idle_notification b e s) ≡ pool s
unfolding send_master_idle_notification notify_master_of_state_change
pool-notify s false e = refl
pool-notify s true none = refl
pool-notify s true (some e) = refl

pub pool-disconnect :
    (s : ClusterSlave) (b : Bool) (e : Option Error) → pool (disconnect_from_master b e s) ≡ pool s
unfolding disconnect_from_master notify_master_of_state_change
pool-disconnect s false e = refl
pool-disconnect s true none = refl
pool-disconnect s true (some e) = refl

pub pool-run_heartbeat : (s : ClusterSlave) (h : Heartbeat) → pool (run_heartbeat h s) ≡ pool s
unfolding run_heartbeat
pool-run_heartbeat s h = ground arith
