-- ===== src/Slave/ClusterSlave/Steps.antt =====
-- The steps of a slave: the requests it is given, and the parts of its threads between two points
-- where another thread may go on. A step of a thread takes the thread from its list.
use cluster_runner_jie.Prelude.{ℕ, suc, Bool, Option, some, List, ◌∷◌, ◌++◌, true, ◌≡◌}
use cluster_runner_jie.Errors.{Error}
use cluster_runner_jie.Util.Queue
use cluster_runner_jie.Slave.ClusterSlave.{
  ClusterSlave, Setup, Work, SetupOutcome, new_slave, setup_build, async_setup_build,
  teardown_build, begin_teardown, send_master_idle_notification, disconnect_from_master,
  connect_to_master, start_working_on_subjob, finish_subjob, fail_subjob,
}
use cluster_runner_jie.Slave.ClusterSlave.Heartbeats.{Heartbeat, run_heartbeat}

pub data Step : ClusterSlave → ClusterSlave → Type 0 where
  sets_up :
      {s : ClusterSlave} (build_id start_index : ℕ) (created : Bool)
      → Step s (setup_build build_id start_index created s).0
  runs_setup :
      {s : ClusterSlave} (before after : List Setup) (w : Setup) (outcome : SetupOutcome)
      (answer : Option Error)
      → s.setups ≡ before ++ w ∷ after
      → Step s (async_setup_build w outcome answer (record s { setups = before ++ after }))
  tears_down : {s : ClusterSlave} (build_id : Option ℕ) → Step s (teardown_build build_id s).0
  resets :
      {s : ClusterSlave} (n : ℕ) (failure : Option Error)
      → s.teardowns ≡ suc n
      → Step s (begin_teardown failure (record s { teardowns = n }))
  is_idle :
      {s : ClusterSlave} (n : ℕ) (is_responsive : Bool) (answer : Option Error)
      → s.waiting ≡ suc n
      → Queue.full s.idle_executors ≡ true
      → Step s (send_master_idle_notification is_responsive answer (record s { waiting = n }))
  starts :
      {s t : ClusterSlave} (build_id subjob_id : ℕ) (error : Option Error)
      → start_working_on_subjob build_id subjob_id s ≡ some (t, error)
      → Step s t
  finishes :
      {s : ClusterSlave} (before after : List Work) (w : Work)
      → s.working ≡ before ++ w ∷ after
      → Step s (finish_subjob w (record s { working = before ++ after }))
  breaks :
      {s : ClusterSlave} (before after : List Work) (w : Work) (e : Error)
      → s.working ≡ before ++ w ∷ after
      → Step s (fail_subjob e w (record s { working = before ++ after }))
  disconnects :
      {s : ClusterSlave} (is_responsive : Bool) (answer : Option Error)
      → Step s (disconnect_from_master is_responsive answer s)
  connects : {s : ClusterSlave} (answer : Option ℕ) → Step s (connect_to_master answer s)
  beats : {s : ClusterSlave} (h : Heartbeat) → Step s (run_heartbeat h s)

-- The states that a slave of `num_executors` executors comes to.
pub data Reach (num_executors threshold : ℕ) : ClusterSlave → Type 0 where
  begins : Reach num_executors threshold (new_slave num_executors threshold)
  then_step :
      {s t : ClusterSlave}
      → Reach num_executors threshold s
      → Step s t
      → Reach num_executors threshold t
