-- ===== src/Slave/ClusterSlave/Teardowns.antt =====
-- How often builds are torn down.
use cluster_runner_jie.Prelude.{
  ℕ, ◌+◌, ◌≤◌, Bool, true, false, Option, none, some, arith, if◌then◌else◌, List, ◌≡◌, ◌++◌,
}
use cluster_runner_jie.Errors.{Error, exception}
use cluster_runner_jie.Util.SingleUseCoin.{SingleUseCoin, spend}
use cluster_runner_jie.Slave.ClusterSlave.{
  ClusterSlave, Setup, Work, SetupOutcome, new_slave, setup_build, async_setup_build,
  notify_master_of_state_change, teardown_build, begin_teardown, do_build_teardown_and_reset,
  send_master_idle_notification, disconnect_from_master, connect_to_master, start_working_on_subjob,
  finish_subjob, fail_subjob, raising, then_wait, after_setup, completes, fails, raises,
}
use cluster_runner_jie.Slave.ClusterSlave.Heartbeats.{Heartbeat, run_heartbeat}
use cluster_runner_jie.Slave.ClusterSlave.Steps.{
  Step, Reach, begins, then_step, sets_up, runs_setup, tears_down, resets, is_idle, starts,
  finishes, breaks, disconnects, connects, beats,
}

abbrev pub left : Option SingleUseCoin → ℕ
left none = 0
left (some c) = if c.is_spent then 0 else 1

IsOrderly : ClusterSlave → Type 0
IsOrderly s = s.builds_torn_down + left s.build_teardown_coin ≤ s.builds_set_up

module _ (s : ClusterSlave) (h : IsOrderly s) where
  setup_build-IsOrderly : (i j : ℕ) (b : Bool) → IsOrderly (setup_build i j b s).0
  unfolding setup_build IsOrderly
  setup_build-IsOrderly i j b = ground arith

  raising-IsOrderly : (e : Option Error) → IsOrderly (raising e s)
  unfolding IsOrderly
  raising-IsOrderly none = h
  raising-IsOrderly (some e) = h

  after_setup-IsOrderly :
      (a : Option Error) (xs : List ℕ) (o : SetupOutcome) → IsOrderly (after_setup a xs o s)
  unfolding notify_master_of_state_change IsOrderly
  after_setup-IsOrderly none xs completes = h
  after_setup-IsOrderly (some e) xs completes = h
  after_setup-IsOrderly none xs (fails n) = h
  after_setup-IsOrderly (some e) xs (fails n) = h
  after_setup-IsOrderly a xs (raises n) = h

  teardown_build-IsOrderly : (i : Option ℕ) → IsOrderly (teardown_build i s).0
  unfolding teardown_build IsOrderly
  teardown_build-IsOrderly i = ground arith

  reset-IsOrderly : (e : Option Error) → IsOrderly (do_build_teardown_and_reset e s).0
  unfolding do_build_teardown_and_reset spend IsOrderly
  reset-IsOrderly e = ground arith

  then_wait-IsOrderly : (e : Option Error) → IsOrderly (then_wait (s, e))
  unfolding IsOrderly
  then_wait-IsOrderly none = h
  then_wait-IsOrderly (some e) = h

  notify-IsOrderly : (b : Bool) (a : Option Error) → IsOrderly (send_master_idle_notification b a s)
  unfolding send_master_idle_notification notify_master_of_state_change IsOrderly
  notify-IsOrderly false a = h
  notify-IsOrderly true none = h
  notify-IsOrderly true (some e) = h

  disconnect-IsOrderly : (b : Bool) (a : Option Error) → IsOrderly (disconnect_from_master b a s)
  unfolding disconnect_from_master notify_master_of_state_change IsOrderly
  disconnect-IsOrderly false a = h
  disconnect-IsOrderly true none = h
  disconnect-IsOrderly true (some e) = h

  connect-IsOrderly : (i : Option ℕ) → IsOrderly (connect_to_master i s)
  unfolding connect_to_master IsOrderly
  connect-IsOrderly none = h
  connect-IsOrderly (some i) = h

  start-IsOrderly :
      (t : ClusterSlave) (i j : ℕ) (e : Option Error)
      → start_working_on_subjob i j s ≡ some (t, e)
      → IsOrderly t
  unfolding start_working_on_subjob IsOrderly
  start-IsOrderly t i j e r = ground arith

  finish-IsOrderly :
      (w : Work) (ws : List Work) → IsOrderly (finish_subjob w (record s { working = ws }))
  unfolding finish_subjob IsOrderly
  finish-IsOrderly w ws = h

  fail-IsOrderly :
      (w : Work) (e : Error) (ws : List Work)
      → IsOrderly (fail_subjob e w (record s { working = ws }))
  unfolding fail_subjob IsOrderly
  fail-IsOrderly w e ws = h

  beat-IsOrderly : (b : Heartbeat) → IsOrderly (run_heartbeat b s)
  unfolding run_heartbeat IsOrderly
  beat-IsOrderly b = ground arith

if-intro : {A : Type 0} (P : A → Type 0) (b : Bool) {x y : A} → P x → P y → P (if b then x else y)
if-intro P true p q = p
if-intro P false p q = q

abbrev based : ClusterSlave → Setup → ClusterSlave
based s w = record s { base_executor_index = some w.start_index }

based-IsOrderly : (s : ClusterSlave) → IsOrderly s → (w : Setup) → IsOrderly (based s w)
unfolding IsOrderly
based-IsOrderly s h w = h

async_setup_build-IsOrderly :
    (s : ClusterSlave)
    → IsOrderly s
    → (w : Setup) (o : SetupOutcome) (a : Option Error) → IsOrderly (async_setup_build w o a s)
unfolding async_setup_build
async_setup_build-IsOrderly s h w o a =
    if-intro IsOrderly s.has_project_type
      (after_setup-IsOrderly (based s w) (based-IsOrderly s h w) a w.executors o)
      (raising-IsOrderly (based s w) (based-IsOrderly s h w) (some exception))

begin_teardown-IsOrderly :
    (s : ClusterSlave) → IsOrderly s → (e : Option Error) → IsOrderly (begin_teardown e s)
unfolding begin_teardown
begin_teardown-IsOrderly s h e =
    then_wait-IsOrderly (do_build_teardown_and_reset e s).0 (reset-IsOrderly s h e)
      (do_build_teardown_and_reset e s).1

Step-IsOrderly : {s t : ClusterSlave} → Step s t → IsOrderly s → IsOrderly t
unfolding IsOrderly
Step-IsOrderly {s} (sets_up i j b) h = setup_build-IsOrderly s h i j b
Step-IsOrderly (runs_setup before after w o a e) h = async_setup_build-IsOrderly _ h w o a
Step-IsOrderly {s} (tears_down i) h = teardown_build-IsOrderly s h i
Step-IsOrderly (resets n f e) h = begin_teardown-IsOrderly _ h f
Step-IsOrderly (is_idle n r a e f) h = notify-IsOrderly _ h r a
Step-IsOrderly {s} {t} (starts i j e r) h = start-IsOrderly s h t i j e r
Step-IsOrderly {s} (breaks before after w x e) h = fail-IsOrderly s h w x (before ++ after)
Step-IsOrderly {s} (finishes before after w e) h = finish-IsOrderly s h w (before ++ after)
Step-IsOrderly {s} (disconnects r a) h = disconnect-IsOrderly s h r a
Step-IsOrderly {s} (connects i) h = connect-IsOrderly s h i
Step-IsOrderly {s} (beats b) h = beat-IsOrderly s h b

Reach-IsOrderly : {n k : ℕ} {s : ClusterSlave} → Reach n k s → IsOrderly s
unfolding IsOrderly new_slave
Reach-IsOrderly begins = omega arith
Reach-IsOrderly (then_step r st) = Step-IsOrderly st (Reach-IsOrderly r)

-- In every state that a slave comes to, the project type was asked at most as often to tear a
-- build down as builds were set up, and at most once less than that while the coin of the current
-- build is not spent.
pub torn_down_once :
    {n k : ℕ} {s : ClusterSlave}
    → Reach n k s
    → s.builds_torn_down + left s.build_teardown_coin ≤ s.builds_set_up
unfolding IsOrderly
torn_down_once r = Reach-IsOrderly r
