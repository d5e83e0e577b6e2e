-- ===== src/Util/UnhandledExceptionHandler.antt =====
-- app/util/unhandled_exception_handler.py and app/util/safe_thread.py. A callback is a number;
-- whether it raises is an argument. The part of `__exit__` that runs callbacks holds a lock, so that
-- the ends of several threads are a sequence.
pub mod Exits
mod Examples
use cluster_runner_jie.Prelude.{
  ℕ, zero, suc, Bool, true, false, ◌||◌, Option, none, some, List, [], ◌∷◌, ◌++◌, if◌then◌else◌,
}
use cluster_runner_jie.Prelude.Int.{ℤ, pos}
use cluster_runner_jie.Util.Queue
use cluster_runner_jie.Util.Queue.{Queue}

-- What ends a thread: `sys.exit`, a signal's `AppTeardown`, a `KeyboardInterrupt`, another exception.
pub data Raised : Type 0 where
  system_exit : ℤ → Raised
  app_teardown keyboard_interrupt other_exception : Raised

pub record UnhandledExceptionHandler : Type 0 where
  -- a `LifoQueue`: the callback that was added last is the first
  pub teardown_callback_stack : List ℕ
  pub handled_exceptions : Queue Raised
  pub teardown_callback_raised_exception : Bool
  -- the callbacks that were executed, in their order
  pub executed : List ℕ

abbrev pub handled_exception_exit_code : ℤ
handled_exception_exit_code = pos 1

abbrev pub exception_during_teardown_exit_code : ℤ
exception_during_teardown_exit_code = pos 2

abbrev pub new : UnhandledExceptionHandler
new = record {
  teardown_callback_stack = [];
  handled_exceptions = Queue.new 0;
  teardown_callback_raised_exception = false;
  executed = [];
}

abbrev pub add_teardown_callback : ℕ → UnhandledExceptionHandler → UnhandledExceptionHandler
add_teardown_callback c h = record h { teardown_callback_stack = c ∷ h.teardown_callback_stack }

-- The loop over the stack; no callback adds another one.
unfoldable pub execute_callbacks :
    (ℕ → Bool) → List ℕ → UnhandledExceptionHandler → UnhandledExceptionHandler
execute_callbacks raises [] h = record h { teardown_callback_stack = [] }
execute_callbacks raises (c ∷ cs) h = execute_callbacks raises cs (record h {
  teardown_callback_raised_exception = h.teardown_callback_raised_exception || raises c;
  executed = h.executed ++ c ∷ [];
})

abbrev pub put_handled : Raised → UnhandledExceptionHandler → UnhandledExceptionHandler
put_handled e h = elim (Queue.put e h.handled_exceptions) [
  | none ↦ h
  | some q ↦ record h { handled_exceptions = q }
]

unfoldable pub handle :
    (ℕ → Bool) → Option Raised → UnhandledExceptionHandler → UnhandledExceptionHandler
unfolding execute_callbacks
handle raises none h = h
handle raises (some e) h = put_handled e (execute_callbacks raises h.teardown_callback_stack h)

-- The code of the `SystemExit` that the main thread raises, if it raises one.
abbrev pub code_of_teardown : UnhandledExceptionHandler → Option ℤ
code_of_teardown h =
    if h.teardown_callback_raised_exception then some exception_during_teardown_exit_code else none

abbrev pub code_of : Raised → UnhandledExceptionHandler → Option ℤ
code_of (system_exit c) h = some c
code_of other_exception h = some handled_exception_exit_code
code_of app_teardown h = code_of_teardown h
code_of keyboard_interrupt h = code_of_teardown h

abbrev pub exit_code : UnhandledExceptionHandler → UnhandledExceptionHandler × Option ℤ
exit_code h = elim (Queue.get h.handled_exceptions) [
  | none ↦ (h, code_of_teardown h)
  | some (e, q) ↦ (record h { handled_exceptions = q }, code_of e h)
]

-- `__exit__`, on the main thread or on another one
unfoldable pub exit :
    (ℕ → Bool)
    → Bool
    → Option Raised
    → UnhandledExceptionHandler
    → UnhandledExceptionHandler × Option ℤ
unfolding handle
exit raises is_main e h = let h' = handle raises e h in if is_main then exit_code h' else (h', none)

-- `SafeThread.run`, where the thread's function raises or returns
unfoldable pub run_thread :
    (ℕ → Bool) → Option Raised → UnhandledExceptionHandler → UnhandledExceptionHandler
unfolding exit
run_thread raises e h = (exit raises false e h).0

unfoldable pub run_threads :
    (ℕ → Bool) → List (Option Raised) → UnhandledExceptionHandler → UnhandledExceptionHandler
unfolding run_thread
run_threads raises [] h = h
run_threads raises (e ∷ es) h = run_threads raises es (run_thread raises e h)
