-- ===== src/Util/UnhandledExceptionHandler/Exits.antt =====
-- Which callbacks run, and with which code the process exits.
use cluster_runner_jie.Prelude.{
  ℕ, Bool, true, false, ◌||◌, Option, none, some, List, [], ◌∷◌, ◌++◌, ◌≡◌, refl, sym, ap, subst,
  ◌∙◌, arith, if◌then◌else◌,
}
use mathlib.Core.List.{append_assoc, append-nil}
use cluster_runner_jie.Prelude.Int.{ℤ}
use cluster_runner_jie.Util.UnhandledExceptionHandler.{
  Raised, system_exit, app_teardown, keyboard_interrupt, other_exception, UnhandledExceptionHandler,
  handled_exception_exit_code, exception_during_teardown_exit_code, new, add_teardown_callback,
  execute_callbacks, put_handled, exit_code, handle, exit, run_thread, run_threads,
}

-- A handler to which callbacks were added, the last one first in the list.
abbrev pub with_callbacks : List ℕ → UnhandledExceptionHandler
with_callbacks [] = new
with_callbacks (c ∷ cs) = add_teardown_callback c (with_callbacks cs)

abbrev pub any : (ℕ → Bool) → List ℕ → Bool
any raises [] = false
any raises (c ∷ cs) = raises c || any raises cs

-- The exceptions among the ends of threads.
abbrev pub exceptions : List (Option Raised) → List Raised
exceptions [] = []
exceptions (none ∷ es) = exceptions es
exceptions (some e ∷ es) = e ∷ exceptions es

-- What the exit of the main thread comes to: the first exception decides; a process that was only
-- asked to end exits with a code if a callback raised.
abbrev pub expected : List Raised → Bool → Option ℤ
expected [] failed = none
expected (system_exit c ∷ es) failed = some c
expected (other_exception ∷ es) failed = some handled_exception_exit_code
expected (app_teardown ∷ es) failed =
    if failed then some exception_during_teardown_exit_code else none
expected (keyboard_interrupt ∷ es) failed =
    if failed then some exception_during_teardown_exit_code else none

abbrev down : (ℕ → Bool) → List ℕ → List Raised → UnhandledExceptionHandler
down raises cs es = record {
  teardown_callback_stack = [];
  handled_exceptions = record { maxsize = 0; items = es };
  teardown_callback_raised_exception = any raises cs;
  executed = cs;
}

abbrev after : (ℕ → Bool) → List ℕ → List Raised → UnhandledExceptionHandler
after raises cs [] = with_callbacks cs
after raises cs (e ∷ es) = down raises cs (e ∷ es)

with_callbacks-shape :
    (cs : List ℕ) → with_callbacks cs ≡ record new { teardown_callback_stack = cs }
with_callbacks-shape [] = refl
with_callbacks-shape (c ∷ cs) = ap (add_teardown_callback c) (with_callbacks-shape cs)

execute_callbacks-all :
    (raises : ℕ → Bool) (cs : List ℕ) (h : UnhandledExceptionHandler)
    → execute_callbacks raises cs h ≡ record h {
      teardown_callback_stack = [];
      teardown_callback_raised_exception = h.teardown_callback_raised_exception || any raises cs;
      executed = h.executed ++ cs;
    }
unfolding execute_callbacks
execute_callbacks-all raises [] h = ground (arith, append-nil h.executed)
execute_callbacks-all raises (c ∷ cs) h =
    execute_callbacks-all raises cs _ ∙ ground (arith, append_assoc h.executed (c ∷ []) cs)

handle-first :
    (raises : ℕ → Bool) (cs : List ℕ) (e : Raised)
    → handle raises (some e) (with_callbacks cs) ≡ down raises cs (e ∷ [])
unfolding handle
handle-first raises cs e =
    ap (λ h. put_handled e (execute_callbacks raises h.teardown_callback_stack h))
      (with_callbacks-shape cs)
    ∙ ap (put_handled e)
        (execute_callbacks-all raises cs (record new { teardown_callback_stack = cs }))

handle-later :
    (raises : ℕ → Bool) (cs : List ℕ) (es : List Raised) (e : Raised)
    → handle raises (some e) (down raises cs es) ≡ down raises cs (es ++ e ∷ [])
unfolding handle execute_callbacks
handle-later raises cs es e = ground arith

handle-after :
    (raises : ℕ → Bool) (cs : List ℕ) (es : List Raised) (o : Option Raised)
    → handle raises o (after raises cs es) ≡ after raises cs (es ++ exceptions (o ∷ []))
handle-after raises cs [] none = unfold handle in refl
handle-after raises cs (x ∷ es) none =
    unfold handle in ap (λ l. down raises cs (x ∷ l)) (sym (append-nil es))
handle-after raises cs [] (some e) = handle-first raises cs e
handle-after raises cs (x ∷ es) (some e) = handle-later raises cs (x ∷ es) e

exceptions-cons :
    (o : Option Raised) (es : List (Option Raised))
    → exceptions (o ∷ []) ++ exceptions es ≡ exceptions (o ∷ es)
exceptions-cons none es = refl
exceptions-cons (some e) es = refl

run_threads-after :
    (raises : ℕ → Bool) (cs : List ℕ) (done : List Raised) (es : List (Option Raised))
    → run_threads raises es (after raises cs done) ≡ after raises cs (done ++ exceptions es)
unfolding run_threads run_thread exit
run_threads-after raises cs done [] = ap (after raises cs) (sym (append-nil done))
run_threads-after raises cs done (o ∷ es) =
    ap (run_threads raises es) (handle-after raises cs done o)
    ∙ run_threads-after raises cs (done ++ exceptions (o ∷ [])) es
    ∙ ap (after raises cs) (
        append_assoc done (exceptions (o ∷ [])) (exceptions es)
        ∙ ap (λ l. done ++ l) (exceptions-cons o es))

-- All of the callbacks, if there was an exception.
abbrev pub executed_by : List Raised → List ℕ → List ℕ
executed_by [] cs = []
executed_by (e ∷ es) cs = cs

abbrev Ends : (ℕ → Bool) → List ℕ → List Raised → UnhandledExceptionHandler × Option ℤ → Type 0
Ends raises cs es r = r.1 ≡ expected es (any raises cs) × r.0.executed ≡ executed_by es cs

exit_code-Ends :
    (raises : ℕ → Bool) (cs : List ℕ) (es : List Raised)
    → Ends raises cs es (exit_code (after raises cs es))
exit_code-Ends raises cs [] =
    subst (λ h. Ends raises cs [] (exit_code h)) (sym (with_callbacks-shape cs)) (refl, refl)
exit_code-Ends raises cs (system_exit c ∷ es) = (refl, refl)
exit_code-Ends raises cs (app_teardown ∷ es) = (refl, refl)
exit_code-Ends raises cs (keyboard_interrupt ∷ es) = (refl, refl)
exit_code-Ends raises cs (other_exception ∷ es) = (refl, refl)

exceptions-append :
    (es : List (Option Raised)) (o : Option Raised)
    → exceptions es ++ exceptions (o ∷ []) ≡ exceptions (es ++ o ∷ [])
exceptions-append [] o = refl
exceptions-append (none ∷ es) o = exceptions-append es o
exceptions-append (some e ∷ es) o = ap (λ l. e ∷ l) (exceptions-append es o)

-- Threads end, some with an exception, and the main thread ends after them. If there was an
-- exception, each callback ran once, the one that was added last first, whether or not others
-- raised; else none ran. The exit code of the main thread depends on the first exception only, and
-- on whether a callback raised: `SystemExit` keeps its code, another exception gives 1, a signal's
-- or the keyboard's gives 2 if a callback raised and no code otherwise.
pub exit_lem :
    (raises : ℕ → Bool) (cs : List ℕ) (es : List (Option Raised)) (o : Option Raised)
    → let r = exit raises true o (run_threads raises es (with_callbacks cs)) in
      let raised = exceptions (es ++ o ∷ []) in
      r.1 ≡ expected raised (any raises cs) × r.0.executed ≡ executed_by raised cs
unfolding exit
exit_lem raises cs es o =
    subst (λ h. Ends raises cs (exceptions (es ++ o ∷ [])) (exit_code h)) (sym ended)
      (exit_code-Ends raises cs (exceptions (es ++ o ∷ [])))
  where
    ended :
        handle raises o (run_threads raises es (with_callbacks cs))
        ≡ after raises cs (exceptions (es ++ o ∷ []))
    ended =
        ap (handle raises o) (run_threads-after raises cs [] es)
        ∙ handle-after raises cs (exceptions es) o
        ∙ ap (after raises cs) (exceptions-append es o)
