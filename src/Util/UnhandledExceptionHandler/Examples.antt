-- ===== src/Util/UnhandledExceptionHandler/Examples.antt =====
-- Two callbacks, of which the first raises; a thread is interrupted, then another one fails.
use cluster_runner_jie.Prelude.{ℕ, true, ◌==◌, Bool, Option, some, none, List, [], ◌∷◌, ◌++◌, ◌≡◌}
use cluster_runner_jie.Util.UnhandledExceptionHandler.{
  Raised, app_teardown, other_exception, exit, run_threads,
}
use cluster_runner_jie.Util.UnhandledExceptionHandler.Exits.{
  exit_lem, expected, executed_by, exceptions, any, with_callbacks,
}

abbrev raises : ℕ → Bool
raises c = c == 1

abbrev ends : List (Option Raised)
ends = none ∷ some app_teardown ∷ some other_exception ∷ []

exit_lem_example :
    let r = exit raises true none (run_threads raises ends (with_callbacks (2 ∷ 1 ∷ []))) in
    let raised = exceptions (ends ++ none ∷ []) in
    r.1 ≡ expected raised (any raises (2 ∷ 1 ∷ [])) × r.0.executed ≡ executed_by raised (2 ∷ 1 ∷ [])
exit_lem_example = exit_lem raises (2 ∷ 1 ∷ []) ends none
