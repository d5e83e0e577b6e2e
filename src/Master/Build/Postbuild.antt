-- ===== src/Master/Build/Postbuild.antt =====
-- app/master/build.py: the postbuild tasks, and the result that a build shows.
use cluster_runner_jie.Prelude.{
  ℕ, true, Option, none, some, String, List, length, ◌==◌, if◌then◌else◌,
}
use cluster_runner_jie.Errors.{Error, exception, Result, ok, err}
use cluster_runner_jie.Master.Fsm.{postbuild_tasks_complete}
use cluster_runner_jie.Master.Fsm.Fysom.{Fysom}
use cluster_runner_jie.Master.Build.{Build, trigger_at, mark_failed, is_canceled, is_finished}

-- What the tasks come to, at a time: they succeed with the pairs of subjob and atom that the
-- artifact reports as failed, or raise, before or after the artifact was created.
pub data Tasks : Type 0 where
  succeed : ℕ → List (ℕ × ℕ) → Tasks
  raise : ℕ → Option (List (ℕ × ℕ)) → Error → Tasks

module _ (fysom : Fysom) (str : Error → String) where
  unfoldable pub perform_async_postbuild_tasks : Tasks → Build → Build
  perform_async_postbuild_tasks (succeed now pairs) b =
      trigger_at fysom now postbuild_tasks_complete none
        (record b { failed_pairs = some pairs; postbuild_tasks_are_finished = true })
  perform_async_postbuild_tasks (raise now pairs e) b =
      mark_failed fysom now (str e) (record b { failed_pairs = pairs })

pub data BuildResult : Type 0 where
  no_failures failure : BuildResult

-- Asking for the failures of a build that has no artifact raises AttributeError.
unfoldable pub result_of : Option (List (ℕ × ℕ)) → Result (Option BuildResult)
result_of none = err exception
result_of (some pairs) = ok (some (if length pairs == 0 then no_failures else failure))

unfoldable pub result : Build → Result (Option BuildResult)
unfolding result_of
result b =
    if is_canceled b
    then ok (some failure)
    else if is_finished b
    then result_of b.failed_pairs
    else ok none
