-- ===== src/Master/Build/Outcome.antt =====
-- What the postbuild tasks make of a build, and the result that it then shows.
use cluster_runner_jie.Prelude.{
  ℕ, ◌≡◌, ◌↔◌, refl, ap, ◌∙◌, true, false, ◌||◌, Option, none, some, String, List, [], ◌∷◌, arith,
}
use cluster_runner_jie.Errors.{Error, ok}
use cluster_runner_jie.Master.Fsm.{
  BuildState, prepared, building, finished, error, postbuild_tasks_complete,
}
use cluster_runner_jie.Master.Fsm.Fysom.{Fysom, state_eq}
use cluster_runner_jie.Master.Fsm.Trigger.{diagram}
use cluster_runner_jie.Master.Build.{Build, trigger_at, is_finished, has_error}
use cluster_runner_jie.Master.Build.States.{trigger_at-state, next}
use cluster_runner_jie.Master.Build.Keeping.{trigger_at-Keeps, mark_failed-state, mark_failed-Keeps}
use cluster_runner_jie.Master.Build.Postbuild.{
  succeed, raise, perform_async_postbuild_tasks, no_failures, result, result_of,
}

next_complete :
    (s : BuildState)
    → ((state_eq s prepared || state_eq s building) ≡ true
        → next s (diagram s postbuild_tasks_complete) ≡ finished)
      × ((state_eq s prepared || state_eq s building) ≡ false
          → next s (diagram s postbuild_tasks_complete) ≡ error)
unfolding diagram
next_complete s = ground arith

result-finished :
    (b : Build) (pairs : List (ℕ × ℕ))
    → b.state ≡ finished
    → b.postbuild_tasks_are_finished ≡ true
    → b.failed_pairs ≡ some pairs
    → (result b ≡ ok (some no_failures)) ↔ (pairs ≡ [])
unfolding result result_of
result-finished b [] s f p = (λ e. refl, λ e. ground arith)
result-finished b (x ∷ xs) s f p = (λ e. absurd (ground arith), λ e. absurd (ground arith))

module _ (fysom : Fysom) (str : Error → String) where
  -- Postbuild tasks that succeed finish a build that is PREPARED or BUILDING, and it shows
  -- NO_FAILURES exactly if its artifact reports no failed atom. In any other state, also if the
  -- build was canceled while they ran, the build fails.
  pub perform_succeed :
      (now : ℕ) (pairs : List (ℕ × ℕ)) (b : Build)
      → let c = perform_async_postbuild_tasks fysom str (succeed now pairs) b in
        ((state_eq b.state prepared || state_eq b.state building) ≡ true
          → (c.state ≡ finished)
            × (is_finished c ≡ true)
            × ((result c ≡ ok (some no_failures)) ↔ (pairs ≡ [])))
        × ((state_eq b.state prepared || state_eq b.state building) ≡ false → has_error c ≡ true)
  unfolding perform_async_postbuild_tasks
  perform_succeed now pairs b =
      let b' = record b { failed_pairs = some pairs; postbuild_tasks_are_finished = true } in
      let c = trigger_at fysom now postbuild_tasks_complete none b' in
      let state = trigger_at-state fysom now postbuild_tasks_complete none b' in
      let kept = trigger_at-Keeps fysom now postbuild_tasks_complete none b' in
      (
        (λ h.
            let s = state ∙ (next_complete b.state).0 h in
            let f = kept.postbuild_tasks_are_finished in
            let p = kept.failed_pairs in (s, rw (s, f) refl, result-finished c pairs s f p)),
        (λ h. ap (λ s. state_eq s error) (state ∙ (next_complete b.state).1 h)),
      )

  -- Postbuild tasks that raise fail the build, whatever its state: it is never finished by them.
  perform_raise :
      (now : ℕ) (pairs : Option (List (ℕ × ℕ))) (e : Error) (b : Build)
      → let c = perform_async_postbuild_tasks fysom str (raise now pairs e) b in
        (has_error c ≡ true) × (is_finished c ≡ b.postbuild_tasks_are_finished)
  unfolding perform_async_postbuild_tasks
  perform_raise now pairs e b =
      let s = mark_failed-state fysom now (str e) (record b { failed_pairs = pairs }) in
      let kept = mark_failed-Keeps fysom now (str e) (record b { failed_pairs = pairs }) in
      (ap (λ t. state_eq t error) s, rw (s, kept.postbuild_tasks_are_finished) refl)
