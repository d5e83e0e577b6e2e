-- ===== src/Master/Build/Examples.antt =====
-- Builds of two subjobs.
use cluster_runner_jie.Prelude.{ℕ, ◌≡◌, refl, true, false, Option, none, some, List, [], ◌∷◌}
use cluster_runner_jie.Prelude.Dict.{lookup}
use cluster_runner_jie.Errors.{ok}
use cluster_runner_jie.Master.Subjob.{Subjob, new_subjob, new_atom}
use cluster_runner_jie.Master.Fsm.{BuildState, queued, building, finished, canceled, start_prepare}
use cluster_runner_jie.Master.Fsm.Simple.{simple}
use cluster_runner_jie.Master.Build.{Build, cancel, trigger_at, is_stopped, prepare}
use cluster_runner_jie.Master.Build.States.{trigger_at-is_stopped}
use cluster_runner_jie.Master.Build.Canceling.{cancel_lem}
use cluster_runner_jie.Master.Build.Prepared.{prepare_undisturbed}
use cluster_runner_jie.Master.Build.Completion.{Report, readable}
use cluster_runner_jie.Master.Build.Subjobs.{payload, complete_subjob, handle_subjob_payload}
use cluster_runner_jie.Prelude.Int.{pos}
use cluster_runner_jie.Errors.{exception}
use cluster_runner_jie.Master.Build.Outcome.{perform_succeed}
use cluster_runner_jie.Master.Build.Updates.{validate_update_params, update_build, update_build_lem}
use cluster_runner_jie.Master.Build.Postbuild.{perform_async_postbuild_tasks, succeed}

abbrev subjob : ℕ → Subjob
subjob i = new_subjob 7 i "make test" (new_atom "export X=1" ∷ [])

abbrev two : List Subjob
two = subjob 0 ∷ subjob 1 ∷ []

abbrev queued_at_three : BuildState → Option ℕ
queued_at_three queued = some 3
queued_at_three _ = none

abbrev fresh : Build
fresh = record {
  build_id = 7;
  state = queued;
  transition_timestamps = queued_at_three;
  observed = [];
  error_message = none;
  preparation_coin = record { is_spent = false };
  has_project_type = true;
  is_killed = false;
  all_subjobs_by_id = [];
  unstarted_subjobs = none;
  finished_subjobs = none;
  postbuild_threads = 0;
  postbuild_tasks_are_finished = false;
  failed_pairs = none;
  setup_failures = 0;
}

abbrev at_work : BuildState → Build
at_work s = record fresh {
  state = s;
  all_subjobs_by_id = (0, subjob 0) ∷ (1, subjob 1) ∷ [];
  unstarted_subjobs = some (record { maxsize = 2; items = [] });
  finished_subjobs = some (record { maxsize = 2; items = [] });
}

stopped_build : is_stopped (trigger_at simple 9 start_prepare none (at_work canceled)) ≡ true
stopped_build = (trigger_at-is_stopped simple 9 start_prepare none (at_work canceled)).0 refl

cancel_lem_example : (cancel simple 9 (at_work building)).state ≡ canceled
cancel_lem_example = ((cancel_lem simple 9 (at_work building) refl).1 refl).0

prepare_undisturbed_example :
    (prepare simple
      (record {
        started_at = 5;
        prepared_at = 8;
        recorded_at = 9;
        meanwhile = [];
        subjobs = ok two;
      })
      fresh).0.observed
    ≡ (queued, 2) ∷ []
prepare_undisturbed_example =
    (prepare_undisturbed simple
      (record {
        started_at = 5;
        prepared_at = 8;
        recorded_at = 9;
        meanwhile = [];
        subjobs = ok two;
      })
      two fresh 3 refl refl refl refl refl refl refl).6

-- The first report of subjob 1 cannot be extracted; the second one is recorded.
abbrev reports : List Report
reports = (1, payload (some exception) (λ i. ok (pos 0))) ∷ (1, payload none (λ i. ok (pos 0))) ∷ []

recorded_once : readable reports (at_work building) ≡ 1 ∷ []
unfolding complete_subjob handle_subjob_payload lookup new_subjob
recorded_once = refl

perform_succeed_example :
    (perform_async_postbuild_tasks simple (λ e. "") (succeed 9 []) (at_work building)).state
    ≡ finished
perform_succeed_example = ((perform_succeed simple (λ e. "") 9 [] (at_work building)).0 refl).0

canceling_update : (update_build simple 9 (("status", "canceled") ∷ []) (at_work building)).1 ≡ true
canceling_update =
    ((update_build_lem simple 9 [] ("status", "canceled") (at_work building) refl).1 refl_valid).0
  where
    refl_valid : validate_update_params (("status", "canceled") ∷ []) ≡ true
    refl_valid = unfold validate_update_params in refl
