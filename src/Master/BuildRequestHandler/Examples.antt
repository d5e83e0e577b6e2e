-- ===== src/Master/BuildRequestHandler/Examples.antt =====
-- A preparation that is canceled while it runs.
use cluster_runner_jie.Prelude.{refl, true, false, none, [], ◌∷◌}
use cluster_runner_jie.Errors.{ok}
use cluster_runner_jie.Master.Fsm.{queued}
use cluster_runner_jie.Master.Fsm.Simple.{simple}
use cluster_runner_jie.Master.Build.{Build, Preparation, cancels, fails}
use cluster_runner_jie.Master.BuildRequestHandler.{prepare_build_async}
use cluster_runner_jie.Master.BuildRequestHandler.Preparing.{
  IsHandled, prepare_build_async-IsHandled,
}

abbrev fresh : Build
fresh = record {
  build_id = 7;
  state = queued;
  transition_timestamps = λ s. none;
  observed = [];
  error_message = none;
  preparation_coin = record { is_spent = false };
  has_project_type = true;
  is_killed = false;
  all_subjobs_by_id = [];
  unstarted_subjobs = none;
  finished_subjobs = none;
  postbuild_threads = 0;
  postbuild_tasks_are_finished = false;
  failed_pairs = none;
  setup_failures = 0;
}

abbrev canceled_meanwhile : Preparation
canceled_meanwhile = record {
  started_at = 5;
  prepared_at = 8;
  recorded_at = 9;
  meanwhile = cancels 6 ∷ [];
  subjobs = ok [];
}

prepare_build_async-IsHandled_example :
    IsHandled 0
      (fails 9 "late" ∷ [])
      (prepare_build_async simple (λ e. "") (fails 9 "late" ∷ []) 9 canceled_meanwhile fresh)
prepare_build_async-IsHandled_example =
    prepare_build_async-IsHandled simple (λ e. "") (fails 9 "late" ∷ []) 9 canceled_meanwhile fresh
      refl refl refl
