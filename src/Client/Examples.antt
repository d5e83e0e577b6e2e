-- ===== src/Client/Examples.antt =====
-- Runs of a client on small answers.
use cluster_runner_jie.Prelude.{
  ℕ, true, false, Option, none, some, String, List, [], ◌∷◌, ◌++◌, ◌≡◌, refl, ◌⊎◌, arith,
}
use cluster_runner_jie.Errors.{ok}
use cluster_runner_jie.Master.Fsm.{BuildState, queued, building, finished, error, canceled}
use cluster_runner_jie.Master.Build.Postbuild.{BuildResult, no_failures, failure}
use cluster_runner_jie.Client.{
  BuildRunner, new_runner, started, Poll, Run, run, after_start, start_build, after_block,
  block_until_finished, poll_all, poll_once, on_answer, validate_status, on_status, on_building,
  on_finished, after_download, download_and_extract_results, fetch_all, handled, cancel_build,
}
use cluster_runner_jie.Client.Blocking.{block_until_finished_lem, IsNoticed, IsDecided}
use cluster_runner_jie.Client.Polls.{AnySuccess, AnyFetched}
use cluster_runner_jie.Client.Runs.{run_lem}

abbrev shows : ℕ → BuildState → Option BuildResult → String → Poll
shows now s result details = record {
  now = now;
  answer = ok (
      some (record {
        status = some s;
        result = some result;
        failed_atoms = some ("make test" ∷ []);
        details = some details;
      }));
}

abbrev waiting_polls : List Poll
waiting_polls =
    shows 1 queued none ""
    ∷ shows 2 building none "1 of 2"
    ∷ shows 3 building none "1 of 2"
    ∷ shows 4 building none "2 of 2"
    ∷ []

abbrev with_polls : List Poll → Run
with_polls ps = record {
  start_answer = ok (started (some 7));
  polls = ps;
  fetches =
      record { now = 6; status_code = ok 404 } ∷ record { now = 7; status_code = ok 200 } ∷ [];
  saving = none;
  cancel_answer = record { retries = 1; raises = none };
}

abbrev watched : BuildRunner
watched = record new_runner {
  build_id = some 7;
  cancels_on_teardown = true;
  last_build_status_details = some "2 of 2";
  logged = "1 of 2" ∷ "2 of 2" ∷ [];
}

-- A success, a failure, an error, and a canceled build, for which the runner waits on.
runs :
    (run (with_polls (waiting_polls ++ shows 5 finished (some no_failures) "" ∷ [])) new_runner
      ≡ some (watched, ok true))
    × (run (with_polls (waiting_polls ++ shows 5 finished (some failure) "" ∷ [])) new_runner
        ≡ some (record watched { reported = "make test" ∷ [] }, ok false))
    × (run (with_polls (waiting_polls ++ shows 5 error none "" ∷ [])) new_runner
        ≡ some (record watched { cancel_requests = 7 ∷ 7 ∷ [] }, ok false))
    × (run (with_polls (waiting_polls ++ shows 5 canceled none "" ∷ [])) new_runner ≡ none)
unfolding run after_start start_build after_block block_until_finished poll_all poll_once on_answer
    validate_status on_status on_building on_finished after_download download_and_extract_results
    fetch_all handled cancel_build
runs = (refl, refl, refl, refl)

abbrev finishing : List Poll
finishing = waiting_polls ++ shows 5 finished (some no_failures) "" ∷ []

run_lem_example :
    (ok true ≡ ok true
      → AnySuccess finishing × AnyFetched (with_polls []).fetches × watched.cancel_requests ≡ [])
    × ((watched.cancel_requests ≡ [])
        ⊎ ((i : ℕ) × (with_polls []).start_answer ≡ ok (started (some i))
            × watched.cancel_requests ≡ i ∷ i ∷ []))
run_lem_example = run_lem (with_polls finishing) new_runner watched (ok true) refl runs.0

block_until_finished_lem_example :
    (c : BuildRunner) × IsNoticed ("1 of 2" ∷ "1 of 2" ∷ "2 of 2" ∷ []) new_runner c
    × (block_until_finished 0 (some 10) waiting_polls new_runner ≡ none)
    × ((p : Poll) (ps : List Poll)
        → IsDecided 10 p c (λ q r.
          block_until_finished 0 (some 10) (waiting_polls ++ p ∷ ps) new_runner ≡ some (q, r)))
block_until_finished_lem_example =
    block_until_finished_lem 0 (some 10) waiting_polls new_runner
      ((omega arith, refl), ((omega arith, refl), ((omega arith, refl), ((omega arith, refl), tt))))
