-- ===== src/Common/BuildArtifact/Examples.antt =====
-- A build in which no atom failed, and the times of one atom of two.
use cluster_runner_jie.Prelude.{ℕ, String, List, refl, arith, true, none, some, [], ◌∷◌, ◌≡◌}
use cluster_runner_jie.Prelude.Int.{pos}
use cluster_runner_jie.Prelude.Dict.{Dict, lookup, String_eq}
use cluster_runner_jie.Errors.{Error, value_error, ok, err}
use cluster_runner_jie.Common.BuildArtifact.{
  Names, Directory, failed_in, get_failed_artifact_directories, write_timing_data,
}
use cluster_runner_jie.Common.BuildArtifact.Timing.{write_timing_data_lem, or_else}

abbrev names : Names
names = record {
  format = λ s a. "artifact_0_0";
  has_prefix = λ d. true;
  match_ids = λ d. some (0, 0);
}

abbrev directory : Directory
directory = ("artifact_0_0", some (ok (pos 0))) ∷ []

abbrev old_times : Dict String ℕ
old_times = ("test_a", 3) ∷ ("test_b", 5) ∷ []

abbrev new_times : Dict String ℕ
new_times = ("test_b", 4) ∷ []

write_timing_data_lem_example :
    let failed = get_failed_artifact_directories names (some directory) in
    (write_timing_data names (some directory) none new_times ≡ ok (some (some new_times)))
    × (failed ≡ ok []
        → (t : Dict String ℕ) × (write_timing_data names
              (some directory)
              (some (some old_times))
              new_times
            ≡ ok (some (some t)))
          × ((k : String) → lookup k t ≡ or_else (lookup k new_times) (lookup k old_times)))
    × (failed ≡ ok []
        → write_timing_data names (some directory) (some none) new_times ≡ err value_error)
    × ((d : String) (more : List String)
        → failed ≡ ok (d ∷ more)
        → write_timing_data names (some directory) (some none) new_times ≡ ok (some none))
    × ((e : Error)
        → failed ≡ err e
        → write_timing_data names (some directory) (some none) new_times ≡ err e)
write_timing_data_lem_example =
    write_timing_data_lem names (some directory) old_times new_times none (tt, tt)
      (λ e. absurd (ground arith))

all_passed : get_failed_artifact_directories names (some directory) ≡ ok []
unfolding get_failed_artifact_directories failed_in
all_passed = refl
