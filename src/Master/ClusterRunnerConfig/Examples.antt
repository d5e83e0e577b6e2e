-- ===== src/Master/ClusterRunnerConfig/Examples.antt =====
-- A file with two jobs.
use cluster_runner_jie.Prelude.{String, false, Option, none, some, [], ◌∷◌, ◌≡◌, refl, arith}
use cluster_runner_jie.Prelude.Int.{pos}
use cluster_runner_jie.Prelude.Dict.{Dict, lookup, String_eq}
use cluster_runner_jie.Errors.{job_not_found, ok, err}
use cluster_runner_jie.Master.JobConfig.{
  no_item, item_text, item_dict, Section, number, items, list_str, list_dict, int, Texts, JobConfig,
  construct_from_dict, expected_type,
}
use cluster_runner_jie.Master.ClusterRunnerConfig.{RawConfig, new, get_job_config}
use cluster_runner_jie.Master.JobConfig.Validation.{IsJob}
use cluster_runner_jie.Master.ClusterRunnerConfig.Choice.{get_job_config_lem}

abbrev texts : Texts
texts = record {
  strip = λ x. x;
  rstrip_semicolons = λ x. x;
  rstrip_ampersands = λ x. x;
  ends_with_ampersand = λ x. false;
  ends_with_and = λ x. false;
  append = λ x y. x;
}

abbrev unit_tests : Dict String Section
unit_tests =
    ("commands", items (item_text "make test" ∷ no_item ∷ []))
    ∷ ("atomizers", items (item_dict (("TEST", "ls test") ∷ []) ∷ []))
    ∷ ("max_executors", number (pos 4))
    ∷ []

unit_tests-IsJob : IsJob unit_tests
unfolding expected_type lookup
unit_tests-IsJob = record {
  allowed =
      ((list_str, refl, (refl, (tt, tt))), ((list_dict, refl, refl), ((int, refl, refl), tt)));
  has_commands = refl;
  has_atomizers = refl;
}

abbrev file : RawConfig
file = ("Unit", some unit_tests) ∷ ("Lint", some unit_tests) ∷ []

get_job_config_lem_example :
    let c = (get_job_config texts (some "Unit") (new (some file))).0 in
    (lookup "Lint" file ≡ none → (get_job_config texts (some "Lint") c).1 ≡ err job_not_found)
    × ((s : Option (Dict String Section))
        → lookup "Lint" file ≡ some s
        → (job : JobConfig) × (construct_from_dict texts "Lint" s ≡ ok job)
          × ((get_job_config texts (some "Lint") c).1 ≡ ok job))
get_job_config_lem_example =
    get_job_config_lem texts file "Unit" "Lint" (unit_tests-IsJob, (unit_tests-IsJob, tt))
      (((λ e. absurd (ground (arith, (String_eq.beq_iff "Unit" "Lint").1 e))), tt), (tt, tt))
      (λ e. absurd (ground (arith, e)))
