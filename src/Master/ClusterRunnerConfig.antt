-- ===== src/Master/ClusterRunnerConfig.antt =====
-- app/master/cluster_runner_config.py: the jobs of a project's clusterrunner.yaml.
pub mod Choice
mod Examples
use cluster_runner_jie.Prelude.{
  ℕ, Bool, true, false, not, ◌&&◌, Option, none, some, String, List, [], ◌∷◌, if◌then◌else◌,
}
use cluster_runner_jie.Prelude.Int.{ℤ}
use cluster_runner_jie.Prelude.Dict.{Dict, lookup, insert, String_eq, Eq}
use cluster_runner_jie.Errors.{
  Error, attribute_error, index_error, config_validation, config_parse, job_not_found,
  job_not_specified, Result, ok, err, ◌>>=◌,
}
use cluster_runner_jie.Master.JobConfig.{Section, JobConfig, Texts, construct_from_dict}

abbrev pub RawConfig : Type 0
RawConfig = Dict String (Option (Dict String Section))

-- `raw_config` is what is read from the contents, `none` if it is no dictionary.
pub record ClusterRunnerConfig : Type 0 where
  pub raw_config : Option RawConfig
  pub job_configs : Option (Dict String JobConfig)

abbrev pub new : Option RawConfig → ClusterRunnerConfig
new raw = record { raw_config = raw; job_configs = none }

abbrev pub add_job :
    String → Result JobConfig → Dict String JobConfig → Dict String JobConfig × Option Error
add_job name (ok job) jobs = (insert name job jobs, none)
add_job name (err e) jobs = (jobs, some e)

-- The loop over the jobs; the ones before a job that raises stay.
unfoldable pub parse_jobs :
    Texts → RawConfig → Dict String JobConfig → Dict String JobConfig × Option Error
unfolding construct_from_dict
parse_jobs t [] jobs = (jobs, none)
parse_jobs t ((name, sections) ∷ d) jobs =
    let (jobs', raised) = add_job name (construct_from_dict t name sections) jobs in
    elim raised [ some e ↦ (jobs', some e) | none ↦ parse_jobs t d jobs' ]

abbrev pub error_if_empty : Dict String JobConfig → Option Error → Option Error
error_if_empty [] none = some config_parse
error_if_empty _ raised = raised

abbrev pub parsed :
    ClusterRunnerConfig → Dict String JobConfig × Option Error → ClusterRunnerConfig × Option Error
parsed c (jobs, raised) = (record c { job_configs = some jobs }, error_if_empty jobs raised)

unfoldable pub parse_raw_config : Texts → ClusterRunnerConfig → ClusterRunnerConfig × Option Error
unfolding parse_jobs
parse_raw_config t c = elim c.raw_config [
  | none ↦ (c, some config_parse)
  | some d ↦ parsed c (parse_jobs t d [])
]

abbrev pub only_job : Dict String JobConfig → Result JobConfig
only_job ((name, job) ∷ []) = ok job
only_job _ = err job_not_specified

abbrev pub choose : Option String → Dict String JobConfig → Result JobConfig
choose none jobs = only_job jobs
choose (some name) jobs = elim (lookup name jobs) [ none ↦ err job_not_found | some job ↦ ok job ]

abbrev pub chosen :
    Option String → ClusterRunnerConfig × Option Error → ClusterRunnerConfig × Result JobConfig
chosen job_name (c, some e) = (c, err e)
chosen job_name (c, none) = elim c.job_configs [
  | none ↦ (c, err job_not_specified)
  | some jobs ↦ (c, choose job_name jobs)
]

unfoldable pub get_job_config :
    Texts → Option String → ClusterRunnerConfig → ClusterRunnerConfig × Result JobConfig
unfolding parse_raw_config
get_job_config t job_name c = elim c.job_configs [
  | none ↦ chosen job_name (parse_raw_config t c)
  | some jobs ↦ chosen job_name (c, none)
]
