-- ===== src/Master/BuildRequest/Handling.antt =====
-- How a request becomes a build: `handle_request_for_new_build` of app/master/cluster_master.py,
-- `generate_project_type` of app/master/build.py, and the queue and the loop of
-- app/master/build_request_handler.py.
use cluster_runner_jie.Prelude.{
  ℕ, suc, Bool, true, false, Option, none, some, String, List, [], ◌∷◌, ◌++◌, if◌then◌else◌,
}
use cluster_runner_jie.Prelude.Dict.{Dict, insert, String_eq, ℕ_eq}
use cluster_runner_jie.Errors.{Result, ok, err, build_project_error}
use cluster_runner_jie.Master.Build.{Build, new_build}
use cluster_runner_jie.Master.Registry.{add}
use cluster_runner_jie.Master.ClusterMaster.{ClusterMaster, write_build}
use cluster_runner_jie.Master.BuildRequest.{
  ProjectClass, new_request, is_valid, is_valid_type, required_parameters, create_project_type,
  contains,
}

-- The counter of builds belongs to the class `Build`, the queue to the handler of requests;
-- `preparations` are the threads that it started, each with its build and the lock of its project.
pub record Requests : Type 0 where
  pub master : ClusterMaster
  pub build_id_counter : ℕ
  pub request_queue : List ℕ
  pub project_preparation_locks : List String
  pub preparations : List (ℕ × String)

pub data Response : Type 0 where
  build_id : ℕ → Response
  invalid_type : Response
  missing_parameter : List String → Response

unfoldable pub handle_build_request : Build → Requests → Requests
handle_build_request b s = record s { request_queue = s.request_queue ++ b.build_id ∷ [] }

unfoldable pub with_project_type : Result (Option ProjectClass) → Build → Result Build
with_project_type (err e) b = err e
with_project_type (ok none) b = err build_project_error
with_project_type (ok (some c)) b = ok (record b { has_project_type = true })

-- The state with the build in the store, and what its project type came to.
unfoldable pub queue_build : Requests → Result Build → Requests × Result (Bool × Response)
queue_build s (err e) = (s, err e)
queue_build s (ok b) = (
  handle_build_request b (record s { master = write_build b s.master }),
  ok (true, build_id b.build_id),
)

module _ (lower : String → String)
    (construct : ProjectClass → Dict String String → Result (Unit {0})) where
  -- `symlink` is the path that is generated for the build.
  unfoldable pub generate_project_type : String → Dict String String → Build → Result Build
  generate_project_type symlink params b =
      with_project_type
        (create_project_type lower construct (insert "build_project_directory" symlink params)) b

  -- A build is made and stored, and waits to be prepared if it has got its project type.
  unfoldable pub start_request :
      ℕ → String → Dict String String → Requests → Requests × Result (Bool × Response)
  start_request now symlink params s =
      let i = suc s.build_id_counter in
      let b = new_build i now in
      let m = s.master in
      queue_build (record s { build_id_counter = i; master = record m { builds = add b m.builds } })
        (generate_project_type symlink params b)

  unfoldable pub handle_request_for_new_build :
      ℕ → String → Dict String String → Requests → Requests × Result (Bool × Response)
  unfolding new_request is_valid is_valid_type required_parameters
  handle_request_for_new_build now symlink params s =
      let r = new_request lower params in
      if is_valid lower r
      then start_request now symlink r.build_parameters s
      else if is_valid_type lower r
      then (s, ok (false, missing_parameter (required_parameters lower r)))
      else (s, ok (false, invalid_type))

-- One round of the loop: the first build's thread is started, under the lock of its project.
-- `project_id` is that of a build.
unfoldable pub build_preparation_round : (ℕ → String) → Requests → Requests
build_preparation_round project_id s = elim s.request_queue [
  | [] ↦ s
  | i ∷ is' ↦ record s {
    request_queue = is';
    project_preparation_locks =
        if contains (project_id i) s.project_preparation_locks
        then s.project_preparation_locks
        else s.project_preparation_locks ++ project_id i ∷ [];
    preparations = s.preparations ++ (i, project_id i) ∷ [];
  }
]
