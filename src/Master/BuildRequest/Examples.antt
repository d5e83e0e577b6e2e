-- ===== src/Master/BuildRequest/Examples.antt =====
-- A request for a git project, and one with a parameter that directories do not know.
use cluster_runner_jie.Prelude.{ℕ, String, true, false, none, some, [], ◌∷◌, ◌≡◌, ◌≢◌, refl}
use cluster_runner_jie.Prelude.Dict.{Dict, lookup, keys, String_eq, ℕ_eq}
use cluster_runner_jie.Errors.{Result, ok, err, type_error}
use cluster_runner_jie.Master.Build.{new_build}
use cluster_runner_jie.Master.Registry.{get, no_slaves}
use cluster_runner_jie.Master.BuildRequest.{
  ProjectClass, directory, git, arg_spec, contains, required_constructor_argument_names,
  get_project_type_subclass,
}
use cluster_runner_jie.Master.BuildRequest.Handling.{
  Requests, build_id, missing_parameter, handle_request_for_new_build, build_preparation_round,
}
use cluster_runner_jie.Master.BuildRequest.Params.{needed, constructor_params}
use cluster_runner_jie.Master.BuildRequest.NewBuild.{handle_request_for_new_build_lem}

abbrev lower : String → String
lower name = name

abbrev construct : ProjectClass → Dict String String → Result (Unit {0})
construct c params = ok tt

abbrev no_requests : Requests
no_requests = record {
  master = record {
    slaves = [];
    slave_id_counter = 0;
    slave_registry = no_slaves;
    builds = [];
    idle_slaves = [];
    submitted = [];
  };
  build_id_counter = 0;
  request_queue = [];
  project_preparation_locks = [];
  preparations = [];
}

abbrev params : Dict String String
params = ("type", "directory") ∷ ("project_directory", "/tmp/p") ∷ ("atoms_override", "A=1") ∷ []

handle_request_for_new_build_lem_example :
    let r = handle_request_for_new_build lower construct 5 "/tmp/link" params no_requests in
    (lookup (needed directory) params ≡ none
      → r ≡ (no_requests, ok (false, missing_parameter (needed directory ∷ []))))
    × ((v : String)
        → lookup (needed directory) params ≡ some v
        → ((k : String)
            → contains k (keys params) ≡ true
            → k ≢ "type"
            → contains k (arg_spec directory).args ≡ true)
        → construct directory (constructor_params "/tmp/link" params) ≡ ok tt
        → (r.1 ≡ ok (true, build_id 1))
          × (get 1 r.0.master.builds ≡ ok (record (new_build 1 5) { has_project_type = true }))
          × (r.0.request_queue ≡ 1 ∷ []))
    × ((v k : String)
        → lookup (needed directory) params ≡ some v
        → contains k (keys params) ≡ true
        → k ≢ "type"
        → contains k (arg_spec directory).args ≡ false
        → (r.1 ≡ err type_error)
          × (get 1 r.0.master.builds ≡ ok (new_build 1 5))
          × (r.0.request_queue ≡ []))
handle_request_for_new_build_lem_example =
    handle_request_for_new_build_lem lower construct "/tmp/link" "directory" params directory typed
      refl refl subclass 5 no_requests
  where
    typed : lookup "type" params ≡ some "directory"
    typed = unfold lookup in refl

    subclass : get_project_type_subclass lower "directory" ≡ some directory
    subclass = unfold get_project_type_subclass in refl

required_of_git : required_constructor_argument_names git ≡ "url" ∷ []
unfolding required_constructor_argument_names
required_of_git = refl

-- A second build of one project finds its lock.
two_builds :
    let two = record no_requests { request_queue = 1 ∷ 2 ∷ [] } in
    let project_id : ℕ → String = λ i. "/tmp/p" in
    (build_preparation_round project_id
      (build_preparation_round project_id two)).project_preparation_locks
    ≡ "/tmp/p" ∷ []
unfolding build_preparation_round
two_builds = refl
