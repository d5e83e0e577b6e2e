-- ===== src/ProjectType/Examples.antt =====
-- A command that does not end before its time is over, and a project that is there already.
use cluster_runner_jie.Prelude.{true, false, none, some, String, List, [], ◌++◌, ◌≡◌}
use cluster_runner_jie.Prelude.Int.{ℤ, pos}
use cluster_runner_jie.Errors.{ok}
use cluster_runner_jie.ProjectType.{expired, Round}
use cluster_runner_jie.ProjectType.Git.{Action, World, Git, fetch_project, made_anew}
use cluster_runner_jie.ProjectType.Git.Fetching.{Started, AllPassed, script, fetch_project_lem}

abbrev early : Round
early = record { is_killed = false; now = 10; wait = expired }

abbrev late : Round
late = record { is_killed = false; now = 16; wait = expired }

abbrev world : World
world = record {
  shallow_clones = true;
  existing_repo_is_shallow = true;
  repo_exists = true;
  output = λ history a. "abc";
  exit_code = λ history a. pos 0;
  is_killed = λ history. false;
  strip = λ s. s;
  local_ref_of = λ s. s;
}

abbrev unfetched : Git
unfetched = record { history = []; local_ref = none }

fetch_project_lem_example :
    let prepared = [] ++ made_anew world in
    ((g' : Git)
      → fetch_project world unfetched ≡ (g', ok tt)
      → (start : List Action) × (hash : String) × Started world prepared start
        × (hash ≡ "abc")
        × AllPassed world (prepared ++ start) (script world hash)
        × (g'
            ≡ record { history = (prepared ++ start) ++ script world hash; local_ref = some hash }))
    × (((history : List Action) (a : Action) → ◌≡◌ {A = ℤ} (pos 0) (pos 0))
        → (fetch_project world unfetched).1 ≡ ok tt)
fetch_project_lem_example = fetch_project_lem world unfetched
