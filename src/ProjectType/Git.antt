-- ===== src/ProjectType/Git.antt =====
-- app/project_type/git.py: how a project is cloned, fetched and reset to a commit.
pub mod Fetching
use cluster_runner_jie.Prelude.{
  Bool, true, false, not, ◌&&◌, ◌||◌, Option, none, some, String, List, [], ◌∷◌, ◌++◌,
  if◌then◌else◌,
}
use cluster_runner_jie.Prelude.Int.{ℤ}
use cluster_runner_jie.Errors.{Error, runtime_error, Result, ok, err}
use cluster_runner_jie.ProjectType.{execute_and_raise_on_failure}

-- What is done in the directory of the repository: the first two with the file system, the others
-- by git. `clone` and `fetch` are told whether to do it shallowly.
pub data Action : Type 0 where
  remove_directory create_directory rev_parse : Action
  clone fetch : Bool → Action
  rev_parse_fetch_head : Action
  update_ref : String → String → Action
  reset_hard : String → Action
  clean : Action

-- The settings, and what the commands come to after those that were run before.
pub record World : Type 0 where
  pub shallow_clones : Bool
  pub existing_repo_is_shallow : Bool
  pub repo_exists : Bool
  pub output : List Action → Action → String
  pub exit_code : List Action → Action → ℤ
  -- whether the kill event is set, once all these were run
  pub is_killed : List Action → Bool
  pub strip : String → String
  -- 'refs/clusterrunner/{}'
  pub local_ref_of : String → String

pub record Git : Type 0 where
  pub history : List Action
  pub local_ref : Option String

abbrev pub M : Type 0 → Type 0
M A = Git → Git × Result A

infixl 5 ◌>>=◌ ◌>>◌
abbrev pub ◌>>=◌ : {A B : Type 0} → M A → (A → M B) → M B
◌>>=◌ m f g = let (g', r) = m g in elim r [ ok a ↦ f a g' | err e ↦ (g', err e) ]

abbrev pub ◌>>◌ : {A B : Type 0} → M A → M B → M B
m >> k = m >>= λ _. k

-- except RuntimeError, which is the only exception of a command
abbrev pub or_on_failure : {A : Type 0} → M A → M A → M A
or_on_failure m k g = let (g', r) = m g in elim r [ ok a ↦ (g', ok a) | err e ↦ k g' ]

unfoldable pub set_local_ref : String → M (Unit {0})
set_local_ref ref g = (record g { local_ref = some ref }, ok tt)

unfoldable pub note : List Action → M (Unit {0})
note actions g = (record g { history = g.history ++ actions }, ok tt)

module _ (w : World) where
  unfoldable pub execute_git_command : Action → M String
  unfolding execute_and_raise_on_failure
  execute_git_command a g =
      let history = g.history ++ a ∷ [] in
      (
        record g { history = history },
        execute_and_raise_on_failure (w.output g.history a, w.exit_code g.history a)
            (w.is_killed history),
      )

  -- A shallow repository is not fit for a full clone.
  abbrev pub made_anew : List Action
  made_anew =
      if not w.shallow_clones && w.existing_repo_is_shallow && w.repo_exists
      then remove_directory ∷ create_directory ∷ []
      else []

  unfoldable pub reset_to : String → M (Unit {0})
  unfolding execute_git_command set_local_ref
  reset_to hash = do
    set_local_ref (w.local_ref_of hash)
    execute_git_command (update_ref (w.local_ref_of hash) hash)
    execute_git_command (reset_hard hash)
    execute_git_command clean
    λ g. (g, ok tt)

  unfoldable pub fetch_project : M (Unit {0})
  unfolding note execute_git_command reset_to
  fetch_project = do
    note made_anew
    or_on_failure (execute_git_command rev_parse) (execute_git_command (clone w.shallow_clones))
    execute_git_command (fetch w.shallow_clones)
    fetch_head ← execute_git_command rev_parse_fetch_head
    reset_to (w.strip fetch_head)

-- The overrides for slaves: `url` is that of the master's repository. `local_ref` may be None.
unfoldable pub slave_param_overrides : Bool → String → Git → List (String × Option String)
slave_param_overrides get_project_from_master url g =
    if get_project_from_master then ("url", some url) ∷ ("branch", g.local_ref) ∷ [] else []
