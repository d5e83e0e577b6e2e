-- ===== src/Slave/SubjobExecutor/Artifacts.antt =====
-- What the executors of slaves leave behind is what the master finds to have failed.
use cluster_runner_jie.Prelude.{ℕ, Option, none, some, String, List, [], ◌∷◌, ◌++◌, if◌then◌else◌}
use mathlib.Core.List.Perm
use mathlib.Core.List.{Perm}
use cluster_runner_jie.Errors.{ok}
use cluster_runner_jie.Common.BuildArtifact.{Names, IsFormat, Directory, is_zero}
use cluster_runner_jie.Slave.SubjobExecutor.{AtomResult, Runner, execute_atoms}

abbrev pub pair_of : AtomResult → ℕ × ℕ
pair_of r = (r.run.subjob_id, r.run.atom_id)

-- The atoms whose command ended with another exit code than 0.
abbrev pub failures : List AtomResult → List (ℕ × ℕ)
failures [] = []
failures (r ∷ rs) = if is_zero r.exit_code then failures rs else pair_of r ∷ failures rs

abbrev pair_if_failed : AtomResult → Option (ℕ × ℕ)
pair_if_failed r = if is_zero r.exit_code then none else some (pair_of r)

module _ (names : Names) (h : IsFormat names) where
  abbrev pub name_of : AtomResult → String
  name_of r = names.format r.run.subjob_id r.run.atom_id

  abbrev pub entries : List AtomResult → Directory
  entries [] = []
  entries (r ∷ rs) = (name_of r, some (ok r.exit_code)) ∷ entries rs

-- The subjobs of a build: id and commands.
abbrev pub Subjobs : Type 0
Subjobs = List (ℕ × List String)

module _ (runner : Runner) (build_id index base : ℕ) where
  -- What one executor makes of subjobs, one after the other.
  abbrev pub results_of : Subjobs → List AtomResult
  results_of [] = []
  results_of ((s, cs) ∷ subs) = execute_atoms runner build_id s index base 0 cs ++ results_of subs
