-- ===== src/Slave/SubjobExecutor.antt =====
-- app/slave/subjob_executor.py. What the project type does, and the exit code of a command, are
-- arguments; the files that are written are listed.
pub mod Artifacts
mod Examples
use cluster_runner_jie.Prelude.{
  ℕ, ◌+◌, Bool, true, false, Option, none, some, String, List, [], ◌∷◌,
}
use cluster_runner_jie.Prelude.Int.{ℤ}
use cluster_runner_jie.Prelude.Dict.{insert, String_eq}
use cluster_runner_jie.Errors.{ok}
use cluster_runner_jie.Common.BuildArtifact.{Names, Directory}

pub record SubjobExecutor : Type 0 where
  pub executor_id : ℕ
  pub has_project_type : Bool
  pub current_build_id : Option ℕ
  pub current_subjob_id : Option ℕ

abbrev pub new_executor : ℕ → SubjobExecutor
new_executor executor_id = record {
  executor_id = executor_id;
  has_project_type = false;
  current_build_id = none;
  current_subjob_id = none;
}

-- What is asked of the project type when an executor gets a new one.
pub data Call : Type 0 where
  teardown_executor setup_executor : Call

-- The new project type takes the place of an old one, which is torn down first.
unfoldable pub configure_project_type : SubjobExecutor → SubjobExecutor × List Call
configure_project_type e = (
  record e { has_project_type = true },
  elim e.has_project_type [
    | true ↦ teardown_executor ∷ setup_executor ∷ []
    | false ↦ setup_executor ∷ []
  ],
)

-- The run of one atom: its artifact directory is that of (build, subjob, atom).
pub record AtomRun : Type 0 where
  pub build_id : ℕ
  pub subjob_id : ℕ
  pub atom_id : ℕ
  pub command : String
  pub machine_executor_index : ℕ
  pub build_executor_index : ℕ

-- Running a command: an exit code, and the time that it takes.
abbrev pub Runner : Type 0
Runner = AtomRun → ℤ

-- The files of an atom, besides its console output: the exit code and the command.
pub record AtomResult : Type 0 where
  pub run : AtomRun
  pub exit_code : ℤ

-- The loop over `enumerate(atomic_commands)`, from atom `k` on.
unfoldable pub execute_atoms : Runner → ℕ → ℕ → ℕ → ℕ → ℕ → List String → List AtomResult
execute_atoms runner build_id subjob_id index base k [] = []
execute_atoms runner build_id subjob_id index base k (c ∷ cs) =
    let run : AtomRun = record {
      build_id = build_id;
      subjob_id = subjob_id;
      atom_id = k;
      command = c;
      machine_executor_index = index;
      build_executor_index = base + index;
    } in
    record { run = run; exit_code = runner run }
    ∷ execute_atoms runner build_id subjob_id index base (k + 1) cs

abbrev pub begin_subjob : ℕ → ℕ → SubjobExecutor → SubjobExecutor
begin_subjob build_id subjob_id e = record e {
  current_build_id = some build_id;
  current_subjob_id = some subjob_id;
}

abbrev pub end_subjob : SubjobExecutor → SubjobExecutor
end_subjob e = record e { current_build_id = none; current_subjob_id = none }

-- The results are archived in one file; the archive's content is returned.
unfoldable pub execute_subjob :
    Runner → ℕ → ℕ → List String → ℕ → SubjobExecutor → SubjobExecutor × List AtomResult
unfolding execute_atoms
execute_subjob runner build_id subjob_id commands base e = (
  end_subjob (begin_subjob build_id subjob_id e),
  execute_atoms runner build_id subjob_id e.executor_id base 0 commands,
)

-- The files that an atom leaves: its directory is made anew, and its exit code is written there.
unfoldable pub write_results : Names → List AtomResult → Directory → Directory
write_results names [] ds = ds
write_results names (r ∷ rs) ds =
    write_results names rs
      (insert (names.format r.run.subjob_id r.run.atom_id) (some (ok r.exit_code)) ds)
