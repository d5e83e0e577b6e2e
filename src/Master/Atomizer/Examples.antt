-- ===== src/Master/Atomizer/Examples.antt =====
-- One atomizer that writes two lines.
use cluster_runner_jie.Prelude.{
  String, List, [], ◌∷◌, ◌++◌, map, ◌≡◌, ◌≢◌, refl, All, if◌then◌else◌,
}
use cluster_runner_jie.Prelude.Int.{pos}
use cluster_runner_jie.Prelude.Dict.{Dict, String_eq}
use cluster_runner_jie.Errors.{ok, err, atomizer_error}
use mathlib.Core.List.{flatten}
use cluster_runner_jie.Master.Atomizer.{
  Project, Succeeds, atoms_of, atomize_in_project, atomize_in_project_lem,
}

abbrev project : Project
project = record {
  output_lines = λ command. "a.py" ∷ "b.py" ∷ [];
  exit_code = λ command. if String_eq.beq command "ls" then pos 0 else pos 1;
  with_project_dir = λ line. line;
  setter_command = λ name value. value;
}

abbrev dicts : List (Dict String String)
dicts = (("TEST", "ls") ∷ []) ∷ []

atomize_in_project_lem_example :
    (All (All (Succeeds project)) dicts
      → atomize_in_project project dicts
        ≡ ok (flatten (map (λ d. flatten (map (atoms_of project) d)) dicts)))
    × ((ds ds' : List (Dict String String)) (before after : Dict String String)
          (e : String × String)
        → dicts ≡ ds ++ (before ++ e ∷ after) ∷ ds'
        → project.exit_code e.1 ≢ pos 0
        → atomize_in_project project dicts ≡ err atomizer_error)
atomize_in_project_lem_example = atomize_in_project_lem project dicts

two_atoms : atomize_in_project project dicts ≡ ok ("a.py" ∷ "b.py" ∷ [])
unfolding atomize_in_project
two_atoms = refl
