-- ===== src/Master/Grouping/Subjobs.antt =====
-- app/master/subjob_calculator.py: the subjobs of a build. What the timing file holds and what the
-- atomizer returns are arguments.
use cluster_runner_jie.Prelude.{ℕ, ◌+◌, Option, none, some, String, List, [], ◌∷◌, map}
use cluster_runner_jie.Prelude.Dict.{Dict}
use cluster_runner_jie.Errors.{Result, ok, err}
use cluster_runner_jie.Master.Subjob.{Atom, new_atom, Subjob, new_subjob}
use cluster_runner_jie.Master.Grouping.Arithmetic.{Floats, Float}
use cluster_runner_jie.Master.Grouping.{atom_groupings, groupings}

-- `enumerate(subjob_atoms)`
unfoldable pub number_atoms : ℕ → List Atom → List Atom
number_atoms i [] = []
number_atoms i (a ∷ as') = record a { atom_id = some i } ∷ number_atoms (i + 1) as'

-- `enumerate(grouped_atoms)`
unfoldable pub number_subjobs : ℕ → String → ℕ → List (List Atom) → List Subjob
unfolding number_atoms
number_subjobs build_id command i [] = []
number_subjobs build_id command i (group ∷ groups) =
    new_subjob build_id i command (number_atoms 0 group)
    ∷ number_subjobs build_id command (i + 1) groups

-- The timing file is missing or cannot be read (`none`), or holds a dictionary.
unfoldable pub grouped_atoms :
    Floats → List Atom → ℕ → Option (Dict String Float) → Result (List (List Atom))
unfolding atom_groupings groupings
grouped_atoms fl atoms max_executors none = ok (atom_groupings atoms)
grouped_atoms fl atoms max_executors (some []) = ok (atom_groupings atoms)
grouped_atoms fl atoms max_executors (some (e ∷ times)) =
    groupings fl atoms max_executors (e ∷ times)

abbrev pub map_result : {A B : Type 0} → (A → B) → Result A → Result B
map_result f (ok a) = ok (f a)
map_result f (err e) = err e

-- The atoms to run: those of the override, or what the atomizer returns or raises.
unfoldable pub atoms_list : Option (List String) → Result (List Atom) → Result (List Atom)
atoms_list none atomized = atomized
atoms_list (some strings) atomized = ok (map new_atom strings)

unfoldable pub compute_subjobs_for_build :
    Floats
    → ℕ
    → String
    → ℕ
    → Option (List String)
    → Result (List Atom)
    → Option (Dict String Float)
    → Result (List Subjob)
unfolding grouped_atoms number_subjobs atoms_list
compute_subjobs_for_build fl build_id command max_executors override atomized timing =
    elim (atoms_list override atomized) [
      | err e ↦ err e
      | ok atoms ↦
          map_result (number_subjobs build_id command 0)
            (grouped_atoms fl atoms max_executors timing)
    ]
