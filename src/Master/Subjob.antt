-- ===== src/Master/Subjob.antt =====
-- app/master/atom.py and app/master/subjob.py. Times are floats, as the patterns of their 64 bits;
-- paths, the timings on disk and the logger are left out.
use cluster_runner_jie.Prelude.{ℕ, Option, none, some, String, List, [], ◌∷◌, length}
use cluster_runner_jie.Prelude.Int.{ℤ}
use cluster_runner_jie.Util.Pagination.{get_paginated_indices, slice}

pub data AtomState : Type 0 where
  not_started in_progress completed : AtomState

pub record Atom : Type 0 where
  pub command_string : String
  pub expected_time : Option ℕ
  pub actual_time : Option ℕ
  pub exit_code : Option ℤ
  pub state : Option AtomState
  pub atom_id : Option ℕ
  pub subjob_id : Option ℕ

-- `Atom(command_string)`
abbrev pub new_atom : String → Atom
new_atom s = record {
  command_string = s;
  expected_time = none;
  actual_time = none;
  exit_code = none;
  state = none;
  atom_id = none;
  subjob_id = none;
}

pub record Subjob : Type 0 where
  pub build_id : ℕ
  pub subjob_id : ℕ
  pub command : String
  pub atoms : List Atom
  -- the id of the slave that has been assigned this subjob
  pub slave : Option ℕ

unfoldable pub set_atom_state : AtomState → List Atom → List Atom
set_atom_state s [] = []
set_atom_state s (a ∷ as') = record a { state = some s } ∷ set_atom_state s as'

unfoldable pub set_atoms_subjob_id : ℕ → List Atom → List Atom
set_atoms_subjob_id i [] = []
set_atoms_subjob_id i (a ∷ as') = record a { subjob_id = some i } ∷ set_atoms_subjob_id i as'

-- `Subjob.__init__`
unfoldable pub new_subjob : ℕ → ℕ → String → List Atom → Subjob
unfolding set_atom_state set_atoms_subjob_id
new_subjob build_id subjob_id command atoms = record {
  build_id = build_id;
  subjob_id = subjob_id;
  command = command;
  atoms = set_atom_state not_started (set_atoms_subjob_id subjob_id atoms);
  slave = none;
}

unfoldable pub mark_in_progress : ℕ → Subjob → Subjob
unfolding set_atom_state
mark_in_progress slave s = record s {
  atoms = set_atom_state in_progress s.atoms;
  slave = some slave;
}

unfoldable pub mark_completed : Subjob → Subjob
unfolding set_atom_state
mark_completed s = record s { atoms = set_atom_state completed s.atoms }

unfoldable pub get_atoms : Option ℤ → Option ℤ → Subjob → List Atom
unfolding get_paginated_indices slice
get_atoms offset limit s = slice (get_paginated_indices offset limit (length s.atoms)) s.atoms
