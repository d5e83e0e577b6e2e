-- ===== src/Master/Atomizer.antt =====
-- app/master/atomizer.py: the atoms of a project are the lines that its atomizers write.
mod Examples
use cluster_runner_jie.Prelude.{
  String, List, [], ◌∷◌, ◌++◌, map, ◌≡◌, ◌≢◌, refl, sym, ap, ◌∙◌, arith, Bool, true, false,
  Bool-cases, inl, inr, if◌then◌else◌, not, All,
}
use cluster_runner_jie.Prelude.Int.{ℤ, pos, eqb_ℤ}
use cluster_runner_jie.Prelude.Dict.{Dict}
use cluster_runner_jie.Errors.{Error, atomizer_error, Result, ok, err, ◌>>=◌}
use mathlib.Core.List.{append_assoc, append-nil, flatten}

-- What the commands of the project come to: their output in lines, with the directory of the project
-- replaced by its variable in each, and the exit code; and the command that sets a variable.
pub record Project : Type 0 where
  pub output_lines : String → List String
  pub exit_code : String → ℤ
  pub with_project_dir : String → String
  pub setter_command : String → String → String

then_fails :
    {A B : Type 0} (r : Result A) (f : A → Result B)
    → ((x : Error) → r ≡ err x → x ≡ atomizer_error)
    → ((a : A) → f a ≡ err atomizer_error)
    → (r >>= f) ≡ err atomizer_error
then_fails (ok a) f only fails = fails a
then_fails (err x) f only fails = ap err (only x refl)

module _ (p : Project) where
  unfoldable pub new_atoms : String → List String → List String
  new_atoms name [] = []
  new_atoms name (line ∷ lines) =
      p.setter_command name (p.with_project_dir line) ∷ new_atoms name lines

  -- The loop over one dictionary: `atoms` is the list so far.
  unfoldable pub atomize_dict : List String → Dict String String → Result (List String)
  unfolding new_atoms
  atomize_dict atoms [] = ok atoms
  atomize_dict atoms ((name, command) ∷ rest) =
      let more = atomize_dict (atoms ++ new_atoms name (p.output_lines command)) rest in
      if not (eqb_ℤ (p.exit_code command) (pos 0)) then err atomizer_error else more

  unfoldable pub atomize_from : List String → List (Dict String String) → Result (List String)
  unfolding atomize_dict
  atomize_from atoms [] = ok atoms
  atomize_from atoms (d ∷ dicts) = atomize_dict atoms d >>= λ atoms'. atomize_from atoms' dicts

  unfoldable pub atomize_in_project : List (Dict String String) → Result (List String)
  unfolding atomize_from
  atomize_in_project dicts = atomize_from [] dicts

  -- The atoms of one entry of the atomizers.
  abbrev pub atoms_of : String × String → List String
  atoms_of (name, command) =
      map (λ line. p.setter_command name (p.with_project_dir line)) (p.output_lines command)

  dict_atoms : Dict String String → List String
  dict_atoms d = flatten (map atoms_of d)

  abbrev pub Succeeds : String × String → Type 0
  Succeeds (name, command) = p.exit_code command ≡ pos 0

  new_atoms-map :
      (name : String) (lines : List String)
      → new_atoms name lines ≡ map (λ line. p.setter_command name (p.with_project_dir line)) lines
  unfolding new_atoms
  new_atoms-map name [] = refl
  new_atoms-map name (line ∷ lines) =
      ap (λ xs. p.setter_command name (p.with_project_dir line) ∷ xs) (new_atoms-map name lines)

  atomize_dict-ok :
      (d : Dict String String) (atoms : List String)
      → All Succeeds d
      → atomize_dict atoms d ≡ ok (atoms ++ dict_atoms d)
  unfolding atomize_dict dict_atoms flatten
  atomize_dict-ok [] atoms h = ap ok (sym (append-nil atoms))
  atomize_dict-ok ((name, command) ∷ d) atoms h =
      rw (h.0, new_atoms-map name (p.output_lines command))
        (atomize_dict-ok d (atoms ++ atoms_of (name, command)) h.1
          ∙ ap ok (append_assoc atoms (atoms_of (name, command)) (dict_atoms d)))

  atomize_dict-err :
      (before after : Dict String String) (e : String × String) (atoms : List String)
      → p.exit_code e.1 ≢ pos 0
      → atomize_dict atoms (before ++ e ∷ after) ≡ err atomizer_error
  unfolding atomize_dict
  atomize_dict-err [] after e atoms n = ground arith
  atomize_dict-err ((name, command) ∷ before) after e atoms n =
      ground (
        arith,
        atomize_dict-err before after e (atoms ++ new_atoms name (p.output_lines command)) n,
      )

  atomize_from-ok :
      (dicts : List (Dict String String)) (atoms : List String)
      → All (All Succeeds) dicts
      → atomize_from atoms dicts ≡ ok (atoms ++ flatten (map dict_atoms dicts))
  unfolding atomize_from flatten
  atomize_from-ok [] atoms h = ap ok (sym (append-nil atoms))
  atomize_from-ok (d ∷ dicts) atoms h =
      ap (λ r. r >>= λ xs. atomize_from xs dicts) (atomize_dict-ok d atoms h.0)
      ∙ atomize_from-ok dicts (atoms ++ dict_atoms d) h.1
      ∙ ap ok (append_assoc atoms (dict_atoms d) (flatten (map dict_atoms dicts)))

  atomize_dict-error :
      (d : Dict String String) (atoms : List String) (x : Error)
      → atomize_dict atoms d ≡ err x
      → x ≡ atomizer_error
  unfolding atomize_dict
  atomize_dict-error [] atoms x q = cc
  atomize_dict-error ((name, command) ∷ d) atoms x q =
      ground (arith, atomize_dict-error d (atoms ++ new_atoms name (p.output_lines command)) x)

  atomize_from-err :
      (ds ds' : List (Dict String String)) (before after : Dict String String) (e : String × String)
      (atoms : List String)
      → p.exit_code e.1 ≢ pos 0
      → atomize_from atoms (ds ++ (before ++ e ∷ after) ∷ ds') ≡ err atomizer_error
  unfolding atomize_from
  atomize_from-err [] ds' before after e atoms n =
      ap (λ r. r >>= λ xs. atomize_from xs ds') (atomize_dict-err before after e atoms n)
  atomize_from-err (d ∷ ds) ds' before after e atoms n =
      then_fails (atomize_dict atoms d) (λ xs. atomize_from xs (ds ++ (before ++ e ∷ after) ∷ ds'))
        (atomize_dict-error d atoms) (λ xs. atomize_from-err ds ds' before after e xs n)

  -- If all commands of the atomizers succeed, each line that they write is an atom, in the order of
  -- the commands and of their lines. If one of them fails, there are no atoms but an error.
  pub atomize_in_project_lem :
      (dicts : List (Dict String String))
      → (All (All Succeeds) dicts
          → atomize_in_project dicts ≡ ok (flatten (map (λ d. flatten (map atoms_of d)) dicts)))
        × ((ds ds' : List (Dict String String)) (before after : Dict String String)
              (e : String × String)
            → dicts ≡ ds ++ (before ++ e ∷ after) ∷ ds'
            → p.exit_code e.1 ≢ pos 0
            → atomize_in_project dicts ≡ err atomizer_error)
  unfolding atomize_in_project dict_atoms
  atomize_in_project_lem dicts = (
    atomize_from-ok dicts [],
    λ ds ds' before after e q n.
        ap (atomize_from []) q ∙ atomize_from-err ds ds' before after e [] n,
  )
