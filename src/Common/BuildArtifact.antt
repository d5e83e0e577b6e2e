-- ===== src/Common/BuildArtifact.antt =====
-- app/common/build_artifact.py: the directories of atoms in a build's directory, and the file with
-- the atoms' times. A directory lists, in the order of `os.listdir`, which may be any, the names in
-- it, with what `int` makes of the file with the exit code, if it is there; what the object keeps after it has read them once is read again here.
pub mod Timing
mod Examples
use cluster_runner_jie.Prelude.{
  ℕ, Bool, true, false, not, Option, none, some, String, List, [], ◌∷◌, length, ◌==◌, if◌then◌else◌,
  ◌≡◌,
}
use cluster_runner_jie.Prelude.Int.{ℤ, pos, negsuc}
use cluster_runner_jie.Prelude.Dict.{Dict, insert, Eq, String_eq}
use cluster_runner_jie.Errors.{Error, runtime_error, value_error, Result, ok, err, ◌>>=◌}

-- `ATOM_DIR_FORMAT.format`, the test for the prefix, and the two numbers that the pattern finds.
pub record Names : Type 0 where
  pub format : ℕ → ℕ → String
  pub has_prefix : String → Bool
  pub match_ids : String → Option (ℕ × ℕ)

-- Names that are formatted have the prefix, and the pattern finds their numbers.
pub record IsFormat (names : Names) : Type 0 where
  pub prefixed : (s a : ℕ) → names.has_prefix (names.format s a) ≡ true
  pub matched : (s a : ℕ) → names.match_ids (names.format s a) ≡ some (s, a)

abbrev pub Directory : Type 0
Directory = Dict String (Option (Result ℤ))

abbrev pub is_zero : ℤ → Bool
is_zero (pos n) = n == 0
is_zero (negsuc n) = false

abbrev pub is_atom_artifact_dir : Names → String → Bool
is_atom_artifact_dir names d = names.has_prefix d

abbrev pub and_first : String → Result (List String) → Result (List String)
and_first d (err e) = err e
and_first d (ok ds) = ok (d ∷ ds)

-- Of one atom's directory, before those of the others.
abbrev pub if_failed : String → Option (Result ℤ) → Result (List String) → Result (List String)
if_failed d none rest = rest
if_failed d (some (err e)) rest = err e
if_failed d (some (ok c)) rest = if is_zero c then rest else and_first d rest

unfoldable pub failed_in : Names → Directory → Result (List String)
failed_in names [] = ok []
failed_in names ((d, c) ∷ ds) =
    let rest = failed_in names ds in
    if is_atom_artifact_dir names d then if_failed d c rest else rest

-- `none` for a directory that is not there
unfoldable pub get_failed_artifact_directories : Names → Option Directory → Result (List String)
unfolding failed_in
get_failed_artifact_directories names none = err runtime_error
get_failed_artifact_directories names (some ds) = failed_in names ds

unfoldable pub subjob_and_atom_ids : Names → String → Result (ℕ × ℕ)
subjob_and_atom_ids names d = elim (names.match_ids d) [ none ↦ err value_error | some p ↦ ok p ]

unfoldable pub ids_of : Names → List String → Result (List (ℕ × ℕ))
unfolding subjob_and_atom_ids
ids_of names [] = ok []
ids_of names (d ∷ ds) =
    subjob_and_atom_ids names d >>= (λ p. ids_of names ds >>= (λ ps. ok (p ∷ ps)))

unfoldable pub get_failed_subjob_and_atom_ids : Names → Option Directory → Result (List (ℕ × ℕ))
unfolding get_failed_artifact_directories ids_of
get_failed_subjob_and_atom_ids names ds = get_failed_artifact_directories names ds >>= ids_of names

-- The lines of `failures.txt`, if it is written.
unfoldable pub generate_failures_file : Names → Option Directory → Result (Option (List String))
unfolding get_failed_artifact_directories
generate_failures_file names ds =
    get_failed_artifact_directories names ds
    >>= (λ failed. ok (if length failed == 0 then none else some failed))

-- `dict.update`
unfoldable pub update : {V : Type 0} → Dict String V → Dict String V → Dict String V
update old [] = old
update old ((k, v) ∷ new) = update (insert k v old) new

-- The file of times, if it is there, and what the JSON reader makes of it: `none` if it raises.
abbrev pub TimingFile : Type 0 → Type 0
TimingFile V = Option (Option (Dict String V))

unfoldable pub update_timing_file :
    {V : Type 0} → Option (Dict String V) → Dict String V → Result (TimingFile V)
unfolding update
update_timing_file none new = err value_error
update_timing_file (some old) new = ok (some (some (update old new)))

abbrev pub if_passed :
    {V : Type 0} → Option (Dict String V) → Dict String V → List String → Result (TimingFile V)
if_passed old new [] = update_timing_file old new
if_passed old new (d ∷ ds) = ok (some old)

unfoldable pub write_timing_data :
    {V : Type 0} → Names → Option Directory → TimingFile V → Dict String V → Result (TimingFile V)
unfolding get_failed_artifact_directories update_timing_file
write_timing_data names ds file [] = ok file
write_timing_data names ds none (t ∷ ts) = ok (some (some (t ∷ ts)))
write_timing_data names ds (some old) (t ∷ ts) =
    get_failed_artifact_directories names ds >>= if_passed old (t ∷ ts)
