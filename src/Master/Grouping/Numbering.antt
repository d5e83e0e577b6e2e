-- ===== src/Master/Grouping/Numbering.antt =====
-- The subjobs of a build, and the ids of subjobs and atoms.
use cluster_runner_jie.Prelude.{
  ℕ, ◌+◌, ◌≡◌, ◌≢◌, refl, sym, ap, subst, ◌∙◌, Option, none, some, String, List, [], ◌∷◌, ◌++◌,
  flatten,
}
use cluster_runner_jie.Prelude.Dict.{Dict}
use mathlib.Core.List.{Perm}
use mathlib.Core.List.Perm
use cluster_runner_jie.Errors.{Result, ok}
use cluster_runner_jie.Master.Subjob.{
  Atom, not_started, Subjob, new_subjob, set_atom_state, set_atoms_subjob_id,
}
use cluster_runner_jie.Master.Grouping.Arithmetic.{Floats, Float}
use cluster_runner_jie.Master.Grouping.{atom_groupings}
use cluster_runner_jie.Master.Grouping.Buckets.{flatten-singletons}
use cluster_runner_jie.Master.Grouping.Partition.{commands, groupings-Perm}
use cluster_runner_jie.Master.Grouping.Subjobs.{
  number_atoms, number_subjobs, grouped_atoms, atoms_list, compute_subjobs_for_build,
}

-- The atoms are those of a new subjob `i`: NOT_STARTED, with their positions as ids, from `k` on.
abbrev pub AreNumbered : ℕ → ℕ → List Atom → Type 0
AreNumbered i k [] = Unit
AreNumbered i k (a ∷ as') =
    ((a.atom_id ≡ some k) × (a.subjob_id ≡ some i) × (a.state ≡ some not_started))
    × AreNumbered i (k + 1) as'

-- The subjobs have the ids from `i` on, and their atoms are numbered.
abbrev pub AreSubjobs : ℕ → ℕ → List Subjob → Type 0
AreSubjobs build_id i [] = Unit
AreSubjobs build_id i (s ∷ ss) =
    ((s.build_id ≡ build_id) × (s.subjob_id ≡ i) × AreNumbered i 0 s.atoms)
    × AreSubjobs build_id (i + 1) ss

abbrev pub all_commands : List Subjob → List String
all_commands [] = []
all_commands (s ∷ ss) = commands s.atoms ++ all_commands ss

number_atoms-AreNumbered :
    (i k : ℕ) (atoms : List Atom)
    → AreNumbered i k (set_atom_state not_started (set_atoms_subjob_id i (number_atoms k atoms)))
unfolding number_atoms set_atom_state set_atoms_subjob_id
number_atoms-AreNumbered i k [] = tt
number_atoms-AreNumbered i k (a ∷ as') =
    ((refl, refl, refl), number_atoms-AreNumbered i (k + 1) as')

number_atoms-commands :
    (i k : ℕ) (atoms : List Atom)
    → commands (set_atom_state not_started (set_atoms_subjob_id i (number_atoms k atoms)))
      ≡ commands atoms
unfolding number_atoms set_atom_state set_atoms_subjob_id
number_atoms-commands i k [] = refl
number_atoms-commands i k (a ∷ as') =
    ap (λ l. a.command_string ∷ l) (number_atoms-commands i (k + 1) as')

commands-append : (xs ys : List Atom) → commands (xs ++ ys) ≡ commands xs ++ commands ys
commands-append [] ys = refl
commands-append (x ∷ xs) ys = ap (λ l. x.command_string ∷ l) (commands-append xs ys)

module _ (build_id : ℕ) (command : String) where
  number_subjobs-AreSubjobs :
      (i : ℕ) (groups : List (List Atom))
      → AreSubjobs build_id i (number_subjobs build_id command i groups)
  unfolding number_subjobs new_subjob
  number_subjobs-AreSubjobs i [] = tt
  number_subjobs-AreSubjobs i (g ∷ gs) =
      ((refl, refl, number_atoms-AreNumbered i 0 g), number_subjobs-AreSubjobs (i + 1) gs)

  number_subjobs-commands :
      (i : ℕ) (groups : List (List Atom))
      → all_commands (number_subjobs build_id command i groups) ≡ commands (flatten groups)
  unfolding number_subjobs new_subjob mathlib.Core.List.flatten
  number_subjobs-commands i [] = refl
  number_subjobs-commands i (g ∷ gs) =
      ap (λ l. l ++ all_commands (number_subjobs build_id command (i + 1) gs))
        (number_atoms-commands i 0 g)
      ∙ ap (λ l. commands g ++ l) (number_subjobs-commands (i + 1) gs)
      ∙ sym (commands-append g (flatten gs))

grouped_atoms-Perm :
    (fl : Floats) (atoms : List Atom) (n : ℕ) (timing : Option (Dict String Float))
    → n ≢ 0
    → (gs : List (List Atom)) × (grouped_atoms fl atoms n timing ≡ ok gs)
      × Perm (commands (flatten gs)) (commands atoms)
unfolding grouped_atoms atom_groupings
grouped_atoms-Perm fl atoms n none h = (
  _,
  refl,
  subst (λ l. Perm (commands l) (commands atoms)) (sym (flatten-singletons atoms)) (Perm.refl _),
)
grouped_atoms-Perm fl atoms n (some []) h = (
  _,
  refl,
  subst (λ l. Perm (commands l) (commands atoms)) (sym (flatten-singletons atoms)) (Perm.refl _),
)
grouped_atoms-Perm fl atoms n (some (e ∷ times)) h = groupings-Perm fl atoms n (e ∷ times) h

-- With one executor at least, and atoms from the override or the atomizer, the build gets subjobs
-- numbered from 0 on, in each of which the atoms are NOT_STARTED and numbered from 0 on. Together
-- they hold the commands of the atoms, each as often as it occurs there.
pub compute_subjobs_for_build_lem :
    (fl : Floats) (build_id : ℕ) (command : String) (n : ℕ) (override : Option (List String))
    (atomized : Result (List Atom)) (timing : Option (Dict String Float)) (atoms : List Atom)
    → n ≢ 0
    → atoms_list override atomized ≡ ok atoms
    → (ss : List Subjob) × (compute_subjobs_for_build fl build_id command n override atomized timing
        ≡ ok ss)
      × AreSubjobs build_id 0 ss
      × Perm (all_commands ss) (commands atoms)
unfolding compute_subjobs_for_build
compute_subjobs_for_build_lem fl build_id command n override atomized timing atoms h found =
    let (gs, e, p) = grouped_atoms-Perm fl atoms n timing h in
    (
      number_subjobs build_id command 0 gs,
      rw (compute_subjobs_for_build, found, e) refl,
      number_subjobs-AreSubjobs build_id command 0 gs,
      subst (λ l. Perm l (commands atoms)) (sym (number_subjobs-commands build_id command 0 gs)) p,
    )
