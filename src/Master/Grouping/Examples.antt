-- ===== src/Master/Grouping/Examples.antt =====
-- Four atoms on two executors, with times in tenths of a second in place of floats.
use cluster_runner_jie.Prelude.{
  ◌+◌, ◌-◌, ◌*◌, ◌/◌, ◌≡◌, refl, none, some, String, List, [], ◌∷◌, map, flatten, ltb, leb, length,
  arith,
}
use cluster_runner_jie.Prelude.Dict.{Dict, lookup}
use mathlib.Core.List.{Perm}
use cluster_runner_jie.Errors.{ok, err}
use cluster_runner_jie.Master.Subjob.{Atom, new_atom, Subjob}
use cluster_runner_jie.Master.Grouping.Arithmetic.{Floats, Float}
use cluster_runner_jie.Master.Grouping.{
  Item, group_atoms_into_sized_buckets, buckets, pass, scan, set_max_time, set_expected_atom_times,
  insert_by_time, by_decreasing_time, big_subjob_time, small_subjob_time, time_based_groups,
  groupings,
}
use cluster_runner_jie.Master.Grouping.Partition.{group_atoms-IsGrouped, groupings-Perm, commands}
use cluster_runner_jie.Master.Grouping.Subjobs.{compute_subjobs_for_build, atoms_list}
use cluster_runner_jie.Master.Grouping.Numbering.{
  compute_subjobs_for_build_lem, AreSubjobs, all_commands,
}

abbrev tenths : Floats
tenths = record {
  zero = 0;
  one = 10;
  big_chunk_fraction = 8;
  of_int = λ n. n * 10;
  add = λ a b. a + b;
  sub = λ a b. a - b;
  mul = λ a b. a * b / 10;
  div = λ a b. a * 10 / b;
  lt = ltb;
  le = leb;
  add_comm = λ a b. omega arith;
}

abbrev atom : String → Atom
atom s = new_atom s

abbrev four : List Atom
four = atom "a" ∷ atom "b" ∷ atom "c" ∷ atom "d" ∷ []

abbrev times : Dict String Float
times = ("a", 10) ∷ ("b", 50) ∷ ("c", 30) ∷ []

abbrev items : List Item
items = map (λ a. (a, 20)) four

-- The atom without a time counts as the longest one.
groups_of_four :
    (elim (groupings tenths four 2 times) [ ok gs ↦ map commands gs | err e ↦ [] ])
    ≡ ("b" ∷ []) ∷ ("d" ∷ []) ∷ ("c" ∷ []) ∷ ("a" ∷ []) ∷ []
unfolding groupings set_expected_atom_times scan set_max_time lookup time_based_groups
    by_decreasing_time insert_by_time group_atoms_into_sized_buckets buckets pass big_subjob_time
    small_subjob_time
groups_of_four = refl

group_atoms-IsGrouped_example :
    length (group_atoms_into_sized_buckets tenths items 40 (some 2)).0 ≡ 2
group_atoms-IsGrouped_example =
    (group_atoms-IsGrouped tenths items 40 (some 2)).count 2 refl (omega arith)

groupings-Perm_example :
    (gs : List (List Atom)) × (groupings tenths four 2 times ≡ ok gs)
    × Perm (commands (flatten gs)) ("a" ∷ "b" ∷ "c" ∷ "d" ∷ [])
groupings-Perm_example = groupings-Perm tenths four 2 times (λ e. absurd (omega arith))

compute_subjobs_for_build_lem_example :
    (ss : List Subjob) × (compute_subjobs_for_build tenths 7 "make" 2 none (ok four) (some times)
      ≡ ok ss)
    × AreSubjobs 7 0 ss
    × Perm (all_commands ss) ("a" ∷ "b" ∷ "c" ∷ "d" ∷ [])
unfolding atoms_list
compute_subjobs_for_build_lem_example =
    compute_subjobs_for_build_lem tenths 7 "make" 2 none (ok four) (some times) four
      (λ e. absurd (omega arith)) refl
