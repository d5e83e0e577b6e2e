-- ===== src/Master/Grouping.antt =====
-- app/master/atom_grouper.py, app/master/time_based_atom_grouper.py and, in Grouping.Subjobs,
-- app/master/subjob_calculator.py. Atoms are distinct objects, and so distinct keys of the ordered
-- dictionary of the atoms that are left: it is the list of its items. An iteration of it goes on
-- behind an item that its body has popped, as that of CPython 3.4's OrderedDict does.
pub mod Arithmetic
pub mod Subjobs
pub mod Pass
pub mod Buckets
pub mod Partition
pub mod Numbering
mod Examples
use cluster_runner_jie.Prelude.{
  ℕ, zero, suc, ◌+◌, ◌*◌, Bool, true, false, not, ◌&&◌, ◌||◌, Option, none, some, String, List, [],
  ◌∷◌, ◌++◌, map, length, ltb, leb, ◌==◌, if◌then◌else◌,
}
use cluster_runner_jie.Prelude.Dict.{Dict, lookup, String_eq}
use cluster_runner_jie.Errors.{Error, zero_division, atom_timing_data, Result, ok, err}
use cluster_runner_jie.Master.Subjob.{Atom}
use cluster_runner_jie.Master.Grouping.Arithmetic.{Floats, Float}

abbrev pub singleton : {A : Type 0} → A → List A
singleton a = a ∷ []

-- `AtomGrouper.groupings`
unfoldable pub atom_groupings : List Atom → List (List Atom)
atom_groupings atoms = map singleton atoms

-- The first loop of `_set_expected_atom_times`, and what it has added up.
pub record Known : Type 0 where
  pub total_time : Float
  pub max_atom_time : Float
  pub without_timing_data : ℕ

-- An entry of the ordered dictionary: an atom and its expected time.
abbrev pub Item : Type 0
Item = Atom × Float

-- How a pass of the inner loop ends: at the end of the dictionary, or with as few atoms left as
-- there are groups to create. Both have the group and what is left.
pub data Passed : Type 0 where
  full : List Item → List Item → Passed
  split : List Item → List Item → Passed

abbrev pub at_most : ℕ → Option ℕ → Bool
at_most n none = false
at_most n (some max_groups) = leb n max_groups

abbrev pub below : ℕ → Option ℕ → Bool
below n none = true
below n (some max_groups) = ltb n max_groups

abbrev pub is_empty {ℓ} : {A : Type ℓ} → List A → Bool
is_empty [] = true
is_empty (x ∷ xs) = false

module _ (fl : Floats) where
  unfoldable pub scan : Dict String Float → List Atom → Known → List Atom × Known
  scan times [] k = ([], k)
  scan times (a ∷ as') k = elim (lookup a.command_string times) [
    | none ↦
        let (rest, k') =
          scan times as' (record k { without_timing_data = k.without_timing_data + 1 }) in
        (a ∷ rest, k')
    | some t ↦
        let (rest, k') = scan times as' (record k {
          total_time = fl.add k.total_time t;
          max_atom_time = if fl.lt k.max_atom_time t then t else k.max_atom_time;
        }) in
        (record a { expected_time = some t } ∷ rest, k')
  ]

  -- The second loop, over the atoms that have no timing data.
  unfoldable pub set_max_time : Dict String Float → Float → List Atom → List Atom
  set_max_time times t [] = []
  set_max_time times t (a ∷ as') = elim (lookup a.command_string times) [
    | none ↦ record a { expected_time = some t } ∷ set_max_time times t as'
    | some u ↦ a ∷ set_max_time times t as'
  ]

  unfoldable pub set_expected_atom_times : List Atom → Dict String Float → List Atom × Result Float
  unfolding scan set_max_time
  set_expected_atom_times atoms times =
      let (known, k) =
        scan times atoms
          (record { total_time = fl.zero; max_atom_time = fl.zero; without_timing_data = 0 }) in
      (
        set_max_time times k.max_atom_time known,
        (if length atoms == k.without_timing_data
            then err atom_timing_data
            else ok
                (fl.add k.total_time (fl.mul k.max_atom_time (fl.of_int k.without_timing_data)))),
      )

  -- The inner loop: `n` groups are done, `kept` are the atoms that it left behind.
  unfoldable pub pass : Option ℕ → ℕ → Float → List Item → List Item → Float → List Item → Passed
  pass max_groups n target [] kept so_far group = full group kept
  pass max_groups n target ((a, time) ∷ items) kept so_far group =
      elim (is_empty group || fl.le (fl.add time so_far) target) [
        | true ↦ elim (at_most (n + length (kept ++ items) + 1) max_groups) [
          | true ↦ split (group ++ (a, time) ∷ []) (kept ++ items)
          | false ↦
              pass max_groups n target items kept (fl.add so_far time) (group ++ (a, time) ∷ [])
        ]
        | false ↦ pass max_groups n target items (kept ++ (a, time) ∷ []) so_far group
      ]

  -- The outer loop, on fuel: a pass takes one atom at least.
  unfoldable pub buckets :
      ℕ → Option ℕ → Float → List (List Item) → List Item → List (List Item) × List Item
  unfolding pass
  buckets zero max_groups target subjobs items = (subjobs, items)
  buckets (suc fuel) max_groups target subjobs items =
      elim (below (length subjobs) max_groups && not (is_empty items)) [
        | true ↦ elim (pass max_groups (length subjobs) target items [] fl.zero []) [
          | full group left ↦ buckets fuel max_groups target (subjobs ++ group ∷ []) left
          | split group left ↦ ((subjobs ++ group ∷ []) ++ map singleton left, [])
        ]
        | false ↦ (subjobs, items)
      ]

  -- The groups, and what is left in the dictionary.
  unfoldable pub group_atoms_into_sized_buckets :
      List Item → Float → Option ℕ → List (List Item) × List Item
  unfolding buckets
  group_atoms_into_sized_buckets items target max_groups =
      buckets (length items) max_groups target [] items

  -- `sorted(..., reverse=True)` is stable: an atom comes before those of the same time behind it.
  abbrev pub time_of : Atom → Float
  time_of a = elim a.expected_time [ none ↦ fl.zero | some t ↦ t ]

  unfoldable pub insert_by_time : Atom → List Atom → List Atom
  insert_by_time a [] = a ∷ []
  insert_by_time a (b ∷ bs) =
      let rest = insert_by_time a bs in
      if fl.lt (time_of a) (time_of b) then b ∷ rest else a ∷ b ∷ bs

  unfoldable pub by_decreasing_time : List Atom → List Atom
  unfolding insert_by_time
  by_decreasing_time [] = []
  by_decreasing_time (a ∷ as') = insert_by_time a (by_decreasing_time as')

  unfoldable pub big_subjob_time : Float → ℕ → Float
  big_subjob_time total n = fl.div (fl.mul total fl.big_chunk_fraction) (fl.of_int n)

  unfoldable pub small_subjob_time : Float → ℕ → Float
  small_subjob_time total n =
      fl.div (fl.mul total (fl.sub fl.one fl.big_chunk_fraction)) (fl.of_int (2 * n))

  abbrev pub items_of : List Atom → List Item
  items_of = map (λ a. (a, time_of a))

  abbrev pub atoms_of : List Item → List Atom
  atoms_of = map (λ i. i.0)

  unfoldable pub time_based_groups : List Atom → ℕ → Float → List (List Atom)
  unfolding group_atoms_into_sized_buckets by_decreasing_time big_subjob_time small_subjob_time
  time_based_groups atoms max_executors total =
      let left = items_of (by_decreasing_time atoms) in
      let (subjobs, left') =
        group_atoms_into_sized_buckets left (big_subjob_time total max_executors)
          (some max_executors) in
      let (small_subjobs, left'') =
        group_atoms_into_sized_buckets left' (small_subjob_time total max_executors) none in
      map atoms_of (subjobs ++ small_subjobs)

  -- `TimeBasedAtomGrouper.groupings`: without any timing data, every atom is a group.
  unfoldable pub groupings : List Atom → ℕ → Dict String Float → Result (List (List Atom))
  unfolding set_expected_atom_times atom_groupings time_based_groups
  groupings atoms max_executors times =
      let (timed, r) = set_expected_atom_times atoms times in
      elim r [
        | err e ↦ ok (atom_groupings timed)
        | ok total ↦
            if max_executors == 0
            then err zero_division
            else ok (time_based_groups timed max_executors total)
      ]
