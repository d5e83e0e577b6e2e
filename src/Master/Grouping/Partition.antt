-- ===== src/Master/Grouping/Partition.antt =====
-- Every atom is in one group.
use cluster_runner_jie.Prelude.{
  ℕ, ◌≡◌, ◌≢◌, refl, sym, ap, subst, ◌∙◌, inl, inr, Option, none, some, String, List, [], ◌∷◌, ◌++◌,
  arith, length, Bool-cases, Option-cases, map, flatten, ==_iff,
}
use cluster_runner_jie.Prelude.Dict.{Dict, lookup, String_eq}
use mathlib.Core.List.{Perm, append-nil, map-append}
use mathlib.Core.List.Perm
use cluster_runner_jie.Errors.{Result, ok, err}
use cluster_runner_jie.Master.Subjob.{Atom}
use cluster_runner_jie.Master.Grouping.Arithmetic.{Floats, Float}
use cluster_runner_jie.Master.Grouping.{
  Item, Known, atom_groupings, scan, set_max_time, set_expected_atom_times,
  group_atoms_into_sized_buckets, time_of, insert_by_time, by_decreasing_time, big_subjob_time,
  small_subjob_time, items_of, atoms_of, time_based_groups, groupings,
}
use cluster_runner_jie.Master.Grouping.Buckets.{
  IsGrouped, buckets-IsGrouped, flatten-append, flatten-singletons,
}

-- The groups are made of the atoms, each used once: what is not in a group is left. Each group is a
-- single atom or takes at most the target time. With a limit there are as many groups as the limit
-- says, or as there are atoms if those are fewer; atoms are left only if the limit is reached.
pub group_atoms-IsGrouped :
    (fl : Floats) (items : List Item) (target : Float) (max_groups : Option ℕ)
    → IsGrouped fl max_groups target [] items
        (group_atoms_into_sized_buckets fl items target max_groups)
unfolding group_atoms_into_sized_buckets
group_atoms-IsGrouped fl items target max_groups =
    buckets-IsGrouped fl max_groups target (length items) [] items (omega arith)

abbrev pub commands : List Atom → List String
commands = map (λ a. a.command_string)

map-flatten :
    {A B : Type 0} (f : A → B) (xs : List (List A)) → flatten (map (map f) xs) ≡ map f (flatten xs)
unfolding mathlib.Core.List.flatten
map-flatten f [] = refl
map-flatten f (x ∷ xs) =
    ap (λ l. map f x ++ l) (map-flatten f xs) ∙ sym (map-append f x (flatten xs))

from_none : (xs items : List Item) → Perm xs (flatten [] ++ items) → Perm xs items
unfolding mathlib.Core.List.flatten
from_none xs items p = p

module _ (fl : Floats) where
  scan-commands :
      (times : Dict String Float) (atoms : List Atom) (k : Known)
      → commands (scan fl times atoms k).0 ≡ commands atoms
  unfolding scan
  scan-commands times [] k = refl
  scan-commands times (a ∷ as') k = elim (Option-cases (lookup a.command_string times)) [
    | inl h ↦ rw (scan, h) (ap (λ l. a.command_string ∷ l) (scan-commands times as' _))
    | inr (u, h) ↦ rw (scan, h) (ap (λ l. a.command_string ∷ l) (scan-commands times as' _))
  ]

  set_max_time-commands :
      (times : Dict String Float) (t : Float) (atoms : List Atom)
      → commands (set_max_time fl times t atoms) ≡ commands atoms
  unfolding set_max_time
  set_max_time-commands times t [] = refl
  set_max_time-commands times t (a ∷ as') = elim (Option-cases (lookup a.command_string times)) [
    | inl h ↦
        rw (set_max_time, h) (ap (λ l. a.command_string ∷ l) (set_max_time-commands times t as'))
    | inr (u, h) ↦
        rw (set_max_time, h) (ap (λ l. a.command_string ∷ l) (set_max_time-commands times t as'))
  ]

  set_expected-commands :
      (atoms : List Atom) (times : Dict String Float)
      → commands (set_expected_atom_times fl atoms times).0 ≡ commands atoms
  unfolding set_expected_atom_times
  set_expected-commands atoms times = set_max_time-commands times _ _ ∙ scan-commands times atoms _

  insert_by_time-Perm : (a : Atom) (bs : List Atom) → Perm (insert_by_time fl a bs) (a ∷ bs)
  unfolding insert_by_time
  insert_by_time-Perm a [] = Perm.refl _
  insert_by_time-Perm a (b ∷ bs) = elim (Bool-cases (fl.lt (time_of fl a) (time_of fl b))) [
    | inl h ↦ rw h (Perm.trans (Perm.cons b (insert_by_time-Perm a bs)) (Perm.swap a b bs))
    | inr h ↦ rw h (Perm.refl _)
  ]

  by_decreasing_time-Perm : (atoms : List Atom) → Perm (by_decreasing_time fl atoms) atoms
  unfolding by_decreasing_time
  by_decreasing_time-Perm [] = Perm.refl _
  by_decreasing_time-Perm (a ∷ as') =
      Perm.trans (insert_by_time-Perm a (by_decreasing_time fl as'))
        (Perm.cons a (by_decreasing_time-Perm as'))

  atoms_of-items_of : (atoms : List Atom) → atoms_of fl (items_of fl atoms) ≡ atoms
  atoms_of-items_of [] = refl
  atoms_of-items_of (a ∷ as') = ap (λ l. a ∷ l) (atoms_of-items_of as')

  both_stages :
      (items left : List Item) (big small : List (List Item)) (rest : List Item)
      → Perm (flatten big ++ left) items
      → Perm (flatten small ++ rest) left
      → rest ≡ []
      → Perm (flatten (big ++ small)) items
  both_stages items left big small rest p q e =
      subst (λ l. Perm l items) (sym (flatten-append big small))
        (Perm.trans
          (Perm.append_left (flatten big) (
            subst (λ l. Perm l left) (append-nil (flatten small))
              (subst (λ r. Perm (flatten small ++ r) left) e q)))
          p)

  time_based-Perm :
      (atoms : List Atom) (n : ℕ) (total : Float)
      → Perm (flatten (time_based_groups fl atoms n total)) atoms
  unfolding time_based_groups
  time_based-Perm atoms n total =
      let items = items_of fl (by_decreasing_time fl atoms) in
      let big = group_atoms-IsGrouped fl items (big_subjob_time fl total n) (some n) in
      let r = group_atoms_into_sized_buckets fl items (big_subjob_time fl total n) (some n) in
      let small = group_atoms-IsGrouped fl r.1 (small_subjob_time fl total n) none in
      let r' = group_atoms_into_sized_buckets fl r.1 (small_subjob_time fl total n) none in
      let empty : r'.1 ≡ [] = elim small.stop [ inl e ↦ e | inr e ↦ absurd (ground arith) ] in
      subst (λ l. Perm l atoms) (sym (map-flatten (λ i. i.0) (r.0 ++ r'.0)))
        (Perm.trans
          (Perm.map (λ i. i.0)
            (both_stages items r.1 r.0 r'.0 r'.1 (from_none _ items big.perm)
              (from_none _ r.1 small.perm) empty))
          (subst (λ l. Perm l atoms) (sym (atoms_of-items_of (by_decreasing_time fl atoms)))
            (by_decreasing_time-Perm atoms)))

  -- With one executor at least, the atoms are grouped, and the groups hold the commands of the
  -- atoms, each as often as it occurs there, whatever timing data there is.
  pub groupings-Perm :
      (atoms : List Atom) (n : ℕ) (times : Dict String Float)
      → n ≢ 0
      → (gs : List (List Atom)) × (groupings fl atoms n times ≡ ok gs)
        × Perm (commands (flatten gs)) (commands atoms)
  unfolding groupings
  groupings-Perm atoms n times some_executor = by_result _ refl
    where
      back :
          (gs : List (List Atom))
          → Perm (flatten gs) (set_expected_atom_times fl atoms times).0
          → Perm (commands (flatten gs)) (commands atoms)
      back gs p =
          subst (λ l. Perm (commands (flatten gs)) l) (set_expected-commands atoms times)
            (Perm.map (λ a. a.command_string) p)

      by_result :
          (r : Result Float)
          → (set_expected_atom_times fl atoms times).1 ≡ r
          → (gs : List (List Atom)) × (groupings fl atoms n times ≡ ok gs)
            × Perm (commands (flatten gs)) (commands atoms)
      by_result (err e) h = (
        atom_groupings (set_expected_atom_times fl atoms times).0,
        rw (groupings, h) refl,
        back _ (
            subst (λ l. Perm l (set_expected_atom_times fl atoms times).0)
              (sym (flatten-singletons _)) (Perm.refl _)),
      )
      by_result (ok total) h = (
        time_based_groups fl (set_expected_atom_times fl atoms times).0 n total,
        rw (groupings, h) (ground (arith, ==_iff n 0)),
        back _ (time_based-Perm _ n total),
      )
