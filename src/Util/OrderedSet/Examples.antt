-- ===== src/Util/OrderedSet/Examples.antt =====
-- A set of numbers.
use cluster_runner_jie.Prelude.{
  ℕ, true, false, suc, some, none, List, [], ◌∷◌, ◌≡◌, refl, map, length,
}
use cluster_runner_jie.Prelude.Dict.{ℕ_eq, lookup, insert, remove}
use cluster_runner_jie.Util.OrderedSet.{new, iter}
use cluster_runner_jie.Util.OrderedSet.Ops.{Op, adds, discards, pops, run, list_run}
use cluster_runner_jie.Util.OrderedSet.Runs.{run_refines_list}

abbrev ops : List (Op ℕ)
ops =
    adds 4
    ∷ adds 7
    ∷ adds 4
    ∷ adds 9
    ∷ discards 7
    ∷ adds 2
    ∷ pops true
    ∷ pops false
    ∷ pops true
    ∷ pops true
    ∷ adds 5
    ∷ []

run_refines_list_example :
    (run ops new).1 ≡ (list_run ops []).1
    × iter (run ops new).0 (suc (length (list_run ops []).0)) ≡ some (map some (list_run ops []).0)
run_refines_list_example = run_refines_list ops

popped :
    (run ops new).1
    ≡ none ∷ none ∷ none ∷ none ∷ none ∷ none ∷ some 2 ∷ some 4 ∷ some 9 ∷ none ∷ none ∷ []
unfolding run new lookup insert remove
popped = refl
