-- ===== src/Util/OrderedSet/Ops.antt =====
-- The operations, on the linked nodes and on lists, and sequences of them.
use cluster_runner_jie.Prelude.{Bool, Option, none, some, List, [], ◌∷◌}
use cluster_runner_jie.Prelude.Dict.{Eq}
use cluster_runner_jie.Errors.{Result, ok, err}
use cluster_runner_jie.Util.OrderedSet.{OrderedSet, add, discard, pop}
use cluster_runner_jie.Util.OrderedSet.Lists.{pop_back, pop_item, put, take_out}

pub data Op (A : Type 0) : Type 0 where
  adds discards : A → Op A
  pops : Bool → Op A

module _ {A : Type 0} ⦃e : Eq A⦄ where
  abbrev popped : Result (A × OrderedSet A) → OrderedSet A → OrderedSet A × Option A
  popped (ok (k, t)) s = (t, some k)
  popped (err _) s = (s, none)

  -- The set afterwards, and the key that comes out; `none` for the exception of an empty set.
  unfoldable pub effect : Op A → OrderedSet A → OrderedSet A × Option A
  unfolding add discard pop
  effect (adds k) s = (add k s, none)
  effect (discards k) s = (discard k s, none)
  effect (pops last) s = popped (pop last s) s

  abbrev taken : Option (A × List A) → List A × Option A
  taken none = ([], none)
  taken (some (k, ys)) = (ys, some k)

  unfoldable pub list_effect : Op A → List A → List A × Option A
  unfolding put take_out pop_back
  list_effect (adds k) xs = (put k xs, none)
  list_effect (discards k) xs = (take_out k xs, none)
  list_effect (pops last) xs = taken (pop_item last xs)

  unfoldable pub run : List (Op A) → OrderedSet A → OrderedSet A × List (Option A)
  unfolding effect
  run [] s = (s, [])
  run (o ∷ os) s = let (t, r) = effect o s in let (u, rs) = run os t in (u, r ∷ rs)

  unfoldable pub list_run : List (Op A) → List A → List A × List (Option A)
  unfolding list_effect
  list_run [] xs = (xs, [])
  list_run (o ∷ os) xs =
      let (ys, r) = list_effect o xs in let (zs, rs) = list_run os ys in (zs, r ∷ rs)
