-- ===== src/Util/OrderedSet/Runs.antt =====
-- Sequences of operations on the linked nodes, and on lists.
use cluster_runner_jie.Prelude.{
  ℕ, suc, Bool, true, false, Option, none, some, List, [], ◌∷◌, map, length, length-map, All, ◌≡◌,
  ◌≢◌, refl, sym, ap, ap₂, subst, ◌∙◌, arith, if◌then◌else◌,
}
use cluster_runner_jie.Prelude.Dict.{Dict, Eq, keys, values}
use cluster_runner_jie.Util.OrderedSet.{OrderedSet, end_node, new, discard, iter_from, iter, pop}
use cluster_runner_jie.Util.OrderedSet.Links.{Forward, Backward-last}
use cluster_runner_jie.Util.OrderedSet.Refine.{IsLinked, new-IsLinked}
use cluster_runner_jie.Util.OrderedSet.Lists.{
  pop_back, pop_back-cons, take_out, key-back, take_out-back, take_out-front,
}
use cluster_runner_jie.Util.OrderedSet.Ops.{
  Op, adds, discards, pops, effect, list_effect, run, list_run,
}
use cluster_runner_jie.Util.OrderedSet.Represents.{Represents, add-Represents, discard-Represents}

module _ {A : Type 0} ⦃e : Eq A⦄ where
  effect-pops :
      (last : Bool) (s : OrderedSet A) (k : A) (p : A × ℕ) (d : Dict A ℕ)
      → s.node_by_key ≡ p ∷ d
      → s.key_of (if last then s.prev_of end_node else s.next_of end_node) ≡ some k
      → effect (pops last) s ≡ (discard k s, some k)
  unfolding effect pop
  effect-pops last s k p d q r = ground arith

  effect-pop_empty :
      (last : Bool) (s : OrderedSet A) → s.node_by_key ≡ [] → effect (pops last) s ≡ (s, none)
  unfolding effect pop
  effect-pop_empty last s q = ground arith

  module _ (s : OrderedSet A) (h : IsLinked s) where
    effect-pop_back :
        (k : A) (ys : List A) (p : A × ℕ) (d : Dict A ℕ)
        → s.node_by_key ≡ p ∷ d
        → pop_back (keys s.node_by_key) ≡ some (k, ys)
        → effect (pops true) s ≡ (discard k s, some k)
    effect-pop_back k ys p d q r = effect-pops true s k p d q (
        ap s.key_of (Backward-last s.prev_of end_node (values s.node_by_key) end_node h.backward)
        ∙ key-back s.key_of end_node s.node_by_key k ys h.keyed r)

    effect-pop_front :
        (p : A × ℕ) (d : Dict A ℕ)
        → s.node_by_key ≡ p ∷ d
        → effect (pops false) s ≡ (discard p.0 s, some p.0)
    effect-pop_front p d q = effect-pops false s p.0 p d q (
        ap s.key_of (subst (λ l. Forward s.next_of end_node (values l) end_node) q h.forward).0
        ∙ (subst (All (λ r. s.key_of r.1 ≡ some r.0)) q h.keyed).0)

  Answers : OrderedSet A × Option A → List A × Option A → Type 0
  Answers r l = Represents r.0 l.0 × r.1 ≡ l.1

  popped-Answers :
      (k : A) (s : OrderedSet A) (ys : List A)
      → IsLinked s
      → take_out k (keys s.node_by_key) ≡ ys
      → Answers (discard k s, some k) (ys, some k)
  unfolding Answers
  popped-Answers k s ys h q = (subst (Represents (discard k s)) q (discard-Represents k s h), refl)

  Answers-along :
      {r r' : OrderedSet A × Option A} {l l' : List A × Option A}
      → r ≡ r'
      → l ≡ l'
      → Answers r' l'
      → Answers r l
  Answers-along {r' = r'} {l = l} p q h =
      subst (λ x. Answers x l) (sym p) (subst (Answers r') (sym q) h)

  list_effect-pop_empty : (last : Bool) → list_effect {A = A} (pops last) [] ≡ ([], none)
  unfolding list_effect pop_back
  list_effect-pop_empty true = refl
  list_effect-pop_empty false = refl

  list_effect-pop_back :
      (xs : List A) (k : A) (ys : List A)
      → pop_back xs ≡ some (k, ys)
      → list_effect (pops true) xs ≡ (ys, some k)
  unfolding list_effect
  list_effect-pop_back xs k ys r = ground (arith, r)

  list_effect-pop_front : (k : A) (ys : List A) → list_effect (pops false) (k ∷ ys) ≡ (ys, some k)
  unfolding list_effect
  list_effect-pop_front k ys = refl

  empty-Answers :
      (s : OrderedSet A) → s.node_by_key ≡ [] → IsLinked s → Answers (s, none) ([], none)
  unfolding Answers
  empty-Answers s q h = (record { linked = h; listed = ap keys q }, refl)

  pops-Answers :
      (last : Bool) (s : OrderedSet A) (d : Dict A ℕ)
      → s.node_by_key ≡ d
      → IsLinked s
      → Answers (effect (pops last) s) (list_effect (pops last) (keys s.node_by_key))
  pops-Answers last s [] q h =
      Answers-along (effect-pop_empty last s q)
        (ap (λ l. list_effect (pops last) (keys l)) q ∙ list_effect-pop_empty last)
        (empty-Answers s q h)
  pops-Answers true s ((j, a) ∷ d) q h =
      let (k, ys, r) = pop_back-cons j j (keys d) in
      let there = ap (λ l. pop_back (keys l)) q ∙ r in
      Answers-along (effect-pop_back s h k ys (j, a) d q there)
        (list_effect-pop_back (keys s.node_by_key) k ys there)
        (popped-Answers k s ys h (take_out-back k (keys s.node_by_key) ys h.unique there))
  pops-Answers false s ((j, a) ∷ d) q h =
      Answers-along (effect-pop_front s h (j, a) d q)
        (ap (λ l. list_effect (pops false) (keys l)) q ∙ list_effect-pop_front j (keys d))
        (popped-Answers j s (keys d) h
          (ap (λ l. take_out j (keys l)) q ∙ take_out-front j (keys d)))

  effect-Answers :
      (o : Op A) (s : OrderedSet A)
      → IsLinked s
      → Answers (effect o s) (list_effect o (keys s.node_by_key))
  unfolding Answers effect list_effect
  effect-Answers (adds k) s h = (add-Represents k s h, refl)
  effect-Answers (discards k) s h = (discard-Represents k s h, refl)
  effect-Answers (pops last) s h = pops-Answers last s s.node_by_key refl h

  effect-Represents :
      (o : Op A) (s : OrderedSet A) (xs : List A)
      → Represents s xs
      → Represents (effect o s).0 (list_effect o xs).0 × (effect o s).1 ≡ (list_effect o xs).1
  unfolding Answers
  effect-Represents o s xs h =
      subst
        (λ l. Represents (effect o s).0 (list_effect o l).0 × (effect o s).1 ≡ (list_effect o l).1)
        h.listed (effect-Answers o s h.linked)

  iter_from-chain :
      (s : OrderedSet A) (p : ℕ) (d : Dict A ℕ)
      → Forward s.next_of p (values d) end_node
      → All (λ a. end_node ≢ a) (values d)
      → All (λ r. s.key_of r.1 ≡ some r.0) d
      → iter_from s (suc (length d)) (s.next_of p) ≡ some (map some (keys d))
  unfolding iter_from
  iter_from-chain s p [] f n k = ground (arith, f)
  iter_from-chain s p ((j, a) ∷ d) f n k =
      ground (arith, f.0, n.0, k.0, iter_from-chain s a d f.1 n.1 k.1)

  iter-Represents :
      (s : OrderedSet A) (xs : List A)
      → Represents s xs
      → iter s (suc (length xs)) ≡ some (map some xs)
  unfolding iter
  iter-Represents s xs h =
      subst (λ l. iter s (suc (length l)) ≡ some (map some l)) h.listed
        (rw (length-map (λ (p : A × ℕ). p.0) s.node_by_key) (
          iter_from-chain s end_node s.node_by_key h.linked.forward h.linked.distinct.0
            h.linked.keyed))

  run-Represents :
      (os : List (Op A)) (s : OrderedSet A) (xs : List A)
      → Represents s xs
      → Represents (run os s).0 (list_run os xs).0 × (run os s).1 ≡ (list_run os xs).1
  unfolding run list_run
  run-Represents [] s xs h = (h, refl)
  run-Represents (o ∷ os) s xs h =
      let step = effect-Represents o s xs h in
      let later = run-Represents os (effect o s).0 (list_effect o xs).0 step.0 in
      (later.0, ap₂ ◌∷◌ step.1 later.1)

  new-Represents : Represents (new {A = A}) []
  unfolding new
  new-Represents = record { linked = new-IsLinked; listed = refl }

  -- A sequence of operations on the linked nodes of an empty set gives the keys that the same
  -- operations on an empty list give: `add` puts a key at the end if it is not there, `discard`
  -- takes it out, `pop` takes the last or the first one. Afterwards, following `next` from the
  -- sentinel meets the keys of the list in their order, and as many nodes as the list is long.
  pub run_refines_list :
      (os : List (Op A))
      → (run os new).1 ≡ (list_run os []).1
        × iter (run os new).0 (suc (length (list_run os []).0)) ≡ some (map some (list_run os []).0)
  run_refines_list os = (
    (run-Represents os new [] new-Represents).1,
    iter-Represents (run os new).0 (list_run os []).0 (run-Represents os new [] new-Represents).0,
  )
