-- ===== src/Util/OrderedSet/Represents.antt =====
-- Adding and discarding a key keep the nodes in order.
use cluster_runner_jie.Prelude.{
  ℕ, none, some, List, [], ◌∷◌, ◌≡◌, refl, sym, ap, subst, ◌∙◌, arith, Option-cases, inl, inr,
}
use cluster_runner_jie.Prelude.Dict.{Eq, lookup, keys}
use cluster_runner_jie.Util.OrderedSet.{OrderedSet, append, add, unlink, discard}
use cluster_runner_jie.Util.OrderedSet.Refine.{IsLinked, append-IsLinked, unlink-IsLinked}
use cluster_runner_jie.Util.OrderedSet.Refine.Keys.{
  map-append, missing, insert-missing, remove-missing,
}
use cluster_runner_jie.Util.OrderedSet.Lists.{put, take_out, has-missing, has-there, keys-remove}

module _ {A : Type 0} ⦃e : Eq A⦄ where
  module _ (k : A) (s : OrderedSet A) where
    add-new : lookup k s.node_by_key ≡ none → add k s ≡ append k s
    unfolding add
    add-new m = ground arith

    add-old : (a : ℕ) → lookup k s.node_by_key ≡ some a → add k s ≡ s
    unfolding add
    add-old a m = ground arith

    discard-missing : lookup k s.node_by_key ≡ none → discard k s ≡ s
    unfolding discard
    discard-missing m = ground arith

    discard-there : (a : ℕ) → lookup k s.node_by_key ≡ some a → discard k s ≡ unlink k a s
    unfolding discard
    discard-there a m = ground arith

  -- The nodes are in order, and their keys are those of the list.
  pub record Represents (s : OrderedSet A) (xs : List A) : Type 0 where
    pub linked : IsLinked s
    pub listed : keys s.node_by_key ≡ xs

  module _ (k : A) (s : OrderedSet A) (h : IsLinked s) where
    append-Represents :
        lookup k s.node_by_key ≡ none → Represents (append k s) (put k (keys s.node_by_key))
    unfolding append put
    append-Represents m = record {
      linked = append-IsLinked k s h m;
      listed = rw (has-missing k s.node_by_key m) (
          ap keys (insert-missing k s.fresh s.node_by_key m)
          ∙ map-append (λ p. p.0) s.node_by_key ((k, s.fresh) ∷ []));
    }

    unlink-Represents :
        (a : ℕ)
        → lookup k s.node_by_key ≡ some a
        → Represents (unlink k a s) (take_out k (keys s.node_by_key))
    unfolding unlink
    unlink-Represents a m = record {
      linked = unlink-IsLinked k s h a m;
      listed = keys-remove k s.node_by_key h.unique;
    }

    same-Represents : (xs : List A) → keys s.node_by_key ≡ xs → Represents s xs
    same-Represents xs q = record { linked = h; listed = q }

    pub add-Represents : Represents (add k s) (put k (keys s.node_by_key))
    unfolding put
    add-Represents = elim (Option-cases (lookup k s.node_by_key)) [
      | inl m ↦
          subst (λ t. Represents t (put k (keys s.node_by_key))) (sym (add-new k s m))
            (append-Represents m)
      | inr m ↦
          subst (λ t. Represents t (put k (keys s.node_by_key))) (sym (add-old k s m.0 m.1))
            (same-Represents _ (rw (has-there k m.0 s.node_by_key m.1) refl))
    ]

    pub discard-Represents : Represents (discard k s) (take_out k (keys s.node_by_key))
    discard-Represents = elim (Option-cases (lookup k s.node_by_key)) [
      | inl m ↦
          subst (λ t. Represents t (take_out k (keys s.node_by_key))) (sym (discard-missing k s m))
            (same-Represents _ (
              ap keys (sym (remove-missing k s.node_by_key (missing k s.node_by_key m)))
              ∙ keys-remove k s.node_by_key h.unique))
      | inr m ↦
          subst (λ t. Represents t (take_out k (keys s.node_by_key)))
            (sym (discard-there k s m.0 m.1)) (unlink-Represents m.0 m.1)
    ]
