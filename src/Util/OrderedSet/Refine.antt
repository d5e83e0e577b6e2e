-- ===== src/Util/OrderedSet/Refine.antt =====
-- The set is a list without duplicates: the keys, in the order in which they were added.
pub mod Keys
use cluster_runner_jie.Prelude.{
  ℕ, zero, suc, ◌+◌, ◌<◌, Bool, true, false, Option, none, some, List, [], ◌∷◌, ◌++◌, map, length,
  length-map, All, All-append, ◌≡◌, ◌≢◌, refl, sym, ap, subst, ◌∙◌, arith, Option-cases, inl, inr,
  if◌then◌else◌,
}
use cluster_runner_jie.Prelude.Dict.{Dict, Eq, lookup, insert, remove, keys, values}
use cluster_runner_jie.Errors.{key_error, Result, ok, err}
use cluster_runner_jie.Util.OrderedSet.{
  OrderedSet, end_node, write, new, append, add, unlink, discard, iter_from, iter, pop,
}
use cluster_runner_jie.Util.OrderedSet.Links.{
  write_same, write_other, Distinct, Forward, Backward, last_of, first_of, Backward-last,
  Forward-middle, Backward-middle, Forward-first,
}
use cluster_runner_jie.Util.OrderedSet.Splices.{
  put_next, put_prev, Forward-put, Backward-put, Forward-take, Backward-take,
}
use cluster_runner_jie.Util.OrderedSet.Refine.Keys.{
  map-append, Distinct-put, Distinct-take, All-take, All-weaken, missing, insert-missing, split,
  Split,
}

-- The nodes of the heap that a dictionary points at, in its order, are the chain.
pub record IsChain {A : Type 0} (key : ℕ → Option A) (prev next : ℕ → ℕ) (fresh : ℕ) (d : Dict A ℕ)
    : Type 0 where
  pub forward : Forward next end_node (values d) end_node
  pub backward : Backward prev end_node (values d) end_node
  pub distinct : Distinct (end_node ∷ values d)
  pub older : All (λ a. a < fresh) (end_node ∷ values d)
  pub keyed : All (λ p. key p.1 ≡ some p.0) d
  pub unique : Distinct (keys d)

abbrev pub IsLinked : {A : Type 0} → OrderedSet A → Type 0
IsLinked s = IsChain s.key_of s.prev_of s.next_of s.fresh s.node_by_key

keyed-write :
    {A : Type 0} (b : ℕ) (k : A) (f : ℕ → Option A) (d : Dict A ℕ)
    → All (λ a. b ≢ a) (values d)
    → All (λ p. f p.1 ≡ some p.0) d
    → All (λ p. write b (some k) f p.1 ≡ some p.0) d
keyed-write b k f [] n h = tt
keyed-write b k f ((j, a) ∷ d) n h =
    (write_other b a (some k) f n.0 ∙ h.0, keyed-write b k f d n.1 h.1)

module _ {A : Type 0} {key : ℕ → Option A} {prev next : ℕ → ℕ} {b : ℕ} where
  put-IsChain :
      (k : A) (d : Dict A ℕ)
      → IsChain key prev next b d
      → All (λ j. k ≢ j) (keys d)
      → IsChain
          (write b (some k) key)
          (put_prev prev (prev end_node) b)
          (put_next next (prev end_node) b)
          (b + 1)
          (d ++ (k, b) ∷ [])
  put-IsChain k d h m = record {
    forward =
        subst (λ l. Forward (put_next next (prev end_node) b) end_node l end_node) (sym values_put)
          (subst (λ l. Forward (put_next next l b) end_node (values d ++ b ∷ []) end_node)
            (sym is_last)
            (Forward-put next b end_node (values d) h.distinct is_new.0 is_new.1 h.forward));
    backward =
        subst (λ l. Backward (put_prev prev (prev end_node) b) end_node l end_node) (sym values_put)
          (Backward-put prev b (prev end_node) end_node (values d) is_last (λ q. is_new.0 (sym q))
            h.distinct.0 is_new.1 h.backward);
    distinct =
        subst (λ l. Distinct (end_node ∷ l)) (sym values_put)
          (Distinct-put (end_node ∷ values d) b h.distinct is_new);
    older =
        subst (λ l. All (λ a. a < b + 1) (end_node ∷ l)) (sym values_put)
          (All-append (λ a. a < b + 1) (end_node ∷ values d) (b ∷ [])
            (All-weaken (λ a. a < b) (λ a. a < b + 1) (λ a l. omega arith) (end_node ∷ values d)
              h.older)
            (omega arith, tt));
    keyed =
        All-append (λ p. write b (some k) key p.1 ≡ some p.0) d ((k, b) ∷ [])
          (keyed-write b k key d is_new.1 h.keyed) (write_same b (some k) key, tt);
    unique =
        subst Distinct (sym (map-append (λ p. p.0) d ((k, b) ∷ [])))
          (Distinct-put (keys d) k h.unique m);
  }
    where
      values_put : values (d ++ (k, b) ∷ []) ≡ values d ++ b ∷ []
      values_put = map-append (λ p. p.1) d ((k, b) ∷ [])

      is_new : All (λ a. b ≢ a) (end_node ∷ values d)
      is_new =
          All-weaken (λ a. a < b) (λ a. b ≢ a) (λ a l q. absurd (omega arith)) (end_node ∷ values d)
            h.older

      is_last : prev end_node ≡ last_of end_node (values d)
      is_last = Backward-last prev end_node (values d) end_node h.backward

  take-IsChain :
      (k : A) (a : ℕ) (xs ys : Dict A ℕ)
      → IsChain key prev next b (xs ++ (k, a) ∷ ys)
      → IsChain key (write (next a) (prev a) prev) (write (prev a) (next a) next) b (xs ++ ys)
  take-IsChain k a xs ys h = record {
    forward =
        subst (λ l. Forward (write (prev a) (next a) next) end_node l end_node)
          (sym (map-append (λ p. p.1) xs ys))
          (rw (is_prev, is_next)
            (Forward-take next end_node (values xs) a (values ys) distinct forward));
    backward =
        subst (λ l. Backward (write (next a) (prev a) prev) end_node l end_node)
          (sym (map-append (λ p. p.1) xs ys))
          (subst (λ q. Backward (write q (prev a) prev) end_node (values xs ++ values ys) end_node)
            (sym is_next)
            (Backward-take prev (prev a) end_node (values xs) a (values ys) is_prev distinct.1
              distinct.0 backward));
    distinct =
        subst (λ l. Distinct (end_node ∷ l)) (sym (map-append (λ p. p.1) xs ys))
          (Distinct-take (end_node ∷ values xs) a (values ys) distinct);
    older =
        subst (λ l. All (λ i. i < b) (end_node ∷ l)) (sym (map-append (λ p. p.1) xs ys))
          (All-take (λ i. i < b) (end_node ∷ values xs) a (values ys)
            (subst (λ l. All (λ i. i < b) (end_node ∷ l)) whole h.older));
    keyed = All-take (λ p. key p.1 ≡ some p.0) xs (k, a) ys h.keyed;
    unique = subst Distinct (sym (map-append (λ p. p.0) xs ys)) (
        Distinct-take (keys xs) k (keys ys)
          (subst Distinct (map-append (λ p. p.0) xs ((k, a) ∷ ys)) h.unique));
  }
    where
      whole : values (xs ++ (k, a) ∷ ys) ≡ values xs ++ a ∷ values ys
      whole = map-append (λ p. p.1) xs ((k, a) ∷ ys)

      distinct : Distinct (end_node ∷ values xs ++ a ∷ values ys)
      distinct = subst (λ l. Distinct (end_node ∷ l)) whole h.distinct

      forward : Forward next end_node (values xs ++ a ∷ values ys) end_node
      forward = subst (λ l. Forward next end_node l end_node) whole h.forward

      backward : Backward prev end_node (values xs ++ a ∷ values ys) end_node
      backward = subst (λ l. Backward prev end_node l end_node) whole h.backward

      is_prev : prev a ≡ last_of end_node (values xs)
      is_prev = Backward-middle prev end_node (values xs) a (values ys) end_node backward

      is_next : next a ≡ first_of (values ys) end_node
      is_next = Forward-middle next end_node (values xs) a (values ys) end_node forward

module _ {A : Type 0} ⦃e : Eq A⦄ where
  pub new-IsLinked : IsLinked (new {A = A})
  unfolding new
  new-IsLinked = record {
    forward = refl;
    backward = refl;
    distinct = (tt, tt);
    older = (omega arith, tt);
    keyed = tt;
    unique = tt;
  }

  module _ (k : A) (s : OrderedSet A) (h : IsLinked s) where
    pub append-IsLinked : lookup k s.node_by_key ≡ none → IsLinked (append k s)
    unfolding append
    append-IsLinked m =
        subst (IsChain _ _ _ _) (sym (insert-missing k s.fresh s.node_by_key m))
          (put-IsChain k s.node_by_key h (missing k s.node_by_key m))

    pub unlink-IsLinked : (a : ℕ) → lookup k s.node_by_key ≡ some a → IsLinked (unlink k a s)
    unfolding unlink
    unlink-IsLinked a m =
        subst (IsChain _ _ _ _) (sym p.rest)
          (take-IsChain k a p.before p.after (subst (IsChain _ _ _ _) p.whole h))
      where
        p : Split k a s.node_by_key
        p = split k a s.node_by_key h.unique m
