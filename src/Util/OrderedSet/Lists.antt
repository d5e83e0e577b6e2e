-- ===== src/Util/OrderedSet/Lists.antt =====
-- The abstract view of the ordered set: a list of keys, none of them twice.
use cluster_runner_jie.Prelude.{
  ℕ, Bool, true, false, ◌||◌, Option, none, some, List, [], ◌∷◌, ◌++◌, All, ◌≡◌, ◌≢◌, refl, ap,
  subst, ◌∙◌, arith, Bool-cases, Option-cases, suc, length, inl, inr, if◌then◌else◌,
}
use cluster_runner_jie.Prelude.Dict.{Dict, Eq, lookup, remove, keys, values}
use cluster_runner_jie.Util.OrderedSet.Links.{Distinct, last_of}
use cluster_runner_jie.Util.OrderedSet.Refine.Keys.{remove-missing}

module _ {A : Type 0} where
  unfoldable pub pop_back : List A → Option (A × List A)
  pop_back [] = none
  pop_back (x ∷ xs) = elim (pop_back xs) [ none ↦ some (x, []) | some (k, ys) ↦ some (k, x ∷ ys) ]

  abbrev pub pop_front : List A → Option (A × List A)
  pop_front [] = none
  pop_front (x ∷ xs) = some (x, xs)

  abbrev pub pop_item : Bool → List A → Option (A × List A)
  pop_item last xs = if last then pop_back xs else pop_front xs

  pub pop_back-cons :
      (x y : A) (xs : List A) → (k : A) × (ys : List A) × pop_back (y ∷ xs) ≡ some (k, ys)
  unfolding pop_back
  pop_back-cons x y [] = (y, [], refl)
  pop_back-cons x y (z ∷ xs) = let (k, ys, h) = pop_back-cons x z xs in (k, y ∷ ys, rw h refl)

  pub pop_back-none : (xs : List A) → pop_back xs ≡ none → xs ≡ []
  pop_back-none [] h = refl
  pop_back-none (x ∷ xs) h = let (k, ys, r) = pop_back-cons x x xs in absurd (ground (arith, r, h))

  pub pop_back-length :
      (xs : List A) (k : A) (ys : List A) → pop_back xs ≡ some (k, ys) → length xs ≡ suc (length ys)
  unfolding pop_back
  pop_back-length [] k ys h = absurd (ground arith)
  pop_back-length (x ∷ xs) k ys h = elim (Option-cases (pop_back xs)) [
    | inl q ↦ ground (arith, q, ap length (pop_back-none xs q))
    | inr q ↦ ground (arith, q.1, pop_back-length xs q.0.0 q.0.1 q.1)
  ]

  pop_back-All :
      (P : A → Type 0) (k : A) (xs ys : List A) → All P xs → pop_back xs ≡ some (k, ys) → P k
  unfolding pop_back
  pop_back-All P k [] ys h q = absurd (ground arith)
  pop_back-All P k (x ∷ []) ys h q = subst P (ground arith) h.0
  pop_back-All P k (x ∷ y ∷ xs) ys h q =
      let (j, zs, r) = pop_back-cons x y xs in
      subst P (ground (arith, r)) (pop_back-All P j (y ∷ xs) zs h.1 r)

  pub key-back :
      (key : ℕ → Option A) (p : ℕ) (d : Dict A ℕ) (k : A) (ys : List A)
      → All (λ q. key q.1 ≡ some q.0) d
      → pop_back (keys d) ≡ some (k, ys)
      → key (last_of p (values d)) ≡ some k
  unfolding pop_back
  key-back key p [] k ys h q = absurd (ground arith)
  key-back key p ((j, a) ∷ []) k ys h q = h.0 ∙ ground arith
  key-back key p ((j, a) ∷ (i, b) ∷ d) k ys h q =
      let (l, zs, r) = pop_back-cons j i (keys d) in
      key-back key a ((i, b) ∷ d) l zs h.1 r ∙ ground (arith, r)

module _ {A : Type 0} ⦃e : Eq A⦄ where
  unfoldable pub has : A → List A → Bool
  has k [] = false
  has k (x ∷ xs) = e.beq x k || has k xs

  unfoldable pub put : A → List A → List A
  unfolding has
  put k xs = if has k xs then xs else xs ++ k ∷ []

  unfoldable pub take_out : A → List A → List A
  take_out k [] = []
  take_out k (x ∷ xs) = let rest = take_out k xs in if e.beq x k then xs else x ∷ rest

  pub has-missing : {V : Type 0} (k : A) (d : Dict A V) → lookup k d ≡ none → has k (keys d) ≡ false
  unfolding lookup has
  has-missing k [] h = refl
  has-missing k ((j, v) ∷ d) h = ground (arith, has-missing k d)

  pub has-there :
      {V : Type 0} (k : A) (v : V) (d : Dict A V) → lookup k d ≡ some v → has k (keys d) ≡ true
  unfolding lookup has
  has-there k v [] h = absurd (ground arith)
  has-there k v ((j, w) ∷ d) h = ground (arith, has-there k v d)

  pub keys-remove :
      {V : Type 0} (k : A) (d : Dict A V)
      → Distinct (keys d)
      → keys (remove k d) ≡ take_out k (keys d)
  unfolding remove take_out
  keys-remove k [] u = refl
  keys-remove k ((j, w) ∷ d) u = elim (Bool-cases (e.beq j k)) [
    | inl t ↦ rw t (
        ap keys
          (remove-missing k d (subst (λ i. All (λ l. i ≢ l) (keys d)) ((e.beq_iff j k).0 t) u.0)))
    | inr t ↦ rw t (ap (λ l. j ∷ l) (keys-remove k d u.1))
  ]

  pub take_out-back :
      (k : A) (xs ys : List A) → Distinct xs → pop_back xs ≡ some (k, ys) → take_out k xs ≡ ys
  unfolding pop_back take_out
  take_out-back k [] ys u q = absurd (ground arith)
  take_out-back k (x ∷ []) ys u q = ground (arith, e.beq_iff x k)
  take_out-back k (x ∷ y ∷ xs) ys u q =
      let (j, zs, r) = pop_back-cons x y xs in
      ground (
        arith,
        r,
        e.beq_iff x k,
        pop_back-All (λ i. x ≢ i) j (y ∷ xs) zs u.0 r,
        take_out-back j (y ∷ xs) zs u.1 r,
      )

  pub take_out-front : (x : A) (xs : List A) → take_out x (x ∷ xs) ≡ xs
  unfolding take_out
  take_out-front x xs = ground (arith, e.beq_iff x x)
