-- ===== src/Util/OrderedSet/Refine/Keys.antt =====
-- Dictionaries without a key twice, and what is kept of a list when an item is put or taken out.
use cluster_runner_jie.Prelude.{
  none, some, List, [], ◌∷◌, ◌++◌, map, All, All-append, ◌≡◌, ◌≢◌, refl, sym, ap, subst, arith,
  Bool-cases, inl, inr,
}
use cluster_runner_jie.Prelude.Dict.{Dict, Eq, lookup, insert, remove, keys}
use cluster_runner_jie.Util.OrderedSet.Links.{Distinct}

module _ {A B : Type 0} (f : A → B) where
  pub map-append : (xs ys : List A) → map f (xs ++ ys) ≡ map f xs ++ map f ys
  map-append [] ys = refl
  map-append (x ∷ xs) ys = ap (λ l. f x ∷ l) (map-append xs ys)

module _ {A : Type 0} where
  pub Distinct-put :
      (xs : List A) (y : A) → Distinct xs → All (λ x. y ≢ x) xs → Distinct (xs ++ y ∷ [])
  Distinct-put [] y d n = (tt, tt)
  Distinct-put (x ∷ xs) y d n =
      (All-append (λ z. x ≢ z) xs (y ∷ []) d.0 (λ e. n.0 (sym e), tt), Distinct-put xs y d.1 n.1)

  pub All-take :
      (P : A → Type 0) (xs : List A) (y : A) (ys : List A) → All P (xs ++ y ∷ ys) → All P (xs ++ ys)
  All-take P [] y ys h = h.1
  All-take P (x ∷ xs) y ys h = (h.0, All-take P xs y ys h.1)

  pub Distinct-take :
      (xs : List A) (y : A) (ys : List A) → Distinct (xs ++ y ∷ ys) → Distinct (xs ++ ys)
  Distinct-take [] y ys d = d.1
  Distinct-take (x ∷ xs) y ys d = (All-take (λ z. x ≢ z) xs y ys d.0, Distinct-take xs y ys d.1)

  pub All-weaken : (P Q : A → Type 0) → ((x : A) → P x → Q x) → (xs : List A) → All P xs → All Q xs
  All-weaken P Q f [] h = tt
  All-weaken P Q f (x ∷ xs) h = (f x h.0, All-weaken P Q f xs h.1)

module _ {K V : Type 0} ⦃e : Eq K⦄ where
  pub missing : (k : K) (d : Dict K V) → lookup k d ≡ none → All (λ j. k ≢ j) (keys d)
  unfolding lookup
  missing k [] h = tt
  missing k ((j, v) ∷ d) h = elim (Bool-cases (e.beq j k)) [
    | inl t ↦ absurd (ground arith)
    | inr t ↦ (λ q. absurd (ground (arith, e.beq_iff j k, q)), missing k d (ground arith))
  ]

  pub insert-missing :
      (k : K) (v : V) (d : Dict K V) → lookup k d ≡ none → insert k v d ≡ d ++ (k, v) ∷ []
  unfolding lookup insert
  insert-missing k v [] h = refl
  insert-missing k v ((j, w) ∷ d) h = elim (Bool-cases (e.beq j k)) [
    | inl t ↦ absurd (ground arith)
    | inr t ↦ rw t (ap (λ l. (j, w) ∷ l) (insert-missing k v d (ground arith)))
  ]

  pub remove-missing : (k : K) (d : Dict K V) → All (λ j. k ≢ j) (keys d) → remove k d ≡ d
  unfolding remove
  remove-missing k [] h = refl
  remove-missing k ((j, w) ∷ d) h = elim (Bool-cases (e.beq j k)) [
    | inl t ↦ absurd (h.0 (sym ((e.beq_iff j k).0 t)))
    | inr t ↦ rw t (ap (λ l. (j, w) ∷ l) (remove-missing k d h.1))
  ]

  pub record Split (k : K) (v : V) (d : Dict K V) : Type 0 where
    pub before : Dict K V
    pub after : Dict K V
    pub whole : d ≡ before ++ (k, v) ∷ after
    pub rest : remove k d ≡ before ++ after

  pub split : (k : K) (v : V) (d : Dict K V) → Distinct (keys d) → lookup k d ≡ some v → Split k v d
  unfolding lookup remove
  split k v [] u h = absurd (ground arith)
  split k v ((j, w) ∷ d) u h = elim (Bool-cases (e.beq j k)) [
    | inl t ↦ record {
      before = [];
      after = d;
      whole = ap (λ p. p ∷ d) (ground (arith, (e.beq_iff j k).0 t));
      rest =
          rw t
            (remove-missing k d (subst (λ i. All (λ l. i ≢ l) (keys d)) ((e.beq_iff j k).0 t) u.0));
    }
    | inr t ↦
        let s = split k v d u.1 (ground arith) in
        record {
          before = (j, w) ∷ s.before;
          after = s.after;
          whole = ap (λ l. (j, w) ∷ l) s.whole;
          rest = rw t (ap (λ l. (j, w) ∷ l) s.rest);
        }
  ]
