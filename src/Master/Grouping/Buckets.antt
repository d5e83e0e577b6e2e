-- ===== src/Master/Grouping/Buckets.antt =====
-- The groups that `_group_atoms_into_sized_buckets` makes.
use cluster_runner_jie.Prelude.{
  ℕ, zero, suc, ◌+◌, ◌≤◌, ◌≡◌, ◌⊎◌, refl, sym, ap, subst, ◌∙◌, inl, inr, true, false, not, ◌&&◌,
  Option, some, List, [], ◌∷◌, ◌++◌, arith, length, length-append, Bool-cases, min, leb, ltb, All,
  All-append, map, length-map, flatten,
}
use mathlib.Core.List.{Perm, append_assoc, append-nil}
use mathlib.Core.List.Perm
use cluster_runner_jie.Master.Grouping.Arithmetic.{Floats, Float}
use cluster_runner_jie.Master.Grouping.{
  Item, Passed, full, split, at_most, below, is_empty, pass, buckets, singleton,
}
use cluster_runner_jie.Master.Grouping.Pass.{Fits, IsPass, pass_lem}

pub flatten-append :
    {A : Type 0} (xs ys : List (List A)) → flatten (xs ++ ys) ≡ flatten xs ++ flatten ys
unfolding mathlib.Core.List.flatten
flatten-append [] ys = refl
flatten-append (x ∷ xs) ys =
    ap (λ l. x ++ l) (flatten-append xs ys) ∙ sym (append_assoc x (flatten xs) (flatten ys))

pub flatten-singletons : {A : Type 0} (xs : List A) → flatten (map singleton xs) ≡ xs
unfolding mathlib.Core.List.flatten
flatten-singletons [] = refl
flatten-singletons (x ∷ xs) = ap (λ l. x ∷ l) (flatten-singletons xs)

flatten-one : {A : Type 0} (x : List A) → flatten (x ∷ []) ≡ x
unfolding mathlib.Core.List.flatten
flatten-one x = append-nil x

module _ (fl : Floats) (max_groups : Option ℕ) (target : Float) where
  singletons-Fits : (xs : List Item) → All (Fits fl target) (map singleton xs)
  singletons-Fits [] = tt
  singletons-Fits (x ∷ xs) = (inl refl, singletons-Fits xs)

  -- What the loop has when it is over, from the groups `subjobs` and the atoms `items`.
  pub record IsGrouped (subjobs : List (List Item)) (items : List Item)
      (r : List (List Item) × List Item) : Type 0 where
    pub perm : Perm (flatten r.0 ++ r.1) (flatten subjobs ++ items)
    pub fits : All (Fits fl target) subjobs → All (Fits fl target) r.0
    pub stop : (r.1 ≡ []) ⊎ (below (length r.0) max_groups ≡ false)
    pub count :
        (m : ℕ)
        → max_groups ≡ some m
        → length subjobs ≤ m
        → length r.0 ≡ min m (length subjobs + length items)

  buckets-stop :
      (fuel : ℕ) (subjobs : List (List Item)) (items : List Item)
      → (below (length subjobs) max_groups && not (is_empty items)) ≡ false
      → buckets fl fuel max_groups target subjobs items ≡ (subjobs, items)
  unfolding buckets
  buckets-stop zero subjobs items h = refl
  buckets-stop (suc fuel) subjobs items h = rw (buckets, h) refl

  abbrev after_pass : ℕ → List (List Item) → Passed → List (List Item) × List Item
  after_pass fuel subjobs (full group left) =
      buckets fl fuel max_groups target (subjobs ++ group ∷ []) left
  after_pass fuel subjobs (split group left) = ((subjobs ++ group ∷ []) ++ map singleton left, [])

  buckets-more :
      (fuel : ℕ) (subjobs : List (List Item)) (items : List Item)
      → (below (length subjobs) max_groups && not (is_empty items)) ≡ true
      → buckets fl (suc fuel) max_groups target subjobs items
        ≡ after_pass fuel subjobs (pass fl max_groups (length subjobs) target items [] fl.zero [])
  unfolding buckets
  buckets-more fuel subjobs items h = rw (buckets, h) (ground arith)

  -- The groups that are done, with one more, and what is left.
  with_group :
      (subjobs : List (List Item)) (group left items : List Item)
      → Perm (group ++ left) items
      → Perm (flatten (subjobs ++ group ∷ []) ++ left) (flatten subjobs ++ items)
  with_group subjobs group left items p =
      subst (λ l. Perm l (flatten subjobs ++ items))
        (sym (
          ap (λ l. l ++ left)
            (flatten-append subjobs (group ∷ [])
              ∙ ap (λ l. flatten subjobs ++ l) (flatten-one group))
          ∙ append_assoc (flatten subjobs) group left))
        (Perm.append_left (flatten subjobs) p)

  split_all :
      (subjobs : List (List Item)) (left : List Item)
      → flatten (subjobs ++ map singleton left) ++ [] ≡ flatten subjobs ++ left
  split_all subjobs left =
      append-nil _
      ∙ flatten-append subjobs (map singleton left)
      ∙ ap (λ l. flatten subjobs ++ l) (flatten-singletons left)

  stopped-IsGrouped :
      (subjobs : List (List Item)) (items : List Item)
      → (below (length subjobs) max_groups && not (is_empty items)) ≡ false
      → IsGrouped subjobs items (subjobs, items)
  stopped-IsGrouped subjobs [] h = record {
    perm = Perm.refl _;
    fits = λ f. f;
    stop = inl refl;
    count = λ m e l. omega arith;
  }
  stopped-IsGrouped subjobs (i ∷ items) h = record {
    perm = Perm.refl _;
    fits = λ f. f;
    stop = inr (ground arith);
    count = λ m e l.
        let reached : (ltb (length subjobs) m && true) ≡ false =
          subst (λ o. (below (length subjobs) o && true) ≡ false) e h in
        ground arith;
  }

  split-IsGrouped :
      (subjobs : List (List Item)) (items group left : List Item)
      → IsPass fl max_groups (length subjobs) target items (split group left)
      → IsGrouped subjobs items ((subjobs ++ group ∷ []) ++ map singleton left, [])
  split-IsGrouped subjobs items group left p = record {
    perm =
        subst (λ l. Perm l (flatten subjobs ++ items))
          (sym (split_all (subjobs ++ group ∷ []) left))
          (with_group subjobs group left items p.perm);
    fits = λ f.
        All-append (Fits fl target) (subjobs ++ group ∷ []) (map singleton left)
          (All-append (Fits fl target) subjobs (group ∷ []) f (p.fits, tt)) (singletons-Fits left);
    stop = inl refl;
    count = λ m e l.
        length-append (subjobs ++ group ∷ []) (map singleton left)
        ∙ omega (
          arith,
          length-append subjobs (group ∷ []),
          length-map singleton left,
          p.exact m e refl,
        );
  }

  shorter :
      (group left items : List Item) (n : ℕ)
      → IsPass fl max_groups n target items (full group left)
      → suc (length left) ≤ length items
  shorter [] left items n p = absurd (ground (arith, p.nonempty))
  shorter (g ∷ gs) left items n p = omega (arith, p.size)

  full-IsGrouped :
      (subjobs : List (List Item)) (items group left : List Item) (r : List (List Item) × List Item)
      → below (length subjobs) max_groups ≡ true
      → IsPass fl max_groups (length subjobs) target items (full group left)
      → IsGrouped (subjobs ++ group ∷ []) left r
      → IsGrouped subjobs items r
  full-IsGrouped subjobs items group left r more p g = record {
    perm = Perm.trans g.perm (with_group subjobs group left items p.perm);
    fits = λ f. g.fits (All-append (Fits fl target) subjobs (group ∷ []) f (p.fits, tt));
    stop = g.stop;
    count = λ m e l.
        let one_more = length-append subjobs (group ∷ []) in
        let not_reached : ltb (length subjobs) m ≡ true =
          subst (λ o. below (length subjobs) o ≡ true) e more in
        let enough : leb (length subjobs + length left + 1) m ≡ false =
          subst (λ o. at_most (length subjobs + length left + 1) o ≡ false) e p.count in
        let next : length (subjobs ++ group ∷ []) ≤ m = ground (arith, one_more) in
        let fewer = shorter group left items (length subjobs) p in
        g.count m e next ∙ ground (arith, one_more);
  }

  fresh_pass :
      (n : ℕ) (items : List Item)
      → is_empty items ≡ false
      → IsPass fl max_groups n target items (pass fl max_groups n target items [] fl.zero [])
  fresh_pass n items h =
      pass_lem fl max_groups n target items [] fl.zero [] refl (λ e. h) (λ e. absurd (ground arith))

  after_pass-IsGrouped :
      (fuel : ℕ) (subjobs : List (List Item)) (items : List Item) (r : Passed)
      → below (length subjobs) max_groups ≡ true
      → IsPass fl max_groups (length subjobs) target items r
      → ((next : List (List Item)) (left : List Item)
          → suc (length left) ≤ length items
          → IsGrouped next left (buckets fl fuel max_groups target next left))
      → IsGrouped subjobs items (after_pass fuel subjobs r)
  after_pass-IsGrouped fuel subjobs items (split group left) more p rec =
      split-IsGrouped subjobs items group left p
  after_pass-IsGrouped fuel subjobs items (full group left) more p rec =
      full-IsGrouped subjobs items group left _ more p
        (rec (subjobs ++ group ∷ []) left (shorter group left items (length subjobs) p))

  -- Fuel for as many passes as there are atoms is enough: the loop ends by its own condition.
  pub buckets-IsGrouped :
      (fuel : ℕ) (subjobs : List (List Item)) (items : List Item)
      → length items ≤ fuel
      → IsGrouped subjobs items (buckets fl fuel max_groups target subjobs items)
  buckets-IsGrouped zero subjobs [] h =
      rw (buckets-stop zero subjobs [] (ground arith)) (stopped-IsGrouped subjobs [] (ground arith))
  buckets-IsGrouped zero subjobs (i ∷ items) h = absurd (omega arith)
  buckets-IsGrouped (suc fuel) subjobs items h =
      elim (Bool-cases (below (length subjobs) max_groups && not (is_empty items))) [
        | inl more ↦ rw (buckets-more fuel subjobs items more) (
            after_pass-IsGrouped fuel subjobs items _ (ground arith)
              (fresh_pass (length subjobs) items (ground arith))
              (λ next left fewer. buckets-IsGrouped fuel next left (omega arith)))
        | inr over ↦
            rw (buckets-stop (suc fuel) subjobs items over) (stopped-IsGrouped subjobs items over)
      ]
