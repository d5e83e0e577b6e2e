-- ===== src/Master/Grouping/Pass.antt =====
-- One pass of the inner loop of `_group_atoms_into_sized_buckets`.
use cluster_runner_jie.Prelude.{
  ℕ, ◌+◌, ◌≡◌, ◌⊎◌, refl, sym, ap, subst, ◌∙◌, inl, inr, Bool, true, false, ◌||◌, Option, some,
  List, [], ◌∷◌, ◌++◌, arith, length, length-append, Bool-cases, min, leb, leb→le, leb→lt,
}
use mathlib.Core.List.{Perm, perm_middle, append_assoc, append-nil}
use mathlib.Core.List.Perm
use cluster_runner_jie.Master.Grouping.Arithmetic.{Floats, Float}
use cluster_runner_jie.Master.Grouping.{Item, Passed, full, split, at_most, is_empty, pass}

abbrev pub group_of : Passed → List Item
group_of (full group left) = group
group_of (split group left) = group

abbrev pub left_of : Passed → List Item
left_of (full group left) = left
left_of (split group left) = left

abbrev pub is_split : Passed → Bool
is_split (full group left) = false
is_split (split group left) = true

append-perm_middle :
    (group kept items : List Item) (i : Item)
    → Perm ((group ++ i ∷ []) ++ (kept ++ items)) (group ++ (kept ++ i ∷ items))
append-perm_middle group kept items i =
    subst (λ l. Perm l (group ++ (kept ++ i ∷ items)))
      (sym (append_assoc group (i ∷ []) (kept ++ items)))
      (Perm.append_left group (Perm.symm (perm_middle kept items)))

is_empty-append : (xs : List Item) (i : Item) → is_empty (xs ++ i ∷ []) ≡ false
is_empty-append [] i = refl
is_empty-append (x ∷ xs) i = refl

empty-length : (xs : List Item) → is_empty xs ≡ true → xs ≡ []
empty-length [] h = refl
empty-length (x ∷ xs) h = absurd (ground arith)

module _ (fl : Floats) where
  -- The time of a group, added up in its order.
  abbrev pub sum_from : Float → List Item → Float
  sum_from s [] = s
  sum_from s (i ∷ is') = sum_from (fl.add s i.1) is'

  sum_from-append :
      (s : Float) (xs : List Item) (i : Item)
      → sum_from s (xs ++ i ∷ []) ≡ fl.add (sum_from s xs) i.1
  sum_from-append s [] i = refl
  sum_from-append s (x ∷ xs) i = sum_from-append (fl.add s x.1) xs i

  -- A group is one atom, or takes no longer than the target.
  abbrev pub Fits : Float → List Item → Type 0
  Fits target g = (length g ≡ 1) ⊎ (fl.le (sum_from fl.zero g) target ≡ true)

  -- What a pass makes of the atoms `all`, when `n` groups are done.
  pub record IsPass (max_groups : Option ℕ) (n : ℕ) (target : Float) (all : List Item) (r : Passed)
      : Type 0 where
    pub perm : Perm (group_of r ++ left_of r) all
    pub nonempty : is_empty (group_of r) ≡ false
    pub fits : Fits target (group_of r)
    pub size : length (group_of r) + length (left_of r) ≡ length all
    pub count : at_most (n + length (left_of r) + 1) max_groups ≡ is_split r
    pub exact :
        (m : ℕ)
        → max_groups ≡ some m
        → is_split r ≡ true
        → n + length (left_of r) + 1 ≡ min m (n + length all)

  module _ (max_groups : Option ℕ) (n : ℕ) (target : Float) where
    took_Fits :
        (group : List Item) (i : Item)
        → (is_empty group || fl.le (fl.add i.1 (sum_from fl.zero group)) target) ≡ true
        → Fits target (group ++ i ∷ [])
    took_Fits [] i h = inl refl
    took_Fits (g ∷ gs) i h = inr (
        ap (λ s. fl.le s target)
          (sum_from-append fl.zero (g ∷ gs) i ∙ fl.add_comm (sum_from fl.zero (g ∷ gs)) i.1)
        ∙ h)

    pass-nil :
        (kept : List Item) (so_far : Float) (group : List Item)
        → pass fl max_groups n target [] kept so_far group ≡ full group kept
    unfolding pass
    pass-nil kept so_far group = refl

    -- What the pass does with an atom.
    module _ (i : Item) (items kept : List Item) (so_far : Float) (group : List Item) where
      abbrev takes : Bool
      takes = is_empty group || fl.le (fl.add i.1 so_far) target

      abbrev is_last : Bool
      is_last = at_most (n + length (kept ++ items) + 1) max_groups

      abbrev this_pass : Passed
      this_pass = pass fl max_groups n target (i ∷ items) kept so_far group

      pass-last :
          takes ≡ true → is_last ≡ true → this_pass ≡ split (group ++ i ∷ []) (kept ++ items)
      unfolding pass
      pass-last h l = ground arith

      pass-take :
          takes ≡ true
          → is_last ≡ false
          → this_pass ≡ pass fl max_groups n target items kept (fl.add so_far i.1) (group ++ i ∷ [])
      unfolding pass
      pass-take h l = rw (h, l, pass) refl

      pass-skip :
          takes ≡ false
          → this_pass ≡ pass fl max_groups n target items (kept ++ i ∷ []) so_far group
      unfolding pass
      pass-skip h = rw (pass, h) refl

    -- The pass in its course, with the group so far, whose time is `so_far`.
    pub pass_lem :
        (items kept : List Item) (so_far : Float) (group : List Item)
        → so_far ≡ sum_from fl.zero group
        → (is_empty group ≡ true → is_empty items ≡ false)
        → (is_empty group ≡ false
            → Fits target group × (at_most (n + length (kept ++ items) + 1) max_groups ≡ false))
        → IsPass max_groups n target
            (group ++ (kept ++ items))
            (pass fl max_groups n target items kept so_far group)
    pass_lem [] kept so_far group s first later = elim (Bool-cases (is_empty group)) [
      | inl e ↦ absurd (ground (arith, first e))
      | inr e ↦ rw (pass-nil kept so_far group) (record {
        perm = subst (λ l. Perm (group ++ kept) (group ++ l)) (sym (append-nil kept)) (Perm.refl _);
        nonempty = e;
        fits = (later e).0;
        size = omega (arith, length-append group (kept ++ []), length-append kept []);
        exact = λ m h k. absurd (ground arith);
        count =
            ap (λ l. at_most (n + length l + 1) max_groups) (sym (append-nil kept)) ∙ (later e).1;
      })
    ]
    pass_lem ((a, time) ∷ items) kept so_far group s first later =
        elim (Bool-cases (is_empty group || fl.le (fl.add time so_far) target)) [
          | inl take ↦ elim (Bool-cases (at_most (n + length (kept ++ items) + 1) max_groups)) [
            | inl last ↦ rw (pass-last (a, time) items kept so_far group take last) (record {
              perm = append-perm_middle group kept items (a, time);
              nonempty = is_empty-append group (a, time);
              fits = fits_now take;
              size = sizes;
              exact = λ m h k.
                  exact_now m
                    (subst (λ o. at_most (n + length (kept ++ items) + 1) o ≡ true) h last)
                    (λ e.
                      subst (λ o. at_most (n + length (kept ++ (a, time) ∷ items) + 1) o ≡ false) h
                        (later e).1);
              count = last;
            })
            | inr more ↦ rw (pass-take (a, time) items kept so_far group take more) (
                widen (append-perm_middle group kept items (a, time)) resized (
                  pass_lem items kept (fl.add so_far time) (group ++ (a, time) ∷ [])
                    (ap (λ t. fl.add t time) s ∙ sym (sum_from-append fl.zero group (a, time)))
                    (λ e. absurd (ground (arith, is_empty-append group (a, time))))
                    (λ e. (fits_now take, more))))
          ]
          | inr skip ↦ rw (pass-skip (a, time) items kept so_far group skip) (
              subst
                (λ l.
                  IsPass max_groups n target (group ++ l)
                    (pass fl max_groups n target items (kept ++ (a, time) ∷ []) so_far group))
                (append_assoc kept ((a, time) ∷ []) items)
                (pass_lem items (kept ++ (a, time) ∷ []) so_far group s (λ e. absurd (ground arith))
                  (λ e. (
                    (later e).0,
                    ap (λ l. at_most (n + length l + 1) max_groups)
                          (append_assoc kept ((a, time) ∷ []) items)
                        ∙ (later e).1,
                  ))))
        ]
      where
        fits_now :
            (is_empty group || fl.le (fl.add time so_far) target) ≡ true
            → Fits target (group ++ (a, time) ∷ [])
        fits_now h =
            took_Fits group (a, time)
              (subst (λ t. (is_empty group || fl.le (fl.add time t) target) ≡ true) s h)

        sizes :
            length (group ++ (a, time) ∷ []) + length (kept ++ items)
            ≡ length (group ++ (kept ++ (a, time) ∷ items))
        sizes = omega (
          arith,
          length-append group ((a, time) ∷ []),
          length-append kept items,
          length-append group (kept ++ (a, time) ∷ items),
          length-append kept ((a, time) ∷ items),
        )

        resized :
            length ((group ++ (a, time) ∷ []) ++ (kept ++ items))
            ≡ length (group ++ (kept ++ (a, time) ∷ items))
        resized = length-append (group ++ (a, time) ∷ []) (kept ++ items) ∙ sizes

        exact_now :
            (m : ℕ)
            → leb (n + length (kept ++ items) + 1) m ≡ true
            → (is_empty group ≡ false → leb (n + length (kept ++ (a, time) ∷ items) + 1) m ≡ false)
            → n + length (kept ++ items) + 1
              ≡ min m (n + length (group ++ (kept ++ (a, time) ∷ items)))
        exact_now m l before = ground (
          arith,
          sizes,
          length-append group ((a, time) ∷ []),
          empty-length group,
          length-append kept items,
          length-append kept ((a, time) ∷ items),
          leb→le (n + length (kept ++ items) + 1) m,
          leb→lt (n + length (kept ++ (a, time) ∷ items) + 1) m,
        )

        widen :
            {xs ys : List Item} {r : Passed}
            → Perm xs ys
            → length xs ≡ length ys
            → IsPass max_groups n target xs r
            → IsPass max_groups n target ys r
        widen h l p = record {
          perm = Perm.trans p.perm h;
          nonempty = p.nonempty;
          fits = p.fits;
          size = p.size ∙ l;
          count = p.count;
          exact = λ m e k. p.exact m e k ∙ ap (λ z. min m (n + z)) l;
        }
