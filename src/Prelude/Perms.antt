-- ===== src/Prelude/Perms.antt =====
-- Lists that differ in their order.
use Prim.Native.Nat.{ℕ, zero, suc}
use mathlib.Core.Nat
use mathlib.Core.Path.{◌≡◌, refl, sym, ap, subst, ◌∙◌}
use mathlib.Core.List.{List, [], ◌∷◌, ◌++◌, Perm, append_assoc, append-nil, perm_middle}
use mathlib.Core.List as List
use mathlib.Core.List.Perm
use cluster_runner_jie.Prelude.Lists.{length}

abbrev native : Nat.ℕ → ℕ
native Nat.zero = zero
native (Nat.suc n) = suc (native n)

module _ {ℓ} {A : Type ℓ} where
  native-length : (xs : List A) → native (List.length xs) ≡ length xs
  native-length [] = refl
  native-length (x ∷ xs) = ap suc (native-length xs)

  pub length-Perm : {xs ys : List A} → Perm xs ys → length xs ≡ length ys
  length-Perm {xs} {ys} p = sym (native-length xs) ∙ ap native (Perm.length-eq p) ∙ native-length ys

  -- An item moves from the head of one list to the end of another, or back from its middle.
  pub perm-give : (x : A) (xs ys : List A) → Perm ((x ∷ xs) ++ ys) (xs ++ (ys ++ x ∷ []))
  perm-give x xs ys = subst (Perm ((x ∷ xs) ++ ys)) (append_assoc xs ys (x ∷ [])) (
      subst (λ l. Perm (x ∷ l) ((xs ++ ys) ++ x ∷ [])) (append-nil (xs ++ ys))
        (Perm.symm (perm_middle (xs ++ ys) [])))

  pub perm-take_back :
      (x : A) (xs ys zs : List A) → Perm (xs ++ (ys ++ x ∷ zs)) ((xs ++ x ∷ []) ++ (ys ++ zs))
  perm-take_back x xs ys zs =
      subst (Perm (xs ++ (ys ++ x ∷ zs))) (sym (append_assoc xs (x ∷ []) (ys ++ zs)))
        (Perm.append_left xs (perm_middle ys zs))
