-- ===== src/Util/OrderedSet/Splices.antt =====
-- Chains of nodes: a node is put at the end, or taken out. The chains end at the sentinel.
use cluster_runner_jie.Prelude.{ℕ, List, [], ◌∷◌, ◌++◌, All, ◌≡◌, ◌≢◌, sym, ◌∙◌}
use cluster_runner_jie.Util.OrderedSet.{write, end_node}
use cluster_runner_jie.Util.OrderedSet.Links.{
  write_same, write_other, Distinct, Forward, Backward, last_of, first_of, last_of-other,
  first_of-other, Forward-frame, Backward-frame,
}

-- A new node `b` behind the last one, as `append` writes it.
abbrev pub put_next : (ℕ → ℕ) → ℕ → ℕ → ℕ → ℕ
put_next next last b = write last b (write b end_node next)

abbrev pub put_prev : (ℕ → ℕ) → ℕ → ℕ → ℕ → ℕ
put_prev prev last b = write end_node b (write b last prev)

pub Forward-put :
    (next : ℕ → ℕ) (b p : ℕ) (as' : List ℕ)
    → Distinct (p ∷ as')
    → b ≢ p
    → All (λ a. b ≢ a) as'
    → Forward next p as' end_node
    → Forward (put_next next (last_of p as') b) p (as' ++ b ∷ []) end_node
Forward-put next b p [] d n ns h = (
  write_same p b (write b end_node next),
  write_other p b b (write b end_node next) (λ e. n (sym e)) ∙ write_same b end_node next,
)
Forward-put next b p (a ∷ as') d n ns h = (
  write_other (last_of a as') p b (write b end_node next)
        (λ e. last_of-other p a as' d.0.0 d.0.1 (sym e))
      ∙ write_other b p end_node next n
      ∙ h.0,
  Forward-put next b a as' d.1 ns.0 ns.1 h.1,
)

pub Backward-put :
    (prev : ℕ → ℕ) (b last p : ℕ) (as' : List ℕ)
    → last ≡ last_of p as'
    → end_node ≢ b
    → All (λ a. end_node ≢ a) as'
    → All (λ a. b ≢ a) as'
    → Backward prev p as' end_node
    → Backward (put_prev prev last b) p (as' ++ b ∷ []) end_node
Backward-put prev b last p [] l z zs ns h = (
  write_other end_node b b (write b last prev) z ∙ write_same b last prev ∙ l,
  write_same end_node b (write b last prev),
)
Backward-put prev b last p (a ∷ as') l z zs ns h = (
  write_other end_node a b (write b last prev) zs.0 ∙ write_other b a last prev ns.0 ∙ h.0,
  Backward-put prev b last a as' l z zs.1 ns.1 h.1,
)

All-tail :
    {A : Type 0} (P : A → Type 0) (xs : List A) (y : A) (ys : List A)
    → All P (xs ++ y ∷ ys)
    → P y × All P ys
All-tail P [] y ys h = h
All-tail P (x ∷ xs) y ys h = All-tail P xs y ys h.1

All-left : {A : Type 0} (P : A → Type 0) (xs ys : List A) → All P (xs ++ ys) → All P xs
All-left P [] ys h = tt
All-left P (x ∷ xs) ys h = (h.0, All-left P xs ys h.1)

pub Forward-take :
    (next : ℕ → ℕ) (p : ℕ) (xs : List ℕ) (a : ℕ) (ys : List ℕ)
    → Distinct (p ∷ xs ++ a ∷ ys)
    → Forward next p (xs ++ a ∷ ys) end_node
    → Forward (write (last_of p xs) (first_of ys end_node) next) p (xs ++ ys) end_node
Forward-take next p [] a [] d h = write_same p end_node next
Forward-take next p [] a (y ∷ ys) d h =
    (write_same p y next, Forward-frame next p y y ys end_node d.0.1.0 d.0.1.1 h.1.1)
Forward-take next p (x ∷ xs) a ys d h = (
  write_other (last_of x xs) p (first_of ys end_node) next
        (λ e. last_of-other p x xs d.0.0 (All-left (λ y. p ≢ y) xs (a ∷ ys) d.0.1) (sym e))
      ∙ h.0,
  Forward-take next x xs a ys d.1 h.1,
)

pub Backward-take :
    (prev : ℕ → ℕ) (last p : ℕ) (xs : List ℕ) (a : ℕ) (ys : List ℕ)
    → last ≡ last_of p xs
    → Distinct (xs ++ a ∷ ys)
    → All (λ b. end_node ≢ b) (xs ++ a ∷ ys)
    → Backward prev p (xs ++ a ∷ ys) end_node
    → Backward (write (first_of ys end_node) last prev) p (xs ++ ys) end_node
Backward-take prev last p [] a [] l d z h = write_same end_node last prev ∙ l
Backward-take prev last p [] a (y ∷ ys) l d z h = (
  write_same y last prev ∙ l,
  Backward-frame prev y last y ys end_node (λ e. z.1.0 (sym e)) d.1.0 h.1.1,
)
Backward-take prev last p (x ∷ xs) a ys l d z h = (
  write_other (first_of ys end_node) x last prev (λ e.
        first_of-other x ys end_node (λ f. z.0 (sym f)) (All-tail (λ y. x ≢ y) xs a ys d.0).1
          (sym e))
      ∙ h.0,
  Backward-take prev last x xs a ys l d.1 z.1 h.1,
)
