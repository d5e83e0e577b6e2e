-- ===== src/Util/OrderedSet/Links.antt =====
-- Chains of nodes: what a write to the places `prev` and `next` does to them.
use cluster_runner_jie.Prelude.{ℕ, List, [], ◌∷◌, ◌++◌, All, ◌≡◌, ◌≢◌, ◌∙◌, arith, ==_iff}
use cluster_runner_jie.Util.OrderedSet.{write}

pub write_same : {A : Type 0} (i : ℕ) (v : A) (f : ℕ → A) → write i v f i ≡ v
write_same i v f = ground (arith, ==_iff i i)

pub write_other : {A : Type 0} (i j : ℕ) (v : A) (f : ℕ → A) → i ≢ j → write i v f j ≡ f j
write_other i j v f d = ground (arith, ==_iff i j)

abbrev pub Distinct : {A : Type 0} → List A → Type 0
Distinct [] = Unit
Distinct (x ∷ xs) = All (λ y. x ≢ y) xs × Distinct xs

-- From `p` through `as` to `q`, along `next` and back along `prev`.
abbrev pub Forward : (ℕ → ℕ) → ℕ → List ℕ → ℕ → Type 0
Forward next p [] q = next p ≡ q
Forward next p (a ∷ as') q = next p ≡ a × Forward next a as' q

abbrev pub Backward : (ℕ → ℕ) → ℕ → List ℕ → ℕ → Type 0
Backward prev p [] q = prev q ≡ p
Backward prev p (a ∷ as') q = prev a ≡ p × Backward prev a as' q

abbrev pub last_of : ℕ → List ℕ → ℕ
last_of p [] = p
last_of p (a ∷ as') = last_of a as'

abbrev pub first_of : List ℕ → ℕ → ℕ
first_of [] q = q
first_of (a ∷ as') q = a

pub Backward-last :
    (prev : ℕ → ℕ) (p : ℕ) (as' : List ℕ) (q : ℕ) → Backward prev p as' q → prev q ≡ last_of p as'
Backward-last prev p [] q h = h
Backward-last prev p (a ∷ as') q h = Backward-last prev a as' q h.1

pub Forward-first :
    (next : ℕ → ℕ) (p : ℕ) (as' : List ℕ) (q : ℕ) → Forward next p as' q → next p ≡ first_of as' q
Forward-first next p [] q h = h
Forward-first next p (a ∷ as') q h = h.0

pub Forward-middle :
    (next : ℕ → ℕ) (p : ℕ) (xs : List ℕ) (a : ℕ) (ys : List ℕ) (q : ℕ)
    → Forward next p (xs ++ a ∷ ys) q
    → next a ≡ first_of ys q
Forward-middle next p [] a ys q h = Forward-first next a ys q h.1
Forward-middle next p (x ∷ xs) a ys q h = Forward-middle next x xs a ys q h.1

pub Backward-middle :
    (prev : ℕ → ℕ) (p : ℕ) (xs : List ℕ) (a : ℕ) (ys : List ℕ) (q : ℕ)
    → Backward prev p (xs ++ a ∷ ys) q
    → prev a ≡ last_of p xs
Backward-middle prev p [] a ys q h = h.0
Backward-middle prev p (x ∷ xs) a ys q h = Backward-middle prev x xs a ys q h.1

pub last_of-other : (b p : ℕ) (as' : List ℕ) → b ≢ p → All (λ a. b ≢ a) as' → b ≢ last_of p as'
last_of-other b p [] d h = d
last_of-other b p (a ∷ as') d h = last_of-other b a as' h.0 h.1

pub first_of-other :
    (b : ℕ) (as' : List ℕ) (q : ℕ) → b ≢ q → All (λ a. b ≢ a) as' → b ≢ first_of as' q
first_of-other b [] q d h = d
first_of-other b (a ∷ as') q d h = h.0

-- A write to a place that the chain does not read leaves it.
pub Forward-frame :
    (next : ℕ → ℕ) (i v p : ℕ) (as' : List ℕ) (q : ℕ)
    → i ≢ p
    → All (λ a. i ≢ a) as'
    → Forward next p as' q
    → Forward (write i v next) p as' q
Forward-frame next i v p [] q d ds h = write_other i p v next d ∙ h
Forward-frame next i v p (a ∷ as') q d ds h =
    (write_other i p v next d ∙ h.0, Forward-frame next i v a as' q ds.0 ds.1 h.1)

pub Backward-frame :
    (prev : ℕ → ℕ) (i v p : ℕ) (as' : List ℕ) (q : ℕ)
    → i ≢ q
    → All (λ a. i ≢ a) as'
    → Backward prev p as' q
    → Backward (write i v prev) p as' q
Backward-frame prev i v p [] q d ds h = write_other i q v prev d ∙ h
Backward-frame prev i v p (a ∷ as') q d ds h =
    (write_other i a v prev ds.0 ∙ h.0, Backward-frame prev i v a as' q d ds.1 h.1)
