-- ===== src/Util/SingleUseCoin/Threads/Exclusive.antt =====
-- However the threads are interleaved, the coin is spent once.
use cluster_runner_jie.Prelude.{
  ℕ, zero, suc, ◌+◌, ◌≤◌, ◌<◌, Bool, true, false, Option, none, some, List, [], ◌∷◌, ◌≡◌, ◌∙◌, refl,
  arith, length, if◌then◌else◌, Bool-cases, inl, inr,
}
use cluster_runner_jie.Util.SingleUseCoin.Threads.{
  Phase, waiting, reading, writing, answered, Spending, callers, start, phase_at, set_phase, go_on,
  interleave,
}

-- How many threads are in a phase that has a weight.
abbrev pub count : (Phase → ℕ) → List Phase → ℕ
count f [] = 0
count f (p ∷ ps) = f p + count f ps

abbrev pub told : Bool → Phase → ℕ
told true (answered true) = 1
told false (answered false) = 1
told _ _ = 0

abbrev pub holds : Phase → ℕ
holds reading = 1
holds writing = 1
holds _ = 0

abbrev writes : Phase → ℕ
writes writing = 1
writes _ = 0

count-set :
    (f : Phase → ℕ) (i : ℕ) (p q : Phase) (ps : List Phase)
    → phase_at i ps ≡ some p
    → count f (set_phase i q ps) + f p ≡ count f ps + f q
count-set f i p q [] e = absurd (ground arith)
count-set f zero p q (x ∷ ps) e = ground (arith, e)
count-set f (suc i) p q (x ∷ ps) e = omega (arith, count-set f i p q ps e)

length-set : (i : ℕ) (q : Phase) (ps : List Phase) → length (set_phase i q ps) ≡ length ps
length-set i q [] = refl
length-set zero q (p ∷ ps) = omega arith
length-set (suc i) q (p ∷ ps) = omega (arith, length-set i q ps)

writes-holds_each : (p : Phase) → writes p ≤ holds p
writes-holds_each waiting = omega arith
writes-holds_each reading = omega arith
writes-holds_each writing = omega arith
writes-holds_each (answered b) = omega arith

writes-holds : (ps : List Phase) → count writes ps ≤ count holds ps
writes-holds [] = omega arith
writes-holds (p ∷ ps) = omega (arith, writes-holds_each p, writes-holds ps)

-- A thread that reads holds the lock and does not write.
count-reading :
    (i : ℕ) (ps : List Phase) → phase_at i ps ≡ some reading → count writes ps < count holds ps
count-reading i [] e = absurd (ground arith)
count-reading zero (p ∷ ps) e = ground (arith, e, writes-holds ps)
count-reading (suc i) (p ∷ ps) e = omega (arith, count-reading i ps e, writes-holds_each p)

waiting-all : (n : ℕ) → length (callers n) ≡ n
waiting-all zero = refl
waiting-all (suc n) = omega (arith, waiting-all n)

waiting-none : (f : Phase → ℕ) (n : ℕ) → f waiting ≡ 0 → count f (callers n) ≡ 0
waiting-none f zero z = refl
waiting-none f (suc n) z = omega (arith, z, waiting-none f n z)

record IsExclusive (n : ℕ) (s : Spending) : Type 0 where
  all : length s.threads ≡ n
  held : count holds s.threads ≡ (if s.is_locked then 1 else 0)
  writers : count writes s.threads ≤ count holds s.threads
  spent : s.coin.is_spent ≡ true → (count (told true) s.threads ≡ 1) × (count writes s.threads ≡ 0)
  unspent :
      s.coin.is_spent ≡ false
      → (count (told true) s.threads ≡ 0) × (count (told false) s.threads ≡ 0)

module _ (n i : ℕ) (s : Spending) (h : IsExclusive n s) where
  in_either :
      (b : Bool) (x y : Spending)
      → (b ≡ true → IsExclusive n x)
      → (b ≡ false → IsExclusive n y)
      → IsExclusive n (if b then x else y)
  in_either true x y p q = p refl
  in_either false x y p q = q refl

  go_on-IsExclusive : (p : Option Phase) → phase_at i s.threads ≡ p → IsExclusive n (go_on i p s)
  unfolding go_on
  go_on-IsExclusive none e = h
  go_on-IsExclusive (some (answered b)) e = h
  go_on-IsExclusive (some waiting) e =
      in_either s.is_locked _ _ (λ l. h)
        (λ l. record {
          all = length-set i reading s.threads ∙ h.all;
          held = ground (arith, count-set holds i waiting reading s.threads e, h.held, l);
          writers = ground (
            arith,
            count-set holds i waiting reading s.threads e,
            count-set writes i waiting reading s.threads e,
            h.writers,
          );
          spent = λ q. ground (
            arith,
            count-set (told true) i waiting reading s.threads e,
            count-set writes i waiting reading s.threads e,
            h.spent q,
          );
          unspent = λ q. ground (
            arith,
            count-set (told true) i waiting reading s.threads e,
            count-set (told false) i waiting reading s.threads e,
            h.unspent q,
          );
        })
  go_on-IsExclusive (some reading) e =
      in_either s.coin.is_spent _ _
        (λ c. record {
          all = length-set i (answered false) s.threads ∙ h.all;
          held = ground (arith, count-set holds i reading (answered false) s.threads e, h.held);
          writers =
              ground (arith, count-set writes i reading (answered false) s.threads e, h.spent c);
          spent = λ q. ground (
            arith,
            count-set (told true) i reading (answered false) s.threads e,
            count-set writes i reading (answered false) s.threads e,
            h.spent c,
          );
          unspent = λ q. absurd (ground (arith, c, q));
        })
        (λ c. record {
          all = length-set i writing s.threads ∙ h.all;
          held = ground (arith, count-set holds i reading writing s.threads e, h.held);
          writers = ground (
            arith,
            count-set holds i reading writing s.threads e,
            count-set writes i reading writing s.threads e,
            count-reading i s.threads e,
          );
          spent = λ q. absurd (ground (arith, c, q));
          unspent = λ q. ground (
            arith,
            count-set (told true) i reading writing s.threads e,
            count-set (told false) i reading writing s.threads e,
            h.unspent c,
          );
        })
  go_on-IsExclusive (some writing) e = elim (Bool-cases s.coin.is_spent) [
    | inl c ↦ absurd (ground (arith, count-set writes i writing waiting s.threads e, h.spent c))
    | inr c ↦ record {
      all = length-set i (answered true) s.threads ∙ h.all;
      held = ground (arith, count-set holds i writing (answered true) s.threads e, h.held);
      writers = ground (
        arith,
        count-set writes i writing (answered true) s.threads e,
        count-set holds i writing (answered true) s.threads e,
        h.writers,
        h.held,
      );
      spent = λ q. ground (
        arith,
        count-set (told true) i writing (answered true) s.threads e,
        count-set writes i writing (answered true) s.threads e,
        h.unspent c,
        h.writers,
        h.held,
      );
      unspent = λ q. absurd (ground arith);
    }
  ]

callers-IsExclusive : (n : ℕ) → IsExclusive n (start n)
callers-IsExclusive n = record {
  all = waiting-all n;
  held = waiting-none holds n refl;
  writers = ground (arith, waiting-none holds n refl, waiting-none writes n refl);
  spent = λ q. absurd (ground arith);
  unspent = λ q. (waiting-none (told true) n refl, waiting-none (told false) n refl);
}

interleave-IsExclusive :
    (is' : List ℕ) (n : ℕ) (s : Spending) → IsExclusive n s → IsExclusive n (interleave is' s)
unfolding interleave
interleave-IsExclusive [] n s h = h
interleave-IsExclusive (i ∷ is') n s h =
    interleave-IsExclusive is' n _ (go_on-IsExclusive n i s h (phase_at i s.threads) refl)

-- However the parts of the calls of `n` threads on a new coin are interleaved: at most one thread
-- holds the lock, at most one is told that it spent the coin, and none is told that it did not while
-- the coin is not spent. Once all threads have their answers, and there is one at least, exactly one
-- of them is told that it spent the coin.
pub interleave_lem :
    (n : ℕ) (schedule : List ℕ)
    → let s = interleave schedule (start n) in
      (count holds s.threads ≤ 1)
      × (count (told true) s.threads ≤ 1)
      × (s.coin.is_spent ≡ false → count (told false) s.threads ≡ 0)
      × (0 < n
          → count (told true) s.threads + count (told false) s.threads ≡ n
          → count (told true) s.threads ≡ 1)
interleave_lem n schedule =
    let s = interleave schedule (start n) in
    let h = interleave-IsExclusive schedule n (start n) (callers-IsExclusive n) in
    elim (Bool-cases s.coin.is_spent) [
      | inl c ↦ ground (arith, h.held, h.spent c, c)
      | inr c ↦ ground (arith, h.held, h.unspent c, c)
    ]
