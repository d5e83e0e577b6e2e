-- ===== src/Util/Retry/Ending.antt =====
-- How a call with retries ends.
use cluster_runner_jie.Prelude.{
  ℕ, zero, suc, ◌+◌, ◌-◌, ◌*◌, ◌≤◌, ◌<◌, some, ltb, ◌≡◌, inl, inr, refl, sym, subst, arith,
  Bool-cases, true,
}
use native.Mathlib.Decide.{ℕ_discrete}
use cluster_runner_jie.Util.Retry.{
  Attempt, returns, raises_retried, raises_other, Outcome, returned, gave_up, raised, Settings,
  Tried, try_from, function_with_retries,
}

module _ {A : Type 0} (s : Settings) (attempt : ℕ → Attempt A) where
  -- What the last attempt has to do with the outcome.
  abbrev pub Matches : Attempt A → Outcome A → ℕ → Type 0
  Matches (returns a) o slept = o ≡ returned a
  Matches (raises_other e) o slept = o ≡ raised e
  Matches raises_retried o slept = (o ≡ gave_up) × (s.total_delay < slept)

  -- The attempts from `first` on: all but the last one raised an exception that is retried.
  pub record IsEnd (first : ℕ) (r : Tried A) : Type 0 where
    pub some_attempt : first < r.attempts
    pub earlier : (i : ℕ) → first ≤ i → suc i < r.attempts → attempt i ≡ raises_retried
    pub last : Matches (attempt (r.attempts - 1)) r.outcome r.slept
    pub bounded : r.attempts * s.initial_delay ≤ s.total_delay + 2 * s.initial_delay

  -- Before attempt `i`, after `m` units of sleep at least.
  record IsBefore (i m delay so_far : ℕ) : Type 0 where
    product : m ≡ i * s.initial_delay
    grown : s.initial_delay ≤ delay
    slept : m ≤ so_far
    small : m ≤ s.total_delay + s.initial_delay

  module _ (growing : (d : ℕ) → d ≤ s.multiply d) where
    next-IsBefore :
        (i m delay so_far : ℕ)
        → IsBefore i m delay so_far
        → so_far ≤ s.total_delay
        → IsBefore (suc i) (m + s.initial_delay) (s.multiply delay) (so_far + delay)
    next-IsBefore i m delay so_far h l = record {
      product = grind (arith, h.product);
      grown = omega (arith, h.grown, growing delay);
      slept = omega (arith, h.slept, h.grown);
      small = omega (arith, h.slept, l);
    }

    ends_here :
        (i m delay so_far : ℕ) (o : Outcome A)
        → Matches (attempt i) o so_far
        → IsBefore i m delay so_far
        → IsEnd i (record { outcome = o; attempts = suc i; slept = so_far })
    ends_here i m delay so_far o h b = record {
      some_attempt = omega arith;
      earlier = λ j p q. absurd (omega arith);
      last = subst (λ j. Matches (attempt j) o so_far) (omega arith) h;
      bounded = grind (arith, b.product, b.small);
    }

    ends_later : (i : ℕ) (r : Tried A) → attempt i ≡ raises_retried → IsEnd (suc i) r → IsEnd i r
    ends_later i r e h = record {
      some_attempt = omega (arith, h.some_attempt);
      earlier = λ j p q. elim (ℕ_discrete j i) [
        | yes d ↦ subst (λ k. attempt k ≡ raises_retried) (sym d) e
        | no d ↦ h.earlier j (omega arith) q
      ];
      last = h.last;
      bounded = h.bounded;
    }

    step :
        (fuel i m delay so_far : ℕ) (a : Attempt A)
        → attempt i ≡ a
        → IsBefore i m delay so_far
        → (so_far ≤ s.total_delay
            → (r : Tried A) × (try_from s attempt fuel (suc i) (s.multiply delay) (so_far + delay)
                ≡ some r)
              × IsEnd (suc i) r)
        → (r : Tried A) × (try_from s attempt (suc fuel) i delay so_far ≡ some r) × IsEnd i r
    unfolding try_from
    step fuel i m delay so_far (returns a) e b ih = (
      record { outcome = returned a; attempts = suc i; slept = so_far },
      ground (arith, e),
      ends_here i m delay so_far (returned a) (rw e refl) b,
    )
    step fuel i m delay so_far (raises_other x) e b ih = (
      record { outcome = raised x; attempts = suc i; slept = so_far },
      ground (arith, e),
      ends_here i m delay so_far (raised x) (rw e refl) b,
    )
    step fuel i m delay so_far raises_retried e b ih =
        elim (Bool-cases (ltb s.total_delay so_far)) [
          | inl q ↦ (
            record { outcome = gave_up; attempts = suc i; slept = so_far },
            ground (arith, e, q),
            ends_here i m delay so_far gave_up (rw e (refl, ground (arith, q))) b,
          )
          | inr q ↦
              let (r, same, h) = ih (ground (arith, q)) in
              (r, ground (arith, e, q, same), ends_later i r e h)
        ]

    try_from-IsEnd :
        0 < s.initial_delay
        → (fuel i m delay so_far : ℕ) → IsBefore i m delay so_far
        → 1 ≤ fuel
        → s.total_delay + 2 ≤ fuel + so_far
        → (r : Tried A) × (try_from s attempt fuel i delay so_far ≡ some r) × IsEnd i r
    try_from-IsEnd z zero i m delay so_far b p f = absurd (omega arith)
    try_from-IsEnd z (suc fuel) i m delay so_far b p f =
        step fuel i m delay so_far (attempt i) refl b (λ k.
          try_from-IsEnd z fuel (suc i) (m + s.initial_delay) (s.multiply delay) (so_far + delay)
            (next-IsBefore i m delay so_far b k) (omega arith) (omega (arith, b.grown, z)))

  -- With a positive delay, a factor greater than 1, and a product with it that is never smaller than
  -- the delay, a call ends: every attempt but the last one raised an exception that is retried, and
  -- the outcome is that of the last one. It gives up only after it has slept longer than the total
  -- delay. The attempts are at most two more than first delays fit into the total delay.
  pub function_with_retries_lem :
      0 < s.initial_delay
      → s.factor_is_valid ≡ true
      → ((d : ℕ) → d ≤ s.multiply d)
      → (r : Tried A) × (function_with_retries s attempt (s.total_delay + 2) ≡ some r) × IsEnd 0 r
  unfolding function_with_retries
  function_with_retries_lem positive valid growing =
      let start : IsBefore 0 0 s.initial_delay 0 = record {
        product = omega arith;
        grown = omega arith;
        slept = omega arith;
        small = omega arith;
      } in
      let (r, same, h) =
        try_from-IsEnd growing positive (s.total_delay + 2) 0 0 s.initial_delay 0 start
          (omega arith) (omega arith) in
      (r, ground (arith, same, valid), h)
