-- ===== src/Util/Retry.antt =====
-- app/util/decorators.py: calls that are repeated with growing delays. Delays are
-- whole numbers of some unit: any floats are, of a unit that is small enough. Their product with the
-- factor, which is rounded, is given, and so is what the attempts come to; sums are exact.
pub mod Ending
mod Examples
use cluster_runner_jie.Prelude.{
  ℕ, zero, suc, ◌+◌, Bool, not, Option, none, some, ltb, ◌==◌, if◌then◌else◌,
}
use cluster_runner_jie.Errors.{Error, runtime_error}

-- An attempt returns, raises one of the exceptions that are retried, or raises another one.
pub data Attempt (A : Type 0) : Type 0 where
  returns : A → Attempt A
  raises_retried : Attempt A
  raises_other : Error → Attempt A

pub data Outcome (A : Type 0) : Type 0 where
  returned : A → Outcome A
  gave_up : Outcome A
  raised : Error → Outcome A

pub record Settings : Type 0 where
  pub initial_delay : ℕ
  pub total_delay : ℕ
  -- whether the factor is greater than 1, and the next delay
  pub factor_is_valid : Bool
  pub multiply : ℕ → ℕ

-- What a call comes to: the outcome, the number of attempts, and the time spent sleeping.
pub record Tried (A : Type 0) : Type 0 where
  pub outcome : Outcome A
  pub attempts : ℕ
  pub slept : ℕ

module _ {A : Type 0} (s : Settings) (attempt : ℕ → Attempt A) where
  -- The loop, from attempt `i` on; `none` if the fuel runs out.
  unfoldable pub try_from : ℕ → ℕ → ℕ → ℕ → Option (Tried A)
  try_from zero i delay so_far = none
  try_from (suc fuel) i delay so_far =
      let again = try_from fuel (suc i) (s.multiply delay) (so_far + delay) in
      elim (attempt i) [
        | returns a ↦ some (record { outcome = returned a; attempts = suc i; slept = so_far })
        | raises_other e ↦ some (record { outcome = raised e; attempts = suc i; slept = so_far })
        | raises_retried ↦
            if ltb s.total_delay so_far
            then some (record { outcome = gave_up; attempts = suc i; slept = so_far })
            else again
      ]

  -- A delay that is not positive or a factor that is not greater than 1 is refused.
  unfoldable pub function_with_retries : ℕ → Option (Tried A)
  unfolding try_from
  function_with_retries fuel =
      if s.initial_delay == 0
      then some (record { outcome = raised runtime_error; attempts = 0; slept = 0 })
      else if not s.factor_is_valid
      then some (record { outcome = raised runtime_error; attempts = 0; slept = 0 })
      else try_from fuel 0 s.initial_delay 0
