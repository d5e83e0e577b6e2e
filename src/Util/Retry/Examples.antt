-- ===== src/Util/Retry/Examples.antt =====
-- A POST that is never answered: six attempts, and 31 seconds of sleep.
use cluster_runner_jie.Prelude.{ℕ, ◌+◌, true, some, ◌≡◌, refl, arith}
use cluster_runner_jie.Util.Retry.{
  Attempt, raises_retried, gave_up, Settings, Tried, function_with_retries,
}
use cluster_runner_jie.Util.Retry.Ending.{IsEnd, function_with_retries_lem}

-- The settings of `Network.post`, in seconds.
abbrev post_settings : Settings
post_settings = record {
  initial_delay = 1;
  total_delay = 15;
  factor_is_valid = true;
  multiply = λ d. d + d;
}

abbrev unanswered : ℕ → Attempt ℕ
unanswered i = raises_retried

function_with_retries_lem_example :
    (r : Tried ℕ) × (function_with_retries post_settings unanswered 17 ≡ some r)
    × IsEnd post_settings unanswered 0 r
function_with_retries_lem_example =
    function_with_retries_lem post_settings unanswered (omega arith) refl (λ d. omega arith)

six_attempts :
    function_with_retries post_settings unanswered 17
    ≡ some (record { outcome = gave_up; attempts = 6; slept = 31 })
unfolding function_with_retries
six_attempts = refl
