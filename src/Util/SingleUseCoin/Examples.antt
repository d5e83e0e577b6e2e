-- ===== src/Util/SingleUseCoin/Examples.antt =====
-- Three callers one after the other, and two at the same time.
use cluster_runner_jie.Prelude.{ℕ, ◌+◌, ◌≤◌, ◌<◌, ◌≡◌, refl, true, false, List, [], ◌∷◌}
use cluster_runner_jie.Util.SingleUseCoin.{new, spend_each}
use cluster_runner_jie.Util.SingleUseCoin.Once.{spend_each_lem}
use cluster_runner_jie.Util.SingleUseCoin.Threads.{Spending, answered, start, interleave}
use cluster_runner_jie.Util.SingleUseCoin.Threads.Exclusive.{count, told, holds, interleave_lem}

three_callers : spend_each 3 new ≡ true ∷ false ∷ false ∷ []
three_callers = spend_each_lem 2

-- The second thread asks for the lock while the first one holds it.
abbrev schedule : List ℕ
schedule = 0 ∷ 1 ∷ 0 ∷ 1 ∷ 0 ∷ 1 ∷ 1 ∷ []

abbrev after : Spending
after = interleave schedule (start 2)

interleave_lem_example :
    (count holds after.threads ≤ 1)
    × (count (told true) after.threads ≤ 1)
    × (after.coin.is_spent ≡ false → count (told false) after.threads ≡ 0)
    × (0 < 2
        → count (told true) after.threads + count (told false) after.threads ≡ 2
        → count (told true) after.threads ≡ 1)
interleave_lem_example = interleave_lem 2 schedule

both_answered : after.threads ≡ answered true ∷ answered false ∷ []
unfolding interleave
both_answered = refl
