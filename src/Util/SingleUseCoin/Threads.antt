-- ===== src/Util/SingleUseCoin/Threads.antt =====
-- app/util/single_use_coin.py: threads inside `spend`, one part of it at a time. A thread waits for
-- the lock, reads the flag while it holds the lock, and sets it if it was not set.
pub mod Exclusive
use cluster_runner_jie.Prelude.{
  ℕ, zero, suc, Bool, true, false, Option, none, some, List, [], ◌∷◌, if◌then◌else◌,
}
use cluster_runner_jie.Util.SingleUseCoin.{SingleUseCoin, new}

-- Where a thread is, and what `spend` has given it.
pub data Phase : Type 0 where
  waiting reading writing : Phase
  answered : Bool → Phase

pub record Spending : Type 0 where
  pub coin : SingleUseCoin
  pub is_locked : Bool
  pub threads : List Phase

abbrev pub callers : ℕ → List Phase
callers zero = []
callers (suc n) = waiting ∷ callers n

-- `n` threads that call `spend` on a new coin.
abbrev pub start : ℕ → Spending
start n = record { coin = new; is_locked = false; threads = callers n }

abbrev pub phase_at : ℕ → List Phase → Option Phase
phase_at i [] = none
phase_at zero (p ∷ ps) = some p
phase_at (suc i) (p ∷ ps) = phase_at i ps

abbrev pub set_phase : ℕ → Phase → List Phase → List Phase
set_phase i q [] = []
set_phase zero q (p ∷ ps) = q ∷ ps
set_phase (suc i) q (p ∷ ps) = p ∷ set_phase i q ps

-- The thread goes on; one that waits for a lock that is held stays where it is.
unfoldable pub go_on : ℕ → Option Phase → Spending → Spending
go_on i none s = s
go_on i (some waiting) s =
    if s.is_locked
    then s
    else record s { is_locked = true; threads = set_phase i reading s.threads }
go_on i (some reading) s =
    if s.coin.is_spent
    then record s { is_locked = false; threads = set_phase i (answered false) s.threads }
    else record s { threads = set_phase i writing s.threads }
go_on i (some writing) s = record s {
  coin = record { is_spent = true };
  is_locked = false;
  threads = set_phase i (answered true) s.threads;
}
go_on i (some (answered b)) s = s

-- The threads go on in the order of the schedule.
unfoldable pub interleave : List ℕ → Spending → Spending
unfolding go_on
interleave [] s = s
interleave (i ∷ is') s = interleave is' (go_on i (phase_at i s.threads) s)
