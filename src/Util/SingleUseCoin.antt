-- ===== src/Util/SingleUseCoin.antt =====
-- app/util/single_use_coin.py. `spend` holds the coin's lock, so that calls of several threads are
-- a sequence of calls; Threads has their parts one by one.
pub mod Once
pub mod Threads
mod Examples
use cluster_runner_jie.Prelude.{Bool, true, false, List, [], ◌∷◌, ℕ, zero, suc, if◌then◌else◌}

pub record SingleUseCoin : Type 0 where
  pub is_spent : Bool

abbrev pub new : SingleUseCoin
new = record { is_spent = false }

unfoldable pub spend : SingleUseCoin → SingleUseCoin × Bool
spend c = if c.is_spent then (c, false) else (record { is_spent = true }, true)

-- The answers that callers get, in the order in which they get the lock.
unfoldable pub spend_each : ℕ → SingleUseCoin → List Bool
unfolding spend
spend_each zero c = []
spend_each (suc n) c = (spend c).1 ∷ spend_each n (spend c).0
