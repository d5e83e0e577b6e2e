-- ===== src/Util/SingleUseCoin/Once.antt =====
-- How many of the callers of `spend` are told that they spent the coin.
use cluster_runner_jie.Prelude.{
  ℕ, zero, suc, ◌≡◌, refl, ap, Bool, true, false, List, [], ◌∷◌, arith,
}
use cluster_runner_jie.Util.SingleUseCoin.{SingleUseCoin, new, spend, spend_each}

abbrev pub refusals : ℕ → List Bool
refusals zero = []
refusals (suc n) = false ∷ refusals n

spend_each-spent : (n : ℕ) (c : SingleUseCoin) → c.is_spent ≡ true → spend_each n c ≡ refusals n
unfolding spend_each spend
spend_each-spent zero c h = refl
spend_each-spent (suc n) c h = ground (arith, spend_each-spent n c h)

-- However many threads spend a new coin, the one that comes first is told that it did, and every
-- other one that it did not.
pub spend_each_lem : (n : ℕ) → spend_each (suc n) new ≡ true ∷ refusals n
unfolding spend_each spend
spend_each_lem n = ap (λ t. true ∷ t) (spend_each-spent n (record { is_spent = true }) refl)
