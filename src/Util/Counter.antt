-- ===== src/Util/Counter.antt =====
-- app/util/counter.py. The value lies in a queue with room for one, which serves as a lock: a
-- change is a `get` and a `put` that no other thread comes between.
use cluster_runner_jie.Prelude.{zero, suc}
use cluster_runner_jie.Prelude.Int.{ℤ, pos, negsuc, ◌+ℤ◌}

pub record Counter : Type 0 where
  pub step : ℤ
  pub current : ℤ

abbrev pub new : Counter
new = record { step = pos 1; current = pos 0 }

abbrev pub negate : ℤ → ℤ
negate (pos zero) = pos 0
negate (pos (suc n)) = negsuc n
negate (negsuc n) = pos (suc n)

unfoldable pub change_current_value : ℤ → Counter → Counter × ℤ
change_current_value delta c = let i = c.current +ℤ delta in (record c { current = i }, i)

unfoldable pub increment : Counter → Counter × ℤ
unfolding change_current_value
increment c = change_current_value c.step c

unfoldable pub decrement : Counter → Counter × ℤ
unfolding change_current_value
decrement c = change_current_value (negate c.step) c

unfoldable pub value : Counter → ℤ
unfolding change_current_value
value c = (change_current_value (pos 0) c).1
