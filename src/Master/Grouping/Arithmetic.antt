-- ===== src/Master/Grouping/Arithmetic.antt =====
-- Python's floats: a number is the pattern of its 64 bits, and its arithmetic is a parameter.
use cluster_runner_jie.Prelude.{ℕ, Bool, ◌≡◌}

abbrev pub Float : Type 0
Float = ℕ

pub record Floats : Type 0 where
  pub zero : Float
  pub one : Float
  -- 0.8
  pub big_chunk_fraction : Float
  pub of_int : ℕ → Float
  pub add : Float → Float → Float
  pub sub : Float → Float → Float
  pub mul : Float → Float → Float
  pub div : Float → Float → Float
  pub lt : Float → Float → Bool
  pub le : Float → Float → Bool
  -- IEEE 754 addition is commutative
  pub add_comm : (a b : Float) → add a b ≡ add b a
