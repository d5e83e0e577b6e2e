-- ===== src/Util/Queue.antt =====
-- Python's `queue.Queue`, as the program uses it. `maxsize` 0 means that there is no bound.
use cluster_runner_jie.Prelude.{
  ℕ, Bool, ◌&&◌, Option, none, some, List, [], ◌∷◌, ◌++◌, length, leb, ltb, ◌==◌, if◌then◌else◌,
}

pub record Queue (A : Type 0) : Type 0 where
  pub maxsize : ℕ
  pub items : List A

module _ {A : Type 0} where
  abbrev pub new : ℕ → Queue A
  new maxsize = record { maxsize = maxsize; items = [] }

  abbrev pub qsize : Queue A → ℕ
  qsize q = length q.items

  abbrev pub full : Queue A → Bool
  full q = ltb 0 q.maxsize && leb q.maxsize (length q.items)

  abbrev pub empty : Queue A → Bool
  empty q = length q.items == 0

  -- `put(x, block=False)`: `none` stands for the exception `Full`. A blocking `put` waits there.
  abbrev pub put : A → Queue A → Option (Queue A)
  put x q = if full q then none else some (record q { items = q.items ++ x ∷ [] })

  abbrev pub pop_items : ℕ → List A → Option (A × Queue A)
  pop_items maxsize [] = none
  pop_items maxsize (x ∷ xs) = some (x, record { maxsize = maxsize; items = xs })

  -- `get(block=False)`: `none` stands for the exception `Empty`.
  abbrev pub get : Queue A → Option (A × Queue A)
  get q = pop_items q.maxsize q.items
