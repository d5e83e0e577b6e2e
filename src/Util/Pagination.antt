-- ===== src/Util/Pagination.antt =====
-- app/util/pagination.py, and the slices that its callers take.
pub mod Pages
mod Examples
use cluster_runner_jie.Prelude.{ℕ, ◌+◌, ◌-◌, min, Option, none, some, List, take, drop}
use cluster_runner_jie.Prelude.Int.{ℤ, pos_part}

-- `max(n, 0)` of an integer is its positive part.
unfoldable pub get_paginated_indices : Option ℤ → Option ℤ → ℕ → ℕ × ℕ
get_paginated_indices none limit length = (0, length)
get_paginated_indices (some offset) none length = (0, length)
get_paginated_indices (some offset) (some limit) length =
    (pos_part offset, min (pos_part offset + min length (pos_part limit)) length)

-- `xs[start:end]`, and `islice(xs, start, end)`.
unfoldable pub slice {ℓ} : {A : Type ℓ} → ℕ × ℕ → List A → List A
slice (start, end) xs = take (end - start) (drop start xs)
