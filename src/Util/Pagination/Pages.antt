-- ===== src/Util/Pagination/Pages.antt =====
-- What a client of a paginated list receives.
use cluster_runner_jie.Prelude.{
  ℕ, ◌+◌, ◌≡◌, ◌⊎◌, inl, inr, Option, none, some, List, ◌++◌, arith, take, drop, length,
  length-drop, take_cap, take_all, take-append_drop, drop-drop,
}
use cluster_runner_jie.Prelude.Int.{ℤ, pos, pos_part}
use cluster_runner_jie.Util.Pagination.{get_paginated_indices, slice}

abbrev pub page {ℓ} : {A : Type ℓ} → Option ℤ → Option ℤ → List A → List A
page offset limit xs = slice (get_paginated_indices offset limit (length xs)) xs

module _ {ℓ} {A : Type ℓ} where
  -- With both parameters the client receives at most `limit` entries that follow the first `offset`
  -- ones, a negative parameter counting as 0.
  pub page_window :
      (offset limit : ℤ) (xs : List A)
      → page (some offset) (some limit) xs ≡ take (pos_part limit) (drop (pos_part offset) xs)
  unfolding get_paginated_indices slice
  page_window offset limit xs =
      take_cap _ (pos_part limit) (drop (pos_part offset) xs)
        (omega (arith, length-drop (pos_part offset) xs))

  -- Without an offset or without a limit it receives the whole list.
  pub page_whole :
      (offset limit : Option ℤ) (xs : List A)
      → (offset ≡ none) ⊎ (limit ≡ none)
      → page offset limit xs ≡ xs
  unfolding get_paginated_indices slice
  page_whole none limit xs h = take_all _ xs (omega arith)
  page_whole (some o) none xs h = take_all _ xs (omega arith)
  page_whole (some o) (some l) xs (inl e) = absurd (cc)
  page_whole (some o) (some l) xs (inr e) = absurd (cc)

  -- Two neighbouring pages together are the page of both sizes: none is skipped or sent twice.
  pub page-append :
      (start m n : ℕ) (xs : List A)
      → page (some (pos start)) (some (pos m)) xs ++ page (some (pos (start + m))) (some (pos n)) xs
        ≡ page (some (pos start)) (some (pos (m + n))) xs
  page-append start m n xs =
      rw
        (
          page_window (pos start) (pos m) xs,
          page_window (pos (start + m)) (pos n) xs,
          page_window (pos start) (pos (m + n)) xs,
          ← drop-drop m start xs,
        )
        (take-append_drop m n (drop start xs))
