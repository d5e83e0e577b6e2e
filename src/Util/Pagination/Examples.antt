-- ===== src/Util/Pagination/Examples.antt =====
-- Pages of a short list.
use cluster_runner_jie.Prelude.{ℕ, ◌≡◌, refl, inl, ◌++◌, none, some, List, [], ◌∷◌}
use cluster_runner_jie.Prelude.Int.{pos}
use cluster_runner_jie.Util.Pagination.{get_paginated_indices, slice}
use cluster_runner_jie.Util.Pagination.Pages.{page, page_whole, page-append}

abbrev builds : List ℕ
builds = 1 ∷ 2 ∷ 3 ∷ 4 ∷ 5 ∷ []

page_whole_example : page none (some (pos 2)) builds ≡ builds
page_whole_example = page_whole none (some (pos 2)) builds (inl refl)

two_pages :
    page (some (pos 1)) (some (pos 2)) builds ++ page (some (pos 3)) (some (pos 9)) builds
    ≡ 2 ∷ 3 ∷ 4 ∷ 5 ∷ []
unfolding slice get_paginated_indices
two_pages = page-append 1 2 9 builds

-- An offset past the end gives a start above the end; the slice is empty.
start_past_end : get_paginated_indices (some (pos 9)) (some (pos 2)) 5 ≡ (9, 5)
unfolding get_paginated_indices
start_past_end = refl
