-- ===== src/WebFramework/Routes/Examples.antt =====
-- The routes of the master and of a slave.
use cluster_runner_jie.Prelude.{[], ◌∷◌, length, some, none, All, ◌≡◌, refl, arith}
use cluster_runner_jie.WebFramework.Routes.{
  node, nil, children, add_children, get_children, to_list, assign_versions, descendants,
  descendants_of,
}
use cluster_runner_jie.WebFramework.Routes.MasterTree
use cluster_runner_jie.WebFramework.Routes.SlaveTree
use cluster_runner_jie.WebFramework.Routes.Versions.{Shows, api_versions_lem}

api_versions_lem_example :
    let root = node "/" "/" "RootHandler" none nil in
    let api =
      add_children MasterTree.api_v2 (some 2) (add_children MasterTree.api_v1 (some 1) root) in
    (get_children 1 (children api) ≡ to_list (assign_versions 1 MasterTree.api_v1))
    × (get_children 2 (children api) ≡ to_list (assign_versions 2 MasterTree.api_v2))
    × All (Shows 1) (descendants_of (api ∷ []) (assign_versions 1 MasterTree.api_v1))
    × All (Shows 2) (descendants_of (api ∷ []) (assign_versions 2 MasterTree.api_v2))
api_versions_lem_example =
    api_versions_lem 1 2 "/" "/" "RootHandler" MasterTree.api_v1 MasterTree.api_v2
      (λ e. absurd (omega arith))

-- The master has 41 routes below its root, a slave 29.
master_routes : length (descendants [] MasterTree.routes) ≡ 41
unfolding descendants MasterTree.routes
master_routes = refl

slave_routes : length (descendants [] SlaveTree.routes) ≡ 29
unfolding descendants SlaveTree.routes
slave_routes = refl
