-- ===== src/WebFramework/Routes/Versions.antt =====
-- What a client of one version of the API is shown.
use cluster_runner_jie.Prelude.{
  ℕ, none, some, String, List, [], ◌∷◌, ◌++◌, All, All-append, ◌≡◌, ◌≢◌, refl, sym, ap₂, ◌∙◌, arith,
}
use mathlib.Core.List.{append-nil}
use cluster_runner_jie.WebFramework.Routes.{
  RouteNode, node, Nodes, nil, cons, version, children, append, assign_version, assign_versions,
  add_children, get_children, to_list, with_ancestors, descendants, descendants_of,
}

abbrev pub AllOf : ℕ → Nodes → Type 0
AllOf v nil = Unit {0}
AllOf v (cons n ns) = (version n ≡ some v) × AllOf v ns

-- The node has the version, and all its children are shown to a client of it.
abbrev pub Shows : ℕ → List RouteNode × RouteNode → Type 0
Shows v (above, n) = (version n ≡ some v) × (get_children v (children n) ≡ to_list (children n))

assign_versions-AllOf : (v : ℕ) (ns : Nodes) → AllOf v (assign_versions v ns)
unfolding assign_version assign_versions
assign_versions-AllOf v nil = tt
assign_versions-AllOf v (cons (node label part handler old kids) ns) =
    (refl, assign_versions-AllOf v ns)

get_children-all : (v : ℕ) (ns : Nodes) → AllOf v ns → get_children v ns ≡ to_list ns
unfolding get_children
get_children-all v nil h = refl
get_children-all v (cons n ns) h = rw h.0 (ground (arith, get_children-all v ns h.1))

get_children-none : (v w : ℕ) (ns : Nodes) → w ≢ v → AllOf w ns → get_children v ns ≡ []
unfolding get_children
get_children-none v w nil n h = refl
get_children-none v w (cons a ns) n h = rw h.0 (ground (arith, get_children-none v w ns n h.1))

get_children-append :
    (v : ℕ) (ns more : Nodes)
    → get_children v (append ns more) ≡ get_children v ns ++ get_children v more
unfolding get_children
get_children-append v nil more = refl
get_children-append v (cons n ns) more = ground (arith, get_children-append v ns more)

shown :
    (v : ℕ) (ns : Nodes) → get_children v (assign_versions v ns) ≡ to_list (assign_versions v ns)
shown v ns = get_children-all v (assign_versions v ns) (assign_versions-AllOf v ns)

with_ancestors-Shows :
    (v : ℕ) (above : List RouteNode) (ns : Nodes)
    → All (Shows v) (with_ancestors above (assign_versions v ns))
unfolding assign_version assign_versions
with_ancestors-Shows v above nil = tt
with_ancestors-Shows v above (cons (node label part handler old kids) ns) =
    ((refl, shown v kids), with_ancestors-Shows v above ns)

mutual
  unfolding assign_version assign_versions descendants descendants_of

  descendants-Shows :
      (v : ℕ) (above : List RouteNode) (n : RouteNode)
      → All (Shows v) (descendants above (assign_version v n))
  descendants-Shows v above (node label part handler old kids) =
      let here = node label part handler (some v) (assign_versions v kids) in
      All-append (Shows v) (with_ancestors (here ∷ above) (assign_versions v kids))
        (descendants_of (here ∷ above) (assign_versions v kids))
        (with_ancestors-Shows v (here ∷ above) kids) (descendants_of-Shows v (here ∷ above) kids)

  descendants_of-Shows :
      (v : ℕ) (above : List RouteNode) (ns : Nodes)
      → All (Shows v) (descendants_of above (assign_versions v ns))
  descendants_of-Shows v above nil = tt
  descendants_of-Shows v above (cons n ns) =
      All-append (Shows v) (descendants above (assign_version v n))
        (descendants_of above (assign_versions v ns)) (descendants-Shows v above n)
        (descendants_of-Shows v above ns)

-- A root without children that is given the routes of two versions: a client of either version is
-- shown all routes of that version at the root, and none of the other; and every route below has
-- its version, and shows all its children to a client of it.
pub api_versions_lem :
    (v w : ℕ) (label part handler : String) (kids kids' : Nodes)
    → v ≢ w
    → let root = node label part handler none nil in
      let api = add_children kids' (some w) (add_children kids (some v) root) in
      (get_children v (children api) ≡ to_list (assign_versions v kids))
      × (get_children w (children api) ≡ to_list (assign_versions w kids'))
      × All (Shows v) (descendants_of (api ∷ []) (assign_versions v kids))
      × All (Shows w) (descendants_of (api ∷ []) (assign_versions w kids'))
unfolding add_children
api_versions_lem v w label part handler kids kids' n = (
  get_children-append v (assign_versions v kids) (assign_versions w kids')
      ∙ ap₂ (λ xs ys. xs ++ ys) (shown v kids)
          (get_children-none v w (assign_versions w kids') (λ e. n (sym e))
            (assign_versions-AllOf w kids'))
      ∙ append-nil (to_list (assign_versions v kids)),
  get_children-append w (assign_versions v kids) (assign_versions w kids')
      ∙ ap₂ (λ xs ys. xs ++ ys)
          (get_children-none w v (assign_versions v kids) n (assign_versions-AllOf v kids))
          (shown w kids'),
  descendants_of-Shows v _ kids,
  descendants_of-Shows w _ kids',
)
