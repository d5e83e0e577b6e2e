-- ===== src/WebFramework/Routes.antt =====
-- app/web_framework/route_node.py and cluster_application.py. A node of the program knows its
-- parent; here a list of routes holds each node with its ancestors, the nearest first.
pub mod Versions
pub mod MasterTree
pub mod SlaveTree
mod Examples
use cluster_runner_jie.Prelude.{
  ℕ, Bool, true, false, Option, none, some, String, List, [], ◌∷◌, ◌++◌, map, ◌==◌, if◌then◌else◌,
}
use mathlib.Core.List.{reverse}

mutual
  pub data RouteNode : Type 0 where
    -- label, regex_part, handler, version and children
    node : String → String → String → Option ℕ → Nodes → RouteNode

  pub data Nodes : Type 0 where
    nil : Nodes
    cons : RouteNode → Nodes → Nodes

abbrev pub version : RouteNode → Option ℕ
version (node label regex_part handler v children) = v

abbrev pub regex_part : RouteNode → String
regex_part (node label part handler v children) = part

abbrev pub children : RouteNode → Nodes
children (node label part handler v kids) = kids

abbrev pub append : Nodes → Nodes → Nodes
append nil more = more
append (cons n ns) more = cons n (append ns more)

-- The label of a node is its regular expression, if it has no other.
abbrev pub new_node : String → String → Option String → RouteNode
new_node part handler none = node part part handler none nil
new_node part handler (some label) = node label part handler none nil

unfoldable mutual
  pub assign_version : ℕ → RouteNode → RouteNode
  assign_version v (node label part handler old kids) =
      node label part handler (some v) (assign_versions v kids)

  pub assign_versions : ℕ → Nodes → Nodes
  assign_versions v nil = nil
  assign_versions v (cons n ns) = cons (assign_version v n) (assign_versions v ns)

abbrev pub versioned : Option ℕ → Nodes → Nodes
versioned none kids = kids
versioned (some v) kids = assign_versions v kids

unfoldable pub add_children : Nodes → Option ℕ → RouteNode → RouteNode
unfolding assign_versions
add_children child_nodes v (node label part handler own kids) =
    node label part handler own (append kids (versioned v child_nodes))

abbrev pub has_version : ℕ → Option ℕ → Bool
has_version v none = false
has_version v (some w) = w == v

unfoldable pub get_children : ℕ → Nodes → List RouteNode
get_children v nil = []
get_children v (cons n ns) =
    let rest = get_children v ns in if has_version v (version n) then n ∷ rest else rest

abbrev pub to_list : Nodes → List RouteNode
to_list nil = []
to_list (cons n ns) = n ∷ to_list ns

-- Each child, and then the descendants of each.
abbrev pub with_ancestors : List RouteNode → Nodes → List (List RouteNode × RouteNode)
with_ancestors above nil = []
with_ancestors above (cons n ns) = (above, n) ∷ with_ancestors above ns

unfoldable mutual
  pub descendants : List RouteNode → RouteNode → List (List RouteNode × RouteNode)
  descendants above (node label part handler v kids) =
      let here = node label part handler v kids in
      with_ancestors (here ∷ above) kids ++ descendants_of (here ∷ above) kids

  pub descendants_of : List RouteNode → Nodes → List (List RouteNode × RouteNode)
  descendants_of above nil = []
  descendants_of above (cons n ns) = descendants above n ++ descendants_of above ns

-- `rstrip('/')`, `'/'.join`, and the ending of a regular expression.
pub record Texts : Type 0 where
  pub rstrip : String → String
  pub join : List String → String
  pub with_ending : String → String

module _ (t : Texts) where
  unfoldable pub regex : List RouteNode × RouteNode → String
  regex (above, n) =
      t.with_ending (
        t.rstrip (t.join (map (λ a. t.rstrip (regex_part a)) (reverse above) ++ regex_part n ∷ [])))

  -- The regular expression and the route of each handler.
  unfoldable pub get_all_handlers : RouteNode → List (String × RouteNode)
  unfolding descendants descendants_of regex
  get_all_handlers root = map (λ r. (regex r, r.1)) (([], root) ∷ descendants [] root)
