-- ===== src/Util/OrderedSet.antt =====
-- app/util/ordered_set_queue.py. The nodes `[key, prev, next]` stand in a heap, one function for
-- each of their places; `end_node` is the address of the sentinel.
pub mod Links
pub mod Splices
pub mod Refine
pub mod Lists
pub mod Ops
mod Represents
pub mod Runs
mod Examples
use cluster_runner_jie.Prelude.{
  ℕ, zero, suc, ◌+◌, Bool, Option, none, some, List, [], ◌∷◌, ◌==◌, if◌then◌else◌,
}
use cluster_runner_jie.Prelude.Dict.{Dict, Eq, lookup, insert, remove}
use cluster_runner_jie.Errors.{key_error, Result, ok, err}

pub record OrderedSet (A : Type 0) : Type 0 where
  pub key_of : ℕ → Option A
  pub prev_of : ℕ → ℕ
  pub next_of : ℕ → ℕ
  -- the address of the next node that is made
  pub fresh : ℕ
  pub node_by_key : Dict A ℕ

abbrev pub end_node : ℕ
end_node = 0

abbrev pub write : {A : Type 0} → ℕ → A → (ℕ → A) → ℕ → A
write i v f j = if i == j then v else f j

module _ {A : Type 0} ⦃e : Eq A⦄ where
  unfoldable pub new : OrderedSet A
  new = record {
    key_of = λ _. none;
    prev_of = λ _. end_node;
    next_of = λ _. end_node;
    fresh = 1;
    node_by_key = [];
  }

  -- The node is made, then `curr[2]` and `end[1]` are set to it.
  unfoldable pub append : A → OrderedSet A → OrderedSet A
  append k s =
      let curr = s.prev_of end_node in
      record {
        key_of = write s.fresh (some k) s.key_of;
        prev_of = write end_node s.fresh (write s.fresh curr s.prev_of);
        next_of = write curr s.fresh (write s.fresh end_node s.next_of);
        fresh = s.fresh + 1;
        node_by_key = insert k s.fresh s.node_by_key;
      }

  unfoldable pub add : A → OrderedSet A → OrderedSet A
  unfolding append
  add k s = elim (lookup k s.node_by_key) [ none ↦ append k s | some a ↦ s ]

  unfoldable pub unlink : A → ℕ → OrderedSet A → OrderedSet A
  unlink k a s =
      let prev = s.prev_of a in
      let nxt = s.next_of a in
      record s {
        next_of = write prev nxt s.next_of;
        prev_of = write nxt prev s.prev_of;
        node_by_key = remove k s.node_by_key;
      }

  unfoldable pub discard : A → OrderedSet A → OrderedSet A
  unfolding unlink
  discard k s = elim (lookup k s.node_by_key) [ none ↦ s | some a ↦ unlink k a s ]

  -- `iter`, from the node `curr` on; the fuel is the number of nodes that are looked at.
  unfoldable pub iter_from : OrderedSet A → ℕ → ℕ → Option (List (Option A))
  iter_from s zero curr = none
  iter_from s (suc n) curr =
      let rest = iter_from s n (s.next_of curr) in
      if curr == end_node
      then some []
      else elim rest [ none ↦ none | some ks ↦ some (s.key_of curr ∷ ks) ]

  unfoldable pub iter : OrderedSet A → ℕ → Option (List (Option A))
  unfolding iter_from
  iter s n = iter_from s n (s.next_of end_node)

  abbrev discarded : Option A → OrderedSet A → Result (A × OrderedSet A)
  discarded none s = err key_error
  discarded (some k) s = ok (k, discard k s)

  -- The node of a key that is there is never the sentinel, so that its key is no `None`.
  unfoldable pub pop : Bool → OrderedSet A → Result (A × OrderedSet A)
  unfolding discard
  pop last s = elim s.node_by_key [
    | [] ↦ err key_error
    | _ ∷ _ ↦ discarded (s.key_of (if last then s.prev_of end_node else s.next_of end_node)) s
  ]
