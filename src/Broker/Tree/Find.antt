-- ===== src/Broker/Tree/Find.antt =====
-- internal/broker/subscription.go, the tree as a finite map: from the path of a node and the
-- identifier of a client to the client's subscription.
use goqtt.Base.{
  Bool, true, false, ◌&&◌, List, [], ◌∷◌, Option, none, some, if◌then◌else◌, Bytes, ◌≡◌, ◌↔◌, refl,
  arith,
}
use goqtt.Text.{bytes_eq, bytes_eq_iff}
use goqtt.Dict.{bytes_key, Dict, lookup}
use goqtt.Dict.Laws.{lookup-insert}
use goqtt.Broker.Tree.{
  ◌&&◌, false, true, [], bytes_eq, some, if◌then◌else◌, Bool, Option, ◌∷◌, Dict, lookup, Bytes,
  List, Subscription, TrieNode, node, Children, no_child, child, find_child, put_child,
  delete_child, or_new_node, is_wildcard_level, child_or_new, new_node, add_subscriber,
  subscribe_at, hash,
}

unfoldable pub find : List Bytes → Bytes → TrieNode → Option Subscription
find [] c (node children subscribers w) = lookup c subscribers
find (l ∷ ls) c (node children subscribers w) = elim (find_child l children) [
  | none ↦ none
  | some t ↦ find ls c t
]

unfoldable pub levels_eq : List Bytes → List Bytes → Bool
levels_eq [] [] = true
levels_eq [] (_ ∷ _) = false
levels_eq (_ ∷ _) [] = false
levels_eq (l ∷ ls) (m ∷ ms) = bytes_eq l m && levels_eq ls ms

pub levels_eq_iff : (ls ms : List Bytes) → (levels_eq ls ms ≡ true) ↔ (ls ≡ ms)
unfolding levels_eq
levels_eq_iff [] [] = grind arith
levels_eq_iff [] (m ∷ ms) = grind arith
levels_eq_iff (l ∷ ls) [] = grind arith
levels_eq_iff (l ∷ ls) (m ∷ ms) = grind (arith, bytes_eq_iff l m, levels_eq_iff ls ms)

-- The path of the node that a filter with these levels is kept at: `#` ends it.
unfoldable pub node_path : List Bytes → List Bytes
node_path [] = []
node_path (l ∷ ls) = let rest = node_path ls in if bytes_eq l hash then l ∷ [] else l ∷ rest

pub find_child-put_child :
    (l m : Bytes) (t : TrieNode) (cs : Children)
    → find_child l (put_child m t cs) ≡ (if bytes_eq m l then some t else find_child l cs)
unfolding find_child put_child
find_child-put_child l m t no_child = refl
find_child-put_child l m t (child i u cs) =
    ground
      (arith, bytes_eq_iff m l, bytes_eq_iff i m, bytes_eq_iff i l, find_child-put_child l m t cs)

pub find_child-delete_child :
    (l m : Bytes) (cs : Children)
    → find_child l (delete_child m cs) ≡ (if bytes_eq m l then none else find_child l cs)
unfolding find_child delete_child
find_child-delete_child l m no_child = ground arith
find_child-delete_child l m (child i u cs) =
    ground
      (arith, bytes_eq_iff m l, bytes_eq_iff i m, bytes_eq_iff i l, find_child-delete_child l m cs)

-- `find` below a child of a node.
unfoldable pub find_below : List Bytes → Bytes → Option TrieNode → Option Subscription
find_below ls c none = none
find_below ls c (some t) = find ls c t

pub find-nil :
    (c : Bytes) (cs : Children) (ss : Dict Bytes Subscription) (w : Bool)
    → find [] c (node cs ss w) ≡ lookup c ss
unfolding find
find-nil c cs ss w = refl

pub find-cons :
    (l : Bytes) (ls : List Bytes) (c : Bytes) (cs : Children) (ss : Dict Bytes Subscription)
    (w : Bool)
    → find (l ∷ ls) c (node cs ss w) ≡ find_below ls c (find_child l cs)
unfolding find find_below
find-cons l ls c cs ss w = elim (find_child l cs) [ none ↦ refl | some t ↦ refl ]

pub find-new_node : (ls : List Bytes) (c : Bytes) (w : Bool) → find ls c (new_node w) ≡ none
unfolding find new_node lookup find_child
find-new_node [] c w = refl
find-new_node (l ∷ ls) c w = refl

pub find-child_or_new :
    (l : Bytes) (ls : List Bytes) (c : Bytes) (cs : Children)
    → find ls c (child_or_new l cs) ≡ find_below ls c (find_child l cs)
unfolding child_or_new or_new_node find_below
find-child_or_new l ls c cs =
    elim (find_child l cs) as (λ o. find ls c (or_new_node l o) ≡ find_below ls c o) [
      | none ↦ find-new_node ls c (is_wildcard_level l)
      | some t ↦ refl
    ]

pub find-add_subscriber :
    (ls : List Bytes) (c : Bytes) (s : Subscription) (t : TrieNode)
    → find ls c (add_subscriber s t)
      ≡ (if levels_eq [] ls && bytes_eq s.client_id c then some s else find ls c t)
unfolding find add_subscriber levels_eq
find-add_subscriber [] c s (node cs ss w) = lookup-insert s.client_id c s ss
find-add_subscriber (l ∷ ls) c s (node cs ss w) = refl

-- What `subscribe_at` puts at the level.
abbrev below_or_here : Bytes → List Bytes → Subscription → Children → TrieNode
below_or_here m ms s cs =
    if bytes_eq m hash
    then add_subscriber s (child_or_new m cs)
    else subscribe_at ms s (child_or_new m cs)

pub find-subscribe_at :
    (ms ls : List Bytes) (c : Bytes) (s : Subscription) (t : TrieNode)
    → find ls c (subscribe_at ms s t)
      ≡ (if levels_eq (node_path ms) ls && bytes_eq s.client_id c then some s else find ls c t)
unfolding subscribe_at node_path levels_eq find_below
find-subscribe_at [] ls c s t = find-add_subscriber ls c s t
find-subscribe_at (m ∷ ms) [] c s (node cs ss w) =
    ground (arith, find-nil c cs ss w, find-nil c (put_child m (below_or_here m ms s cs) cs) ss w)
find-subscribe_at (m ∷ ms) (l ∷ ls) c s (node cs ss w) = ground (
  arith,
  find-cons l ls c cs ss w,
  find-cons l ls c (put_child m (below_or_here m ms s cs) cs) ss w,
  find_child-put_child l m (below_or_here m ms s cs) cs,
  bytes_eq_iff m l,
  find-child_or_new m ls c cs,
  find-add_subscriber ls c s (child_or_new m cs),
  find-subscribe_at ms ls c s (child_or_new m cs),
)
