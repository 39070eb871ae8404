-- ===== src/Broker/Tree/Removal.antt =====
-- internal/broker/subscription.go: what the tree holds after `Unsubscribe`, its clean-up and
-- `UnsubscribeAll`.
use goqtt.Base.{
  Bool, true, false, ◌&&◌, List, [], ◌∷◌, Option, none, some, if◌then◌else◌, Bytes, ◌≡◌, refl,
  arith,
}
use goqtt.Text.{bytes_eq, bytes_eq_iff}
use goqtt.Dict.{bytes_key, Dict, lookup}
use goqtt.Dict.Laws.{lookup-delete}
use goqtt.Broker.Tree.{
  remove_client_from_tree, remove_client_from_children, remove_client_from_tree, at_child,
  map_option, tree_after, unsubscribe_at, is_empty_node, cleanup_child, remove_subscriber, ◌&&◌,
  false, true, [], bytes_eq, some, if◌then◌else◌, Bool, Option, ◌∷◌, Dict, lookup, Bytes, List,
  Subscription, TrieNode, node, Children, no_child, child, find_child, put_child, delete_child,
  hash,
}
use goqtt.Broker.Tree.Find.{
  find, find_below, find-cons, find-nil, levels_eq, node_path, find_child-put_child,
  find_child-delete_child,
}

pub find-remove_subscriber :
    (ls : List Bytes) (c d : Bytes) (t : TrieNode)
    → find ls c (remove_subscriber d t)
      ≡ (if levels_eq [] ls && bytes_eq d c then none else find ls c t)
unfolding find remove_subscriber levels_eq
find-remove_subscriber [] c d (node cs ss w) = lookup-delete d c ss
find-remove_subscriber (l ∷ ls) c d (node cs ss w) = refl

-- A node that the clean-up takes away keeps nothing.
pub find-is_empty_node :
    (ls : List Bytes) (c : Bytes) (t : TrieNode) → is_empty_node t ≡ true → find ls c t ≡ none
unfolding find is_empty_node lookup find_child
find-is_empty_node [] c (node no_child [] w) e = refl
find-is_empty_node (l ∷ ls) c (node no_child [] w) e = refl
find-is_empty_node ls c (node no_child (s ∷ ss) w) e = grind arith
find-is_empty_node ls c (node (child l t cs) ss w) e = grind arith

pub find_nil-cleanup_child :
    (m : Bytes) (c : Bytes) (cs : Children) (ss : Dict Bytes Subscription) (w : Bool)
    (r : TrieNode × Bool)
    → find [] c (cleanup_child m cs ss w r).0 ≡ lookup c ss
unfolding cleanup_child find
find_nil-cleanup_child m c cs ss w (t, b) = ground arith

-- The step of the clean-up changes nothing but the child.
pub find-cleanup_child :
    (l m : Bytes) (ls : List Bytes) (c : Bytes) (cs : Children) (ss : Dict Bytes Subscription)
    (w : Bool) (t : TrieNode) (cleaning : Bool)
    → find (l ∷ ls) c (cleanup_child m cs ss w (t, cleaning)).0
      ≡ (if bytes_eq m l then find ls c t else find (l ∷ ls) c (node cs ss w))
unfolding cleanup_child find_below
find-cleanup_child l m ls c cs ss w t cleaning = ground (
  arith,
  find-cons l ls c cs ss w,
  find-cons l ls c (put_child m t cs) ss w,
  find-cons l ls c (delete_child m cs) ss w,
  find_child-put_child l m t cs,
  find_child-delete_child l m cs,
  find-is_empty_node ls c t,
)

find-tree_after :
    (ls : List Bytes) (m : Bytes) (c : Bytes) (cs : Children) (ss : Dict Bytes Subscription)
    (w : Bool) (t : TrieNode) (r : Option (TrieNode × Bool))
    → find_child m cs ≡ some t
    → find ls c (tree_after (node cs ss w) (map_option (cleanup_child m cs ss w) r))
      ≡ find ls c (cleanup_child m cs ss w (tree_after t r, false)).0
unfolding tree_after find_below
find-tree_after [] m c cs ss w t none e =
    ground (arith, find_nil-cleanup_child m c cs ss w (t, false), find-nil c cs ss w)
find-tree_after [] m c cs ss w t (some r) e =
    ground
      (arith, find_nil-cleanup_child m c cs ss w r, find_nil-cleanup_child m c cs ss w (r.0, false))
find-tree_after (l ∷ ls) m c cs ss w t none e =
    ground (
      arith,
      find-cleanup_child l m ls c cs ss w t false,
      find-cons l ls c cs ss w,
      bytes_eq_iff m l,
    )
find-tree_after (l ∷ ls) m c cs ss w t (some (u, b)) e =
    ground
      (arith, find-cleanup_child l m ls c cs ss w u false, find-cleanup_child l m ls c cs ss w u b)

-- One level of the walk, for what is done below it.
find-walk :
    (path ls : List Bytes) (m c d : Bytes) (cs : Children) (ss : Dict Bytes Subscription) (w : Bool)
    (walk : TrieNode → Option (TrieNode × Bool)) (o : Option TrieNode)
    → ((ks : List Bytes) (t : TrieNode)
        → find ks c (tree_after t (walk t))
          ≡ (if levels_eq path ks && bytes_eq d c then none else find ks c t))
    → find_child m cs ≡ o
    → find ls c (tree_after (node cs ss w) (map_option (cleanup_child m cs ss w) (at_child walk o)))
      ≡ (if levels_eq (m ∷ path) ls && bytes_eq d c then none else find ls c (node cs ss w))
unfolding tree_after levels_eq find_below
find-walk path [] m c d cs ss w walk none hyp e = refl
find-walk path (l ∷ ls) m c d cs ss w walk none hyp e =
    ground (arith, find-cons l ls c cs ss w, bytes_eq_iff m l)
find-walk path [] m c d cs ss w walk (some t) hyp e = ground (
  arith,
  find-tree_after [] m c cs ss w t (walk t) e,
  find-nil c cs ss w,
  find_nil-cleanup_child m c cs ss w (tree_after t (walk t), false),
)
find-walk path (l ∷ ls) m c d cs ss w walk (some t) hyp e = ground (
  arith,
  find-tree_after (l ∷ ls) m c cs ss w t (walk t) e,
  find-cons l ls c cs ss w,
  find-cleanup_child l m ls c cs ss w (tree_after t (walk t)) false,
  hyp ls t,
  bytes_eq_iff m l,
)

pub find-unsubscribe_at :
    (ms ls : List Bytes) (c d : Bytes) (t : TrieNode)
    → find ls c (tree_after t (unsubscribe_at ms d t))
      ≡ (if levels_eq (node_path ms) ls && bytes_eq d c then none else find ls c t)
unfolding unsubscribe_at node_path tree_after remove_subscriber
find-unsubscribe_at [] ls c d t = find-remove_subscriber ls c d t
find-unsubscribe_at (m ∷ ms) ls c d (node cs ss w) =
    elim (bytes_eq m hash)
      as (λ b.
        find ls c (
          tree_after (node cs ss w) (
            map_option (cleanup_child m cs ss w) (
              at_child
                (λ t. if b then some (remove_subscriber d t, true) else unsubscribe_at ms d t)
                (find_child m cs))))
        ≡ (if levels_eq (if b then m ∷ [] else m ∷ node_path ms) ls && bytes_eq d c
            then none
            else find ls c (node cs ss w))) [
              | true ↦
                  find-walk [] ls m c d cs ss w (λ t. some (remove_subscriber d t, true))
                    (find_child m cs) (λ ks t. find-remove_subscriber ks c d t) refl
              | false ↦
                  find-walk (node_path ms) ls m c d cs ss w (unsubscribe_at ms d) (find_child m cs)
                    (λ ks t. find-unsubscribe_at ms ks c d t) refl
            ]

pub find_child-remove_client :
    (l c : Bytes) (cs : Children)
    → find_child l (remove_client_from_children c cs)
      ≡ map_option (remove_client_from_tree c) (find_child l cs)
unfolding find_child remove_client_from_tree remove_client_from_children
find_child-remove_client l c no_child = refl
find_child-remove_client l c (child m t cs) = ground (arith, find_child-remove_client l c cs)

pub find-remove_client :
    (ls : List Bytes) (c d : Bytes) (t : TrieNode)
    → find ls c (remove_client_from_tree d t) ≡ (if bytes_eq d c then none else find ls c t)
unfolding find remove_client_from_tree
find-remove_client [] c d (node cs ss w) = lookup-delete d c ss
find-remove_client (l ∷ ls) c d (node cs ss w) =
    below (λ t. find-remove_client ls c d t) (find_child l cs) (find_child-remove_client l d cs)
  where
    below :
        {r : Option TrieNode}
        (hyp : (t : TrieNode)
          → find ls c (remove_client_from_tree d t) ≡ (if bytes_eq d c then none else find ls c t))
        (o : Option TrieNode)
        → r ≡ map_option (remove_client_from_tree d) o
        → elim r [ none ↦ none | some t ↦ find ls c t ]
          ≡ (if bytes_eq d c then none else elim o [ none ↦ none | some t ↦ find ls c t ])
    below hyp none e = rw e (ground arith)
    below hyp (some t) e = rw (e, hyp t)
