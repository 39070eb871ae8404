-- ===== src/Broker/Tree/Invariant.antt =====
-- internal/broker/subscription.go, the shape of a tree that is made by its operations: no level
-- and no client stands twice at a node, and nothing lies below a level `#`.
use goqtt.Base.{Bool, List, [], ◌∷◌, Option, none, some, Bytes, ◌≡◌, refl, arith}
use goqtt.Text.{bytes_eq_iff}
use goqtt.Dict.{bytes_key, Dict}
use goqtt.Dict.Laws.{IsMap, insert-IsMap, delete-IsMap}
use goqtt.Broker.Tree.{
  Subscription, TrieNode, node, Children, no_child, child, find_child, put_child, delete_child,
  or_new_node, child_or_new, new_node, add_subscriber, subscribe_at, hash, remove_subscriber,
  cleanup_child, at_child, map_option, tree_after, unsubscribe_at, remove_client_from_tree,
  remove_client_from_children,
}
use goqtt.Broker.Tree.Find.{find_child-put_child, find_child-delete_child}
use goqtt.Broker.Tree.Removal.{find_child-remove_client}

abbrev pub IsLeaf : TrieNode → Type 0
IsLeaf (node cs ss w) = cs ≡ no_child

abbrev mutual
  pub IsTree : TrieNode → Type 0
  IsTree (node cs ss w) = IsMap ss × AreTrees cs

  pub AreTrees : Children → Type 0
  AreTrees no_child = Unit
  AreTrees (child l t cs) =
      (find_child l cs ≡ none) × ((l ≡ hash → IsLeaf t) × (IsTree t × AreTrees cs))

-- What is asked of a child at a level.
abbrev pub IsTreeAt : Bytes → TrieNode → Type 0
IsTreeAt l t = (l ≡ hash → IsLeaf t) × IsTree t

pub AreTrees-find_child :
    (l : Bytes) (t : TrieNode) (cs : Children)
    → AreTrees cs
    → find_child l cs ≡ some t
    → IsTreeAt l t
unfolding find_child
AreTrees-find_child l t no_child h e = grind arith
AreTrees-find_child l t (child m u cs) h e =
    ground (arith, bytes_eq_iff m l, AreTrees-find_child l t cs h.1.1.1)

pub AreTrees-put_child :
    (l : Bytes) (t : TrieNode) (cs : Children)
    → AreTrees cs
    → IsTreeAt l t
    → AreTrees (put_child l t cs)
unfolding put_child find_child
AreTrees-put_child l t no_child h g = (refl, (g.0, (g.1, tt)))
AreTrees-put_child l t (child m u cs) h g = ground (
  arith,
  bytes_eq_iff m l,
  AreTrees-put_child l t cs h.1.1.1 g,
  find_child-put_child m l t cs,
  bytes_eq_iff l m,
)

pub AreTrees-delete_child : (l : Bytes) (cs : Children) → AreTrees cs → AreTrees (delete_child l cs)
unfolding delete_child
AreTrees-delete_child l no_child h = tt
AreTrees-delete_child l (child m u cs) h =
    ground (arith, AreTrees-delete_child l cs h.1.1.1, find_child-delete_child m l cs)

IsLeaf-add_subscriber : (s : Subscription) (t : TrieNode) → IsLeaf t → IsLeaf (add_subscriber s t)
unfolding add_subscriber
IsLeaf-add_subscriber s (node cs ss w) h = h

IsLeaf-remove_subscriber : (c : Bytes) (t : TrieNode) → IsLeaf t → IsLeaf (remove_subscriber c t)
unfolding remove_subscriber
IsLeaf-remove_subscriber c (node cs ss w) h = h

add_subscriber-IsTree : (s : Subscription) (t : TrieNode) → IsTree t → IsTree (add_subscriber s t)
unfolding add_subscriber
add_subscriber-IsTree s (node cs ss w) h = (insert-IsMap s.client_id s ss h.0, h.1)

remove_subscriber-IsTree : (c : Bytes) (t : TrieNode) → IsTree t → IsTree (remove_subscriber c t)
unfolding remove_subscriber
remove_subscriber-IsTree c (node cs ss w) h = (delete-IsMap c ss h.0, h.1)

child_or_new-IsTreeAt : (l : Bytes) (cs : Children) → AreTrees cs → IsTreeAt l (child_or_new l cs)
unfolding child_or_new or_new_node new_node
child_or_new-IsTreeAt l cs h = go (find_child l cs) refl
  where
    go : (o : Option TrieNode) → find_child l cs ≡ o → IsTreeAt l (or_new_node l o)
    go none e = ((λ _. refl), (tt, tt))
    go (some t) e = AreTrees-find_child l t cs h e

pub subscribe_at-IsTree :
    (ls : List Bytes) (s : Subscription) (t : TrieNode) → IsTree t → IsTree (subscribe_at ls s t)
unfolding subscribe_at
subscribe_at-IsTree [] s t h = add_subscriber-IsTree s t h
subscribe_at-IsTree (l ∷ ls) s (node cs ss w) h =
    let (leaf, tree) = child_or_new-IsTreeAt l cs h.1 in
    (
      h.0,
      AreTrees-put_child l _ cs h.1 (
          ground (
            arith,
            bytes_eq_iff l hash,
            IsLeaf-add_subscriber s (child_or_new l cs),
            add_subscriber-IsTree s (child_or_new l cs) tree,
            subscribe_at-IsTree ls s (child_or_new l cs) tree,
          )),
    )

cleanup_child-IsTree :
    (l : Bytes) (cs : Children) (ss : Dict Bytes Subscription) (w : Bool) (r : TrieNode × Bool)
    → IsTree (node cs ss w)
    → IsTreeAt l r.0
    → IsTree (cleanup_child l cs ss w r).0
unfolding cleanup_child
cleanup_child-IsTree l cs ss w (t, b) h g =
    ground (arith, AreTrees-delete_child l cs h.1, AreTrees-put_child l t cs h.1 g)

walk-IsTree :
    (l : Bytes) (cs : Children) (ss : Dict Bytes Subscription) (w : Bool)
    (walk : TrieNode → Option (TrieNode × Bool)) (o : Option TrieNode)
    → IsTree (node cs ss w)
    → ((t : TrieNode) → IsTreeAt l t → IsTreeAt l (tree_after t (walk t)))
    → find_child l cs ≡ o
    → IsTree (tree_after (node cs ss w) (map_option (cleanup_child l cs ss w) (at_child walk o)))
unfolding tree_after
walk-IsTree l cs ss w walk none h k e = h
walk-IsTree l cs ss w walk (some t) h k e = go (walk t) (k t (AreTrees-find_child l t cs h.1 e))
  where
    go :
        (r : Option (TrieNode × Bool))
        → IsTreeAt l (tree_after t r)
        → IsTree (tree_after (node cs ss w) (map_option (cleanup_child l cs ss w) r))
    go none g = h
    go (some r) g = cleanup_child-IsTree l cs ss w r h g

pub unsubscribe_at-IsTree :
    (ls : List Bytes) (c : Bytes) (t : TrieNode)
    → IsTree t
    → IsTree (tree_after t (unsubscribe_at ls c t))
unfolding unsubscribe_at tree_after
unsubscribe_at-IsTree [] c t h = remove_subscriber-IsTree c t h
unsubscribe_at-IsTree (l ∷ ls) c (node cs ss w) h =
    walk-IsTree l cs ss w _ (find_child l cs) h
      (λ t g. ground (
        arith,
        bytes_eq_iff l hash,
        IsLeaf-remove_subscriber c t,
        remove_subscriber-IsTree c t g.1,
        unsubscribe_at-IsTree ls c t g.1,
      ))
      refl

IsLeaf-remove_client : (c : Bytes) (t : TrieNode) → IsLeaf t → IsLeaf (remove_client_from_tree c t)
unfolding remove_client_from_tree remove_client_from_children
IsLeaf-remove_client c (node no_child ss w) h = refl
IsLeaf-remove_client c (node (child l t cs) ss w) h = grind arith

mutual
  unfolding remove_client_from_tree remove_client_from_children

  pub remove_client-IsTree :
      (c : Bytes) (t : TrieNode) → IsTree t → IsTree (remove_client_from_tree c t)
  remove_client-IsTree c (node cs ss w) h = (delete-IsMap c ss h.0, remove_client-AreTrees c cs h.1)

  remove_client-AreTrees :
      (c : Bytes) (cs : Children) → AreTrees cs → AreTrees (remove_client_from_children c cs)
  remove_client-AreTrees c no_child h = tt
  remove_client-AreTrees c (child l t cs) h = (
    ground (arith, find_child-remove_client l c cs, h.0),
    (
      (λ e. IsLeaf-remove_client c t (h.1.0 e)),
      (remove_client-IsTree c t h.1.1.0, remove_client-AreTrees c cs h.1.1.1),
    ),
  )
