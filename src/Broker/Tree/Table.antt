-- ===== src/Broker/Tree/Table.antt =====
-- internal/broker/subscription.go: the tree against a flat table of subscriptions, by the levels
-- of the filter and the identifier of the client.
use goqtt.Base.{
  sym, ◌∙◌, true, false, ◌&&◌, List, [], ◌∷◌, Option, none, some, if◌then◌else◌, Bytes, ◌≡◌, ◌↔◌,
  inl, inr, refl, arith,
}
use goqtt.Text.{has_byte, bytes_eq, bytes_eq_iff}
use goqtt.Text.Split.{split}
use goqtt.Broker.Session.{Session}
use goqtt.Dict.{bytes_key}
use goqtt.Dict.Laws.{In}
use goqtt.Er.{◌>>◌, Result, ok, err, panic, stuck}
use goqtt.Packet.Types.{QosLevel}
use goqtt.Encoding.Topic.{validate_topic_filter}
use goqtt.Broker.Tree.{
  hash, Subscription, TrieNode, new_subscription_tree, new_node, subscribe, unsubscribe,
  unsubscribe_all, match_topic, subscribe_at, is_valid_topic_filter, is_ok,
}
use goqtt.Broker.Tree.Find.{find, levels_eq, node_path, find-subscribe_at, find-new_node}
use goqtt.Broker.Tree.Removal.{find-unsubscribe_at, find-remove_client}
use goqtt.Broker.Tree.Invariant.{
  IsTree, subscribe_at-IsTree, unsubscribe_at-IsTree, remove_client-IsTree,
}
use goqtt.Broker.Tree.Match.{match_recursive_iff}
use goqtt.Broker.Tree.Matches.{topic_matches_recursive_iff, Covers, is_ok_iff}
use goqtt.Encoding.Topic.Rules.{IsLevel, AreLevels, validate_topic_filter_iff, has_byte_hash}

-- A call that changes the tree.
pub data Change : Type 0 where
  subscribed : Bytes → Session → Bytes → QosLevel → Option Bytes → Change
  unsubscribed : Bytes → Bytes → Change
  removed : Bytes → Change

abbrev pub or_same : {A : Type 0} → A → Result A → A
or_same a (ok b) = b
or_same a (err e) = a
or_same a panic = a
or_same a stuck = a

unfoldable pub change_tree : Change → TrieNode → TrieNode
change_tree (subscribed c session f qos handler) t = or_same t (subscribe c session f qos handler t)
change_tree (unsubscribed c f) t = unsubscribe c f t
change_tree (removed c) t = unsubscribe_all c t

-- The tree after a history of calls, the last one first.
unfoldable pub tree_of : List Change → TrieNode
tree_of [] = new_subscription_tree
tree_of (change ∷ history) = change_tree change (tree_of history)

abbrev pub Table : Type 0
Table = List Bytes → Bytes → Option Subscription

unfoldable pub change_table : Change → Table → Table
change_table (subscribed c session f qos handler) table p d =
    if is_valid_topic_filter f && (levels_eq (split f) p && bytes_eq c d)
    then some (record { client_id = c; session = session; qos = qos; handler = handler })
    else table p d
change_table (unsubscribed c f) table p d =
    if levels_eq (node_path (split f)) p && bytes_eq c d then none else table p d
change_table (removed c) table p d = if bytes_eq c d then none else table p d

unfoldable pub table_of : List Change → Table
table_of [] p d = none
table_of (change ∷ history) p d = change_table change (table_of history) p d

not_hash : (l : Bytes) → IsLevel l false → bytes_eq l hash ≡ false
unfolding bytes_eq has_byte
not_hash l (inl e) = rw e refl
not_hash l (inr (inl e)) = ground arith
not_hash l (inr (inr p)) = ground (arith, bytes_eq_iff l hash, has_byte_hash)

-- No level of a valid filter but the last one is `#`.
node_path-AreLevels : (ls : List Bytes) → AreLevels ls → node_path ls ≡ ls
unfolding node_path has_byte
node_path-AreLevels [] h = refl
node_path-AreLevels (l ∷ []) h = ground arith
node_path-AreLevels (l ∷ m ∷ ls) h =
    ground (arith, not_hash l h.0, node_path-AreLevels (m ∷ ls) h.1)

node_path-valid : (f : Bytes) → is_valid_topic_filter f ≡ true → node_path (split f) ≡ split f
unfolding is_valid_topic_filter
node_path-valid f e =
    node_path-AreLevels (split f)
      ((validate_topic_filter_iff f).0 ((is_ok_iff (validate_topic_filter f)).0 e)).4

-- A call of `Subscribe` either changes the tree or leaves it alone.
or_same-subscribe :
    (c : Bytes) (session : Session) (f : Bytes) (qos : QosLevel) (handler : Option Bytes)
    (t : TrieNode)
    → or_same t (subscribe c session f qos handler t) ≡ (
        if is_valid_topic_filter f
        then subscribe_at
            (split f)
            (record { client_id = c; session = session; qos = qos; handler = handler })
            t
        else t)
unfolding subscribe is_valid_topic_filter is_ok
or_same-subscribe c session f qos handler t = go _ (validate_topic_filter f)
  where
    go : (x : TrieNode) (r : Result (Unit {0})) → or_same t (r >> ok x) ≡ (if is_ok r then x else t)
    go x (ok _) = refl
    go x (err e) = refl
    go x panic = refl
    go x stuck = refl

change_tree-IsTree : (change : Change) (t : TrieNode) → IsTree t → IsTree (change_tree change t)
unfolding change_tree unsubscribe unsubscribe_all
change_tree-IsTree (subscribed c session f qos handler) t h = ground (
  arith,
  or_same-subscribe c session f qos handler t,
  subscribe_at-IsTree (split f)
      (record { client_id = c; session = session; qos = qos; handler = handler }) t h,
)
change_tree-IsTree (unsubscribed c f) t h = unsubscribe_at-IsTree (split f) c t h
change_tree-IsTree (removed c) t h = remove_client-IsTree c t h

-- The shape of every tree that the calls make.
pub tree_of-IsTree : (history : List Change) → IsTree (tree_of history)
unfolding tree_of new_subscription_tree new_node
tree_of-IsTree [] = (tt, tt)
tree_of-IsTree (change ∷ history) =
    change_tree-IsTree change (tree_of history) (tree_of-IsTree history)

pub find-change_tree :
    (p : List Bytes) (d : Bytes) (change : Change) (t : TrieNode)
    → find p d (change_tree change t) ≡ change_table change (λ q e. find q e t) p d
unfolding change_tree change_table unsubscribe unsubscribe_all
find-change_tree p d (subscribed c session f qos handler) t = ground (
  arith,
  or_same-subscribe c session f qos handler t,
  find-subscribe_at (split f) p d
      (record { client_id = c; session = session; qos = qos; handler = handler }) t,
  node_path-valid f,
)
find-change_tree p d (unsubscribed c f) t = find-unsubscribe_at (split f) p d c t
find-change_tree p d (removed c) t = find-remove_client p d c t

change_table-cong :
    (change : Change) {t u : Table}
    → ((p : List Bytes) (d : Bytes) → t p d ≡ u p d)
    → (p : List Bytes) (d : Bytes) → change_table change t p d ≡ change_table change u p d
unfolding change_table
change_table-cong (subscribed c session f qos handler) h p d = rw (h p d)
change_table-cong (unsubscribed c f) h p d = rw (h p d)
change_table-cong (removed c) h p d = rw (h p d)

-- After every history the tree holds what the table holds.
pub find-tree_of :
    (history : List Change) (p : List Bytes) (d : Bytes)
    → find p d (tree_of history) ≡ table_of history p d
unfolding tree_of table_of new_subscription_tree
find-tree_of [] p d = find-new_node p d false
find-tree_of (change ∷ history) p d =
    find-change_tree p d change (tree_of history)
    ∙ change_table-cong change (λ q e. find-tree_of history q e) p d

-- Whatever calls made the tree, a topic finds exactly the subscriptions of the table whose filter
-- matches the topic.
pub match_topic_iff :
    (history : List Change) (topic : Bytes) (s : Subscription)
    → In s (match_topic topic (tree_of history))
      ↔ ((p : List Bytes) × (d : Bytes) × (table_of history p d ≡ some s) × Covers p (split topic))
unfolding match_topic
match_topic_iff history topic s = (
  (λ m.
      let (p, d, e, q) =
        (match_recursive_iff (split topic) s (tree_of history) (tree_of-IsTree history)).0 m in
      (
        p,
        d,
        sym (find-tree_of history p d) ∙ e,
        (topic_matches_recursive_iff p (split topic)).0 q,
      )),
  (λ (p, d, e, q).
      (match_recursive_iff (split topic) s (tree_of history) (tree_of-IsTree history)).1
        (p, d, find-tree_of history p d ∙ e, (topic_matches_recursive_iff p (split topic)).1 q)),
)
