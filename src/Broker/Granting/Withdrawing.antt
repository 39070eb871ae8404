-- ===== src/Broker/Granting/Withdrawing.antt =====
-- internal/broker/broker.go, `HandleUnsubscribe`: which subscriptions an UNSUBSCRIBE packet removes.
use goqtt.Text.{bytes_eq}
use goqtt.Text.Split.{split}
use goqtt.Broker.Granting.{apply_changes}
use goqtt.Broker.Tree.Find.{node_path, levels_eq, find}
use goqtt.Broker.Tree.{TrieNode}
use goqtt.Broker.Tree.Table.{find-change_tree, change_tree, unsubscribed, change_table}
use goqtt.Base.{
  refl, arith, ◌&&◌, if◌then◌else◌, ◌||◌, ◌≡◌, map, false, Bool, List, none, ◌∷◌, [], Bytes,
}

-- One of the filters names the node at the path.
unfoldable pub names_path : List Bytes → List Bytes → Bool
names_path [] path = false
names_path (f ∷ fs) path = levels_eq (node_path (split f)) path || names_path fs path

-- The client loses its subscriptions at the nodes that the filters name, and nothing else changes.
pub find-apply_changes :
    (c d : Bytes) (path : List Bytes) (fs : List Bytes) (t : TrieNode)
    → find path d (apply_changes (map (unsubscribed c) fs) t)
      ≡ (if names_path fs path && bytes_eq c d then none else find path d t)
unfolding names_path change_table
find-apply_changes c d path [] t = refl
find-apply_changes c d path (f ∷ fs) t = ground (
  arith,
  find-apply_changes c d path fs (change_tree (unsubscribed c f) t),
  find-change_tree path d (unsubscribed c f) t,
)
