-- ===== src/Broker/Tree.antt =====
-- internal/broker/subscription.go: the subscription tree.
pub mod Clients
pub mod Find
pub mod Invariant
pub mod Match
pub mod Matches
pub mod Removal
pub mod Table
pub mod Tests
use goqtt.Base.{
  ℕ, Bool, true, false, ◌&&◌, ◌||◌, List, [], ◌∷◌, ◌++◌, Option, none, some, if◌then◌else◌, Bytes,
}
use goqtt.Broker.Session.{Session}
use goqtt.Dict.{bytes_key, Dict, lookup, insert, delete, values}
use goqtt.Encoding.Topic.{validate_topic_filter, validate_topic_name}
use goqtt.Er.{Result, ok, err, panic, stuck, ◌>>=◌, ◌>>◌}
use goqtt.Packet.Types.{QosLevel}
use goqtt.Text.Split.{split}
use goqtt.Text.{bytes_eq}

-- `handler` is the closure that `HandleSubscribe` makes; all that it captures is the client
-- identifier of its session, by which it looks the session up when it is called.
pub record Subscription : Type 0 where
  pub client_id : Bytes
  pub session : Session
  pub qos : QosLevel
  pub handler : Option Bytes

-- `Children` is the map `children`, with one entry for each level.
mutual
  pub data TrieNode : Type 0 where
    node : Children → Dict Bytes Subscription → Bool → TrieNode

  pub data Children : Type 0 where
    no_child : Children
    child : Bytes → TrieNode → Children → Children

abbrev pub plus : Bytes
plus = b'+' ∷ []

abbrev pub hash : Bytes
hash = b'#' ∷ []

-- `children[level]`
unfoldable pub find_child : Bytes → Children → Option TrieNode
find_child level no_child = none
find_child level (child l t cs) = if bytes_eq l level then some t else find_child level cs

-- `children[level] = t`
unfoldable pub put_child : Bytes → TrieNode → Children → Children
put_child level t no_child = child level t no_child
put_child level t (child l u cs) =
    if bytes_eq l level then child level t cs else child l u (put_child level t cs)

-- `delete(children, level)`
unfoldable pub delete_child : Bytes → Children → Children
delete_child level no_child = no_child
delete_child level (child l u cs) =
    let rest = delete_child level cs in if bytes_eq l level then rest else child l u rest

unfoldable pub new_node : Bool → TrieNode
new_node is_wildcard = node no_child [] is_wildcard

unfoldable pub new_subscription_tree : TrieNode
unfolding new_node
new_subscription_tree = new_node false

unfoldable pub is_wildcard_level : Bytes → Bool
is_wildcard_level level = bytes_eq level plus || bytes_eq level hash

unfoldable pub or_new_node : Bytes → Option TrieNode → TrieNode
or_new_node level none = new_node (is_wildcard_level level)
or_new_node level (some t) = t

unfoldable pub child_or_new : Bytes → Children → TrieNode
child_or_new level children = or_new_node level (find_child level children)

-- `current.subscribers[clientID] = …`
unfoldable pub add_subscriber : Subscription → TrieNode → TrieNode
add_subscriber s (node children subscribers w) = node children (insert s.client_id s subscribers) w

-- From the current node along the levels that are left; `#` ends the walk.
unfoldable pub subscribe_at : List Bytes → Subscription → TrieNode → TrieNode
subscribe_at [] s t = add_subscriber s t
subscribe_at (level ∷ levels) s (node children subscribers w) =
    let below = subscribe_at levels s (child_or_new level children) in
    let here = add_subscriber s (child_or_new level children) in
    node (put_child level (if bytes_eq level hash then here else below) children) subscribers w

unfoldable pub subscribe :
    Bytes → Session → Bytes → QosLevel → Option Bytes → TrieNode → Result TrieNode
subscribe client_id session topic_filter qos handler root = do
  validate_topic_filter topic_filter
  let s : Subscription = record {
    client_id = client_id;
    session = session;
    qos = qos;
    handler = handler;
  }
  ok (subscribe_at (split topic_filter) s root)

unfoldable pub remove_subscriber : Bytes → TrieNode → TrieNode
remove_subscriber client_id (node children subscribers w) =
    node children (delete client_id subscribers) w

-- `len(node.subscribers) > 0 || len(node.children) > 0` is false.
unfoldable pub is_empty_node : TrieNode → Bool
is_empty_node (node no_child [] w) = true
is_empty_node (node no_child (s ∷ ss) w) = false
is_empty_node (node (child l t cs) ss w) = false

-- One step of `cleanupEmptyNodes`, at a parent whose child has been dealt with: the child goes if
-- it is empty, and otherwise the loop breaks off.
unfoldable pub cleanup_child :
    Bytes → Children → Dict Bytes Subscription → Bool → TrieNode × Bool → TrieNode × Bool
cleanup_child level children subscribers w (t, cleaning) =
    if cleaning && is_empty_node t
    then (node (delete_child level children) subscribers w, true)
    else (node (put_child level t children) subscribers w, false)

abbrev pub map_option : {A B : Type 0} → (A → B) → Option A → Option B
map_option f none = none
map_option f (some a) = some (f a)

abbrev pub at_child : {A : Type 0} → (TrieNode → Option A) → Option TrieNode → Option A
at_child walk none = none
at_child walk (some t) = walk t

-- The walk, and the clean-up on the way back; the flag says that it is still going on. `none` is
-- the early return where a level is missing.
unfoldable pub unsubscribe_at : List Bytes → Bytes → TrieNode → Option (TrieNode × Bool)
unsubscribe_at [] client_id t = some (remove_subscriber client_id t, true)
unsubscribe_at (level ∷ levels) client_id (node children subscribers w) =
    let walk : TrieNode → Option (TrieNode × Bool) = λ t.
      let below = unsubscribe_at levels client_id t in
      if bytes_eq level hash then some (remove_subscriber client_id t, true) else below in
    map_option (cleanup_child level children subscribers w)
      (at_child walk (find_child level children))

-- The tree that the walk leaves, whether or not it comes to the node.
unfoldable pub tree_after : TrieNode → Option (TrieNode × Bool) → TrieNode
tree_after t none = t
tree_after t (some r) = r.0

unfoldable pub unsubscribe : Bytes → Bytes → TrieNode → TrieNode
unfolding tree_after
unsubscribe client_id topic_filter root =
    tree_after root (unsubscribe_at (split topic_filter) client_id root)

-- `removeClientFromTree`
unfoldable mutual
  pub remove_client_from_tree : Bytes → TrieNode → TrieNode
  remove_client_from_tree client_id (node children subscribers w) =
      node (remove_client_from_children client_id children) (delete client_id subscribers) w

  pub remove_client_from_children : Bytes → Children → Children
  remove_client_from_children client_id no_child = no_child
  remove_client_from_children client_id (child l t cs) =
      child l (remove_client_from_tree client_id t) (remove_client_from_children client_id cs)

unfoldable pub unsubscribe_all : Bytes → TrieNode → TrieNode
unsubscribe_all client_id root = remove_client_from_tree client_id root

unfoldable pub subscribers_of : Option TrieNode → List Subscription
subscribers_of none = []
subscribers_of (some (node children subscribers w)) = values subscribers

-- `if child, exists := …; exists { … }`
abbrev pub in_child : {A : Type 0} → (TrieNode → List A) → Option TrieNode → List A
in_child visit none = []
in_child visit (some t) = visit t

-- `matchRecursive`, in the order in which it appends.
unfoldable pub match_recursive : List Bytes → TrieNode → List Subscription
match_recursive [] (node children subscribers w) = values subscribers
match_recursive (level ∷ levels) (node children subscribers w) =
    in_child (match_recursive levels) (find_child level children)
    ++ (in_child (match_recursive levels) (find_child plus children)
        ++ subscribers_of (find_child hash children))

unfoldable pub match_topic : Bytes → TrieNode → List Subscription
match_topic topic root = match_recursive (split topic) root

-- `if v, exists := m[k]; exists { … append(…, v) }`
abbrev pub to_list : {A : Type 0} → Option A → List A
to_list none = []
to_list (some a) = a ∷ []

-- `getClientSubscriptions`
unfoldable mutual
  pub get_client_subscriptions : Bytes → TrieNode → List Subscription
  get_client_subscriptions client_id (node children subscribers w) =
      to_list (lookup client_id subscribers) ++ get_subscriptions_below client_id children

  pub get_subscriptions_below : Bytes → Children → List Subscription
  get_subscriptions_below client_id no_child = []
  get_subscriptions_below client_id (child l t cs) =
      get_client_subscriptions client_id t ++ get_subscriptions_below client_id cs

unfoldable pub get_subscriptions : Bytes → TrieNode → List Subscription
get_subscriptions client_id root = get_client_subscriptions client_id root

unfoldable pub is_ok : Result (Unit {0}) → Bool
is_ok (ok _) = true
is_ok (err _) = false
is_ok panic = false
is_ok stuck = false

unfoldable pub is_valid_topic_filter : Bytes → Bool
unfolding is_ok
is_valid_topic_filter topic_filter = is_ok (validate_topic_filter topic_filter)

unfoldable pub is_valid_topic_name : Bytes → Bool
unfolding is_ok
is_valid_topic_name topic_name = is_ok (validate_topic_name topic_name)

-- `topicMatchesRecursive` on what the two indices leave.
unfoldable pub topic_matches_recursive : List Bytes → List Bytes → Bool
topic_matches_recursive [] [] = true
topic_matches_recursive [] (_ ∷ _) = false
topic_matches_recursive (_ ∷ _) [] = false
topic_matches_recursive (f ∷ fs) (n ∷ ns) =
    let rest = topic_matches_recursive fs ns in
    if bytes_eq f plus
    then rest
    else if bytes_eq f hash
    then true
    else if bytes_eq f n
    then rest
    else false

unfoldable pub topic_matches : Bytes → Bytes → Bool
topic_matches topic_filter topic_name =
    if is_valid_topic_filter topic_filter && is_valid_topic_name topic_name
    then topic_matches_recursive (split topic_filter) (split topic_name)
    else false
