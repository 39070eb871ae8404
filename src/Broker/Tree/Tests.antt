-- ===== src/Broker/Tree/Tests.antt =====
-- Runs of the subscription tree, and its theorems at concrete inputs.
use goqtt.Base.{true, List, [], ◌∷◌, none, some, ◌≡◌, ◌↔◌, Bytes}
use goqtt.Broker.Tree.{Subscription, match_topic, plus, topic_matches}
use goqtt.Broker.Tree.Find.{find}
use goqtt.Broker.Tree.Matches.{Covers, topic_matches_iff}
use goqtt.Broker.Tree.Table.{
  Change, subscribed, unsubscribed, tree_of, table_of, match_topic_iff, find-tree_of,
}
use goqtt.Broker.Session.{Session, zero_session}
use goqtt.Dict.Laws.{In}
use goqtt.Encoding.Topic.{validate_topic_filter, validate_topic_name}
use goqtt.Er.{ok}
use goqtt.Text.Split.{split}

-- "a/b", "a/+", "a/#" and "c/#"
abbrev a_b : Bytes
a_b = b'a' ∷ b'/' ∷ b'b' ∷ []

abbrev a_plus : Bytes
a_plus = b'a' ∷ b'/' ∷ b'+' ∷ []

abbrev a_hash : Bytes
a_hash = b'a' ∷ b'/' ∷ b'#' ∷ []

abbrev c_hash : Bytes
c_hash = b'c' ∷ b'/' ∷ b'#' ∷ []

abbrev alice : Bytes
alice = b'x' ∷ []

abbrev bob : Bytes
bob = b'y' ∷ []

abbrev session_of : Bytes → Session
session_of c = record zero_session { client_id = c; conn = some 1 }

-- The last call stands first.
abbrev calls : List Change
calls =
    unsubscribed bob c_hash
    ∷ subscribed bob (session_of bob) c_hash 0 none
    ∷ subscribed bob (session_of bob) a_hash 1 none
    ∷ subscribed alice (session_of alice) a_plus 2 (some alice)
    ∷ []

abbrev of_alice : Subscription
of_alice = record { client_id = alice; session = session_of alice; qos = 2; handler = some alice }

abbrev of_bob : Subscription
of_bob = record { client_id = bob; session = session_of bob; qos = 1; handler = none }

find-tree_of_example :
    find ((b'a' ∷ []) ∷ plus ∷ []) alice (tree_of calls)
    ≡ table_of calls ((b'a' ∷ []) ∷ plus ∷ []) alice
find-tree_of_example = find-tree_of calls ((b'a' ∷ []) ∷ plus ∷ []) alice

match_topic_iff_example :
    In of_alice (match_topic a_b (tree_of calls))
    ↔ ((p : List Bytes) × (d : Bytes) × (table_of calls p d ≡ some of_alice) × Covers p (split a_b))
match_topic_iff_example = match_topic_iff calls a_b of_alice

topic_matches_iff_example :
    (topic_matches a_plus a_b ≡ true)
    ↔ (validate_topic_filter a_plus ≡ ok tt)
      × (validate_topic_name a_b ≡ ok tt)
      × Covers (split a_plus) (split a_b)
topic_matches_iff_example = topic_matches_iff a_plus a_b
