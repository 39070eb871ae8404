-- ===== src/Broker/Evolution.antt =====
-- internal/broker/broker.go: every operation of the broker changes its tree and its QoS manager by
-- calls of their methods alone: the relation of two states that says so.
use goqtt.Base.{
  ℕ, ◌%◌, ◌^◌, Bool, true, false, List, [], ◌∷◌, ◌++◌, Bytes, Option, none, some, if◌then◌else◌,
  ◌==◌, ◌≡◌, ◌⊎◌, inl, inr, refl, sym, ap, ◌∙◌, arith, leb, ltb, not, Option-cases,
}
use goqtt.Broker.Delivery.{
  pending, send_packet, deliver_to, deliver_message, call_handler, run_handler, publish_to_all,
  handle_retained_message, Sends, send_retained, send_retained_messages,
}
use goqtt.Broker.Fanout.{deliver_message-Keeps, Keeps}
use goqtt.Broker.Granting.{changes_of, apply_changes}
use goqtt.Broker.Handlers.{
  PublishError, bad_topic_name, keep_retained, handle_publish, handle_subscribe, subscribe_filters,
  subscribe_filter, add_filter, grant_filter, handle_unsubscribe, unsubscribe_filters,
  handle_client_disconnect, broker_pub_ack, broker_pub_rec, broker_pub_comp,
  broker_incoming_publish, broker_incoming_pub_rel,
}
use goqtt.Broker.Qos.{
  handle_incoming_pub_rel, QosManager, new_qos_manager, add_pending_qos1, add_pending_qos2,
}
use goqtt.Broker.Qos.History.{
  Call, qos1_added, qos2_added, pub_acked, pub_recorded, pub_completed, published, released,
  client_left, call, manager_of,
}
use goqtt.Broker.Session.{Session, SessionMap, Write, get_session}
use goqtt.Broker.State.{Broker, generate_packet_id, RetainedMessage, min_qos}
use goqtt.Broker.Tree.{
  is_valid_topic_name, Subscription, TrieNode, new_subscription_tree, match_topic, topic_matches,
}
use goqtt.Broker.Tree.Table.{Change, subscribed, unsubscribed, removed, change_tree, tree_of}
use goqtt.Dict.{Dict}
use goqtt.Packet.Publish.{PublishPacket}
use goqtt.Packet.Types.{QosLevel}
pub mod Publishing
pub mod Requests

-- Calls that lead from one tree to another, and from one manager to another.
pub data Changes (t : TrieNode) : TrieNode → Type 0 where
  no_change : Changes t t
  changed : {u : TrieNode} → Changes t u → (change : Change) → Changes t (change_tree change u)

pub data Calls (qm : QosManager) : QosManager → Type 0 where
  no_call : Calls qm qm
  called : {r : QosManager} → Calls qm r → (c : Call) → Calls qm (call c r)

pub Changes-trans : {t u v : TrieNode} → Changes t u → Changes u v → Changes t v
Changes-trans h no_change = h
Changes-trans h (changed k c) = changed (Changes-trans h k) c

pub Calls-trans : {q r s : QosManager} → Calls q r → Calls r s → Calls q s
Calls-trans h no_call = h
Calls-trans h (called k c) = called (Calls-trans h k) c

-- From an empty tree, or a new manager, they are a history.
pub Changes-tree_of :
    {t : TrieNode}
    → Changes new_subscription_tree t
    → (history : List Change) × (t ≡ tree_of history)
unfolding tree_of
Changes-tree_of no_change = ([], refl)
Changes-tree_of (changed h c) =
    let (history, e) = Changes-tree_of h in (c ∷ history, ap (change_tree c) e)

pub Calls-manager_of :
    {qm : QosManager} → Calls new_qos_manager qm → (history : List Call) × (qm ≡ manager_of history)
unfolding manager_of
Calls-manager_of no_call = ([], refl)
Calls-manager_of (called h c) =
    let (history, e) = Calls-manager_of h in (c ∷ history, ap (call c) e)

pub record Evolves (b b' : Broker) : Type 0 where
  pub sessions_same : b'.sessions ≡ b.sessions
  pub changes : Changes b.subscriptions b'.subscriptions
  pub calls : Calls b.qos_manager b'.qos_manager

pub Evolves-refl : (b : Broker) → Evolves b b
Evolves-refl b = record { sessions_same = refl; changes = no_change; calls = no_call }

pub Evolves-trans : {b c d : Broker} → Evolves b c → Evolves c d → Evolves b d
Evolves-trans h k = record {
  sessions_same = k.sessions_same ∙ h.sessions_same;
  changes = Changes-trans h.changes k.changes;
  calls = Calls-trans h.calls k.calls;
}
