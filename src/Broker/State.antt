-- ===== src/Broker/State.antt =====
-- internal/broker/broker.go: the broker's state, and the parts of it that no message passes through.
use goqtt.Base.{ℕ, ◌+◌, ◌%◌, ◌^◌, List, [], Bytes, if◌then◌else◌, ltb, ◌==◌, length}
use goqtt.Broker.Qos.{QosManager, new_qos_manager}
use goqtt.Broker.Session.{SessionMap}
use goqtt.Broker.Tree.{Subscription, TrieNode, new_subscription_tree, get_subscriptions}
use goqtt.Dict.{Dict}
use goqtt.Packet.Types.{QosLevel, qos_exactly_once}

pub record RetainedMessage : Type 0 where
  pub topic : Bytes
  pub payload : Bytes
  pub qos : QosLevel

-- The locks and the logger are left out. `packet_id_seq` is a `uint32`.
pub record Broker : Type 0 where
  pub sessions : SessionMap
  pub subscriptions : TrieNode
  pub retained_msgs : Dict Bytes RetainedMessage
  pub packet_id_seq : ℕ
  pub qos_manager : QosManager

abbrev pub new_broker : Broker
new_broker = record {
  sessions = [];
  subscriptions = new_subscription_tree;
  retained_msgs = [];
  packet_id_seq = 0;
  qos_manager = new_qos_manager;
}

-- `atomic.AddUint32(&b.packetIDSeq, 1)`
abbrev pub next_seq : ℕ → ℕ
next_seq seq = (seq + 1) % 2 ^ 32

-- The counter after `generatePacketID`, which passes over 0.
unfoldable pub advance : ℕ → ℕ
advance seq = if next_seq seq == 0 then next_seq (next_seq seq) else next_seq seq

-- The identifier, which is the counter as a `uint16`.
unfoldable pub generate_packet_id : Broker → ℕ × Broker
unfolding advance
generate_packet_id b =
    (advance b.packet_id_seq % 2 ^ 16, record b { packet_id_seq = advance b.packet_id_seq })

unfoldable pub min_qos : QosLevel → QosLevel → QosLevel
min_qos qos1 qos2 = if ltb qos1 qos2 then qos1 else qos2

unfoldable pub get_granted_qos : QosLevel → QosLevel
get_granted_qos requested_qos =
    if ltb qos_exactly_once requested_qos then qos_exactly_once else requested_qos

unfoldable pub get_client_subscriptions_of : Bytes → Broker → List Subscription
get_client_subscriptions_of client_id b = get_subscriptions client_id b.subscriptions

unfoldable pub get_subscription_count : Bytes → Broker → ℕ
get_subscription_count client_id b = length (get_subscriptions client_id b.subscriptions)

unfoldable pub get_retained_message_count : Broker → ℕ
get_retained_message_count b = length b.retained_msgs
