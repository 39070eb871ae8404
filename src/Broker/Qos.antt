-- ===== src/Broker/Qos.antt =====
-- internal/broker/qos.go: the messages of QoS 1 and 2 that wait for their acknowledgements.
pub mod Delivery
pub mod History
pub mod Invariant
pub mod Retries
pub mod Entries
pub mod Resending
pub mod Slots
pub mod Tests
use goqtt.Base.{
  concat, ℕ, Bool, true, false, ◌+◌, ◌-◌, ◌*◌, ◌&&◌, List, [], ◌∷◌, ◌++◌, Option, none, some,
  if◌then◌else◌, Bytes, leb, ltb, length, map,
}
use goqtt.Broker.Session.{Session, Write}
use goqtt.Dict.{insert, Dict, lookup, delete, values, bytes_key, nat_key}
use goqtt.Dict.Nested.{Nested, find_entry, add_entry, remove_entry, update_entries, or_empty}
use goqtt.Packet.Types.{QosLevel}
use goqtt.Packet.Publish.{PublishPacket, encode_publish}
use goqtt.Packet.Acks.{PubrecPacket, PubrelPacket, PubcompPacket}

-- Instants and durations are numbers of nanoseconds.
pub record PendingMessage : Type 0 where
  pub packet_id : ℕ
  pub client_id : Bytes
  pub topic : Bytes
  pub payload : Bytes
  pub qos : QosLevel
  pub retain : Bool
  pub timestamp : ℕ
  pub retry_count : ℕ
  pub max_retries : ℕ
  pub retry_delay : ℕ
  pub session : Option Session

pub record ReceivedQos2 : Type 0 where
  pub packet_id : ℕ
  pub client_id : Bytes
  pub topic : Bytes
  pub payload : Bytes
  pub retain : Bool
  pub timestamp : ℕ

abbrev pub second : ℕ
second = 1000000000

abbrev pub default_max_retries : ℕ
default_max_retries = 3

abbrev pub default_retry_delay : ℕ
default_retry_delay = 30 * second

abbrev pub qos2_timeout : ℕ
qos2_timeout = 5 * 60 * second

pub record QosManager : Type 0 where
  pub pending_qos1 : Nested PendingMessage
  pub pending_qos2 : Nested PendingMessage
  pub qos2_received : Nested ReceivedQos2

abbrev pub new_qos_manager : QosManager
new_qos_manager = record { pending_qos1 = []; pending_qos2 = []; qos2_received = [] }

-- `now` is what `time.Now` returns, here and below.
abbrev pub started : ℕ → PendingMessage → PendingMessage
started now msg = record msg {
  timestamp = now;
  max_retries = default_max_retries;
  retry_delay = default_retry_delay;
}

abbrev pub with_qos1 : Nested PendingMessage → QosManager → QosManager
with_qos1 d qm = record qm { pending_qos1 = d }

abbrev pub with_qos2 : Nested PendingMessage → QosManager → QosManager
with_qos2 d qm = record qm { pending_qos2 = d }

abbrev pub with_received : Nested ReceivedQos2 → QosManager → QosManager
with_received d qm = record qm { qos2_received = d }

unfoldable pub add_pending_qos1 : ℕ → PendingMessage → QosManager → QosManager
add_pending_qos1 now msg qm =
    with_qos1 (add_entry msg.client_id msg.packet_id (started now msg) qm.pending_qos1) qm

unfoldable pub add_pending_qos2 : ℕ → PendingMessage → QosManager → QosManager
add_pending_qos2 now msg qm =
    with_qos2 (add_entry msg.client_id msg.packet_id (started now msg) qm.pending_qos2) qm

unfoldable pub handle_pub_ack : Bytes → ℕ → QosManager → Bool × QosManager
handle_pub_ack client_id packet_id qm = elim (find_entry client_id packet_id qm.pending_qos1) [
  | none ↦ (false, qm)
  | some msg ↦ (true, with_qos1 (remove_entry client_id packet_id qm.pending_qos1) qm)
]

abbrev pub received_message : Bytes → ℕ → Bytes → Bytes → Bool → ℕ → ReceivedQos2
received_message client_id packet_id topic payload retain now = record {
  packet_id = packet_id;
  client_id = client_id;
  topic = topic;
  payload = payload;
  retain = retain;
  timestamp = now;
}

-- What `HandlePubRec` does about the pending message. A nil packet, with `false`, is `none`.
unfoldable pub move_pending :
    ℕ → Bytes → ℕ → Option PendingMessage → QosManager → Option PubrelPacket × QosManager
move_pending now client_id packet_id none qm = (none, qm)
move_pending now client_id packet_id (some msg) qm =
    let r = received_message client_id packet_id msg.topic msg.payload msg.retain now in
    (
      some (record { packet_id = packet_id }),
      record {
        pending_qos1 = qm.pending_qos1;
        pending_qos2 = remove_entry client_id packet_id qm.pending_qos2;
        qos2_received = add_entry client_id packet_id r qm.qos2_received;
      },
    )

unfoldable pub handle_pub_rec : ℕ → Bytes → ℕ → QosManager → Option PubrelPacket × QosManager
handle_pub_rec now client_id packet_id qm =
    move_pending now client_id packet_id (find_entry client_id packet_id qm.pending_qos2) qm

unfoldable pub handle_pub_comp : Bytes → ℕ → QosManager → Bool × QosManager
handle_pub_comp client_id packet_id qm = elim (find_entry client_id packet_id qm.qos2_received) [
  | none ↦ (false, qm)
  | some msg ↦ (true, with_received (remove_entry client_id packet_id qm.qos2_received) qm)
]

unfoldable pub handle_incoming_qos2_publish :
    ℕ → Bytes → ℕ → Bytes → Bytes → Bool → QosManager → PubrecPacket × QosManager
handle_incoming_qos2_publish now client_id packet_id topic payload retain qm =
    elim (find_entry client_id packet_id qm.qos2_received) [
      | none ↦
          let r = received_message client_id packet_id topic payload retain now in
          (
            record { packet_id = packet_id },
            with_received (add_entry client_id packet_id r qm.qos2_received) qm,
          )
      | some msg ↦ (record { packet_id = packet_id }, qm)
    ]

unfoldable pub handle_incoming_pub_rel :
    Bytes → ℕ → QosManager → (Option ReceivedQos2 × PubcompPacket) × QosManager
handle_incoming_pub_rel client_id packet_id qm =
    elim (find_entry client_id packet_id qm.qos2_received) [
      | none ↦ ((none, record { packet_id = packet_id }), qm)
      | some msg ↦ (
        (some msg, record { packet_id = packet_id }),
        with_received (remove_entry client_id packet_id qm.qos2_received) qm,
      )
    ]

unfoldable pub cleanup_client : Bytes → QosManager → QosManager
cleanup_client client_id qm = record {
  pending_qos1 = delete client_id qm.pending_qos1;
  pending_qos2 = delete client_id qm.pending_qos2;
  qos2_received = delete client_id qm.qos2_received;
}

unfoldable pub get_pending_message_count : Bytes → QosManager → ℕ × ℕ
get_pending_message_count client_id qm = (
  length (or_empty (lookup client_id qm.pending_qos1)),
  length (or_empty (lookup client_id qm.pending_qos2)),
)

-- `now.Sub(msg.Timestamp) >= delay`; all delays are positive, so a negative difference fails.
abbrev pub is_due : ℕ → ℕ → ℕ → Bool
is_due now timestamp delay = leb delay (now - timestamp)

-- What the loops of `processRetries` leave of a message.
unfoldable pub retry_pending : ℕ → PendingMessage → Option PendingMessage
retry_pending now msg =
    if is_due now msg.timestamp msg.retry_delay
    then (if ltb msg.retry_count msg.max_retries
        then some (record msg { retry_count = msg.retry_count + 1; timestamp = now })
        else none)
    else some msg

-- The packet that is sent again.
abbrev pub resent_packet : PendingMessage → PublishPacket
resent_packet msg = record {
  dup = true;
  qos = msg.qos;
  retain = msg.retain;
  topic = msg.topic;
  packet_id = some msg.packet_id;
  payload = msg.payload;
  raw = [];
}

-- `retryMessage`; a failed write is only logged.
unfoldable pub retry_message : PendingMessage → List Write
retry_message msg =
    let encoded = encode_publish (resent_packet msg) in
    elim msg.session [
      | none ↦ []
      | some session ↦ elim session.conn [ none ↦ [] | some conn ↦ (conn, encoded) ∷ [] ]
    ]

unfoldable pub retry_write : ℕ → PendingMessage → List Write
retry_write now msg =
    if is_due now msg.timestamp msg.retry_delay && ltb msg.retry_count msg.max_retries
    then retry_message msg
    else []

abbrev pub all_entries : {V : Type 0} → Nested V → List V
all_entries d = concat (map values (values d))

unfoldable pub process_retries : ℕ → QosManager → List Write × QosManager
process_retries now qm = (
  concat (map (retry_write now) (all_entries qm.pending_qos1))
      ++ concat (map (retry_write now) (all_entries qm.pending_qos2)),
  record {
    pending_qos1 = update_entries (retry_pending now) qm.pending_qos1;
    pending_qos2 = update_entries (retry_pending now) qm.pending_qos2;
    qos2_received = qm.qos2_received;
  },
)

unfoldable pub expire : ℕ → ReceivedQos2 → Option ReceivedQos2
expire now msg = if is_due now msg.timestamp qos2_timeout then none else some msg

unfoldable pub cleanup_timed_out_messages : ℕ → QosManager → QosManager
cleanup_timed_out_messages now qm = with_received (update_entries (expire now) qm.qos2_received) qm

-- The report of `GetStatistics`.
pub record Statistics : Type 0 where
  pub qos1_pending : Dict Bytes ℕ
  pub qos2_pending : Dict Bytes ℕ
  pub qos2_received : Dict Bytes ℕ
  pub total_clients : ℕ

-- The number of each client's messages.
unfoldable pub count_messages : {A : Type 0} → Dict Bytes (Dict ℕ A) → Dict Bytes ℕ
count_messages [] = []
count_messages ((client_id, messages) ∷ rest) =
    insert client_id (length messages) (count_messages rest)

unfoldable pub get_statistics : QosManager → Statistics
unfolding count_messages
get_statistics qm = record {
  qos1_pending = count_messages qm.pending_qos1;
  qos2_pending = count_messages qm.pending_qos2;
  qos2_received = count_messages qm.qos2_received;
  total_clients = length qm.pending_qos1 + length qm.pending_qos2 + length qm.qos2_received;
}
