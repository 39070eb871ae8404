-- ===== src/Broker/Releasing.antt =====
-- internal/broker/broker.go, `HandleIncomingPubRel`: who is sent a message of QoS 2, and when.
use goqtt.Broker.Fanout.{handle_publish-Deliveries, Deliveries}
use goqtt.Broker.Qos.Delivery.{pub_rel-message}
use goqtt.Broker.Session.{SessionMap, Session, Write}
use goqtt.Dict.Nested.{find_entry}
use goqtt.Broker.Tree.{TrieNode, Subscription, is_valid_topic_name, match_topic}
use goqtt.Packet.Types.{QosLevel}
use goqtt.Broker.State.{min_qos, Broker, generate_packet_id}
use goqtt.Packet.Acks.{PubcompPacket}
use goqtt.Packet.Publish.{PublishPacket}
use goqtt.Broker.Qos.{
  add_pending_qos2, add_pending_qos1, QosManager, ReceivedQos2, handle_incoming_pub_rel,
}
use goqtt.Broker.Delivery.{
  handle_retained_message, run_handler, deliver_to, publish_to_all, deliver_message, call_handler,
}
use goqtt.Broker.Handlers.{
  released_packet, keep_retained, broker_incoming_pub_rel, handle_publish, publish_released,
}
use mathlib.Core.Path.{subst}
use goqtt.Base.{
  inr, ap, ◌∙◌, inl, Bool-cases, leb, List, Option, Bytes, Bool, ℕ, ◌≡◌, refl, arith, true, false,
  none, some, ◌∷◌, [],
}
use goqtt.Dict.{bytes_key, nat_key}

-- Publishing puts nothing into the map of received messages, and takes nothing out of it.
deliver_message-received :
    (now : ℕ) (session : Session) (topic payload : Bytes) (qos : QosLevel) (retain : Bool)
    (b : Broker)
    → (deliver_message now session topic payload qos retain b).1.qos_manager.qos2_received
      ≡ b.qos_manager.qos2_received
unfolding deliver_message deliver_to generate_packet_id add_pending_qos1 add_pending_qos2
deliver_message-received now session topic payload qos retain b = ground arith

call_handler-received :
    (now : ℕ) (handler : Option Bytes) (p : PublishPacket) (qos : QosLevel) (b : Broker)
    → (call_handler now handler p qos b).1.qos_manager.qos2_received ≡ b.qos_manager.qos2_received
unfolding call_handler run_handler
call_handler-received now none p qos b = refl
call_handler-received now (some c) p qos b =
    deliver_message-received now _ p.topic p.payload qos p.retain b

publish_to_all-received :
    (now : ℕ) (p : PublishPacket) (ss : List Subscription) (b : Broker)
    → (publish_to_all now p ss b).1.qos_manager.qos2_received ≡ b.qos_manager.qos2_received
unfolding publish_to_all
publish_to_all-received now p [] b = refl
publish_to_all-received now p (s ∷ ss) b =
    publish_to_all-received now p ss (call_handler now s.handler p (min_qos p.qos s.qos) b).1
    ∙ call_handler-received now s.handler p (min_qos p.qos s.qos) b

handle_publish-received :
    (now : ℕ) (p : PublishPacket) (b : Broker)
    → (handle_publish now (some p) b).1.1.qos_manager.qos2_received ≡ b.qos_manager.qos2_received
unfolding handle_publish keep_retained handle_retained_message
handle_publish-received now p b =
    let sent =
      publish_to_all-received now p (match_topic p.topic (keep_retained p b).subscriptions)
        (keep_retained p b) in
    ground (arith, sent)

-- On an invalid topic nothing is published.
handle_publish-invalid :
    (now : ℕ) (p : PublishPacket) (b : Broker)
    → is_valid_topic_name p.topic ≡ false
    → (handle_publish now (some p) b).1.0 ≡ []
unfolding handle_publish
handle_publish-invalid now p b e = ground arith

-- What the writes are, by the validity of the topic.
abbrev pub IsPublished : Bool → PublishPacket → SessionMap → TrieNode → List Write → Type 0
IsPublished true p sessions t sent = Deliveries p sessions (match_topic p.topic t) sent
IsPublished false p sessions t sent = sent ≡ []

-- The packet that a held message is published with.
abbrev pub held_publish : ℕ → Bytes → Bytes → Bool → PublishPacket
held_publish packet_id topic payload retain = record {
  dup = false;
  qos = 2;
  retain = retain;
  topic = topic;
  packet_id = some packet_id;
  payload = payload;
  raw = [];
}

-- A message that is held is published with QoS 2 and its identifier; without one nothing is sent.
abbrev pub IsReleased : ℕ → Option ReceivedQos2 → SessionMap → TrieNode → List Write → Type 0
IsReleased packet_id none sessions t sent = sent ≡ []
IsReleased packet_id (some m) sessions t sent =
    IsPublished (is_valid_topic_name m.topic) (held_publish packet_id m.topic m.payload m.retain)
      sessions t sent

handle_publish-IsPublished :
    (now : ℕ) (p : PublishPacket) (b : Broker)
    → leb p.qos 2 ≡ true
    → IsPublished
        (is_valid_topic_name p.topic)
        p
        b.sessions
        b.subscriptions
        (handle_publish now (some p) b).1.0
handle_publish-IsPublished now p b h = elim (Bool-cases (is_valid_topic_name p.topic)) [
  | inl v ↦ rw v (handle_publish-Deliveries now p b v h).1
  | inr v ↦ rw v (handle_publish-invalid now p b v)
]

publish_released-IsReleased :
    (now i : ℕ) (pubcomp : PubcompPacket) (msg : Option ReceivedQos2) (b : Broker)
    → let r = publish_released now i pubcomp msg b in
      IsReleased i msg b.sessions b.subscriptions r.1.0
      × (r.0.1 ≡ pubcomp)
      × (r.1.1.qos_manager.qos2_received ≡ b.qos_manager.qos2_received)
unfolding publish_released
publish_released-IsReleased now i pubcomp none b = (refl, refl, refl)
publish_released-IsReleased now i pubcomp (some m) b =
    let p = released_packet i m in
    (handle_publish-IsPublished now p b refl, refl, handle_publish-received now p b)

pubcomp_of :
    (c : Bytes) (i : ℕ) (qm : QosManager)
    → (handle_incoming_pub_rel c i qm).0.1 ≡ record { packet_id = i }
unfolding handle_incoming_pub_rel
pubcomp_of c i qm = ground arith

-- A PUBREL publishes the message that is held for the client and the identifier, and the message is
-- held no longer.
pub broker_incoming_pub_rel-IsReleased :
    (now : ℕ) (c : Bytes) (i : ℕ) (b : Broker)
    → let r = broker_incoming_pub_rel now c i b in
      IsReleased i (find_entry c i b.qos_manager.qos2_received) b.sessions b.subscriptions r.1.0
      × (r.0.1 ≡ record { packet_id = i })
      × (find_entry c i r.1.1.qos_manager.qos2_received ≡ none)
unfolding broker_incoming_pub_rel
broker_incoming_pub_rel-IsReleased now c i b =
    let release = handle_incoming_pub_rel c i b.qos_manager in
    let b' : Broker = record b { qos_manager = release.1 } in
    let (msg, empty) = pub_rel-message c i b.qos_manager in
    let (sent, same, kept) = publish_released-IsReleased now i release.0.1 release.0.0 b' in
    (
      subst
          (λ m.
            IsReleased i m b.sessions b.subscriptions
              (publish_released now i release.0.1 release.0.0 b').1.0)
          msg sent,
      same ∙ pubcomp_of c i b.qos_manager,
      ap (find_entry c i) kept ∙ empty,
    )
