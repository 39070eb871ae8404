-- ===== src/Broker/Handlers.antt =====
-- internal/broker/broker.go: what the broker does about a client's packet. A nil packet or session
-- is `none`. The validators never panic, so that a failed check is an error.
use goqtt.Base.{ℕ, Bool, List, [], ◌∷◌, ◌++◌, Bytes, Option, none, some, if◌then◌else◌, ◌==◌, not}
use goqtt.Broker.Delivery.{
  Sends, publish_to_all, handle_retained_message, send_retained_messages, delivery,
}
use goqtt.Broker.Qos.{
  ReceivedQos2, handle_pub_ack, handle_pub_rec, handle_pub_comp, handle_incoming_qos2_publish,
  handle_incoming_pub_rel, cleanup_client,
}
use goqtt.Broker.Session.{Session}
use goqtt.Broker.State.{Broker, get_granted_qos}
use goqtt.Broker.Tree.{
  TrieNode, subscribe, unsubscribe, unsubscribe_all, match_topic, is_valid_topic_filter,
  is_valid_topic_name,
}
use goqtt.Er.{Result, ok, err, panic, stuck}
use goqtt.Packet.Acks.{PubrecPacket, PubrelPacket, PubcompPacket}
use goqtt.Packet.Publish.{PublishPacket}
use goqtt.Packet.Suback.{
  SubackPacket, suback_max_qos0, suback_max_qos1, suback_max_qos2, suback_failure,
}
use goqtt.Packet.Subscribe.{SubscribePacket, SubscribeFilter}
use goqtt.Packet.Types.{QosLevel, qos_at_most_once, qos_at_least_once, qos_exactly_once}
use goqtt.Packet.Unsuback.{UnsubackPacket}
use goqtt.Packet.Unsubscribe.{UnsubscribePacket}

-- `switch grantedQoS`
unfoldable pub granted_code : QosLevel → ℕ
granted_code qos =
    if qos == qos_at_most_once
    then suback_max_qos0
    else if qos == qos_at_least_once
    then suback_max_qos1
    else if qos == qos_exactly_once
    then suback_max_qos2
    else suback_failure

-- What is left to do for a filter that stands in the tree now: its code, and the retained messages.
unfoldable pub grant_filter : ℕ → Session → SubscribeFilter → Broker → ℕ × Sends
grant_filter now session filter b =
    let granted = get_granted_qos filter.qos in
    (granted_code granted, send_retained_messages now session filter.topic granted b)

-- `if err != nil { … }` behind the call of `Subscribe`.
unfoldable pub add_filter : ℕ → Session → SubscribeFilter → Result TrieNode → Broker → ℕ × Sends
add_filter now session filter (ok t) b =
    grant_filter now session filter (record b { subscriptions = t })
add_filter now session filter (err e) b = (suback_failure, ([], b))
add_filter now session filter panic b = (suback_failure, ([], b))
add_filter now session filter stuck b = (suback_failure, ([], b))

-- One round of the loop of `HandleSubscribe`.
unfoldable pub subscribe_filter : ℕ → Session → SubscribeFilter → Broker → ℕ × Sends
subscribe_filter now session filter b =
    let added =
      subscribe session.client_id session filter.topic filter.qos (some session.client_id)
        b.subscriptions in
    if is_valid_topic_filter filter.topic
    then add_filter now session filter added b
    else (suback_failure, ([], b))

unfoldable pub subscribe_filters : ℕ → Session → List SubscribeFilter → Broker → List ℕ × Sends
subscribe_filters now session [] b = ([], ([], b))
subscribe_filters now session (filter ∷ filters) b =
    let (code, (sent, b')) = subscribe_filter now session filter b in
    let (codes, (more, b'')) = subscribe_filters now session filters b' in
    (code ∷ codes, (sent ++ more, b''))

unfoldable pub handle_subscribe :
    ℕ → Option Session → Option SubscribePacket → Broker → Option SubackPacket × Sends
handle_subscribe now none p b = (none, ([], b))
handle_subscribe now (some session) none b = (none, ([], b))
handle_subscribe now (some session) (some p) b =
    let (codes, done) = subscribe_filters now session p.filters b in
    (some (record { packet_id = p.packet_id; return_codes = codes }), done)

unfoldable pub unsubscribe_filters : Bytes → List Bytes → TrieNode → TrieNode
unsubscribe_filters client_id [] t = t
unsubscribe_filters client_id (f ∷ fs) t =
    unsubscribe_filters client_id fs (unsubscribe client_id f t)

unfoldable pub handle_unsubscribe :
    Option Session → Option UnsubscribePacket → Broker → Option UnsubackPacket × Broker
handle_unsubscribe none p b = (none, b)
handle_unsubscribe (some session) none b = (none, b)
handle_unsubscribe (some session) (some p) b = (
  some (record { packet_id = p.packet_id }),
  record b {
    subscriptions = unsubscribe_filters session.client_id p.topic_filters b.subscriptions;
  },
)

-- The error of `HandlePublish`.
pub data PublishError : Type 0 where
  nil_publish_packet bad_topic_name : PublishError

-- `if publishPacket.Retain { … }`
unfoldable pub keep_retained : PublishPacket → Broker → Broker
keep_retained p b = if p.retain then handle_retained_message p b else b

-- A nil error is `none`. The client identifier is only logged.
unfoldable pub handle_publish : ℕ → Option PublishPacket → Broker → Option PublishError × Sends
handle_publish now none b = (some nil_publish_packet, ([], b))
handle_publish now (some p) b =
    let b' : Broker = keep_retained p b in
    let sent = publish_to_all now p (match_topic p.topic b'.subscriptions) b' in
    if not (is_valid_topic_name p.topic) then (some bad_topic_name, ([], b)) else (none, sent)

unfoldable pub handle_client_disconnect : Bytes → Broker → Broker
handle_client_disconnect client_id b = record b {
  subscriptions = unsubscribe_all client_id b.subscriptions;
  qos_manager = cleanup_client client_id b.qos_manager;
}

-- The methods that hand a packet on to the QoS manager.
unfoldable pub broker_pub_ack : Bytes → ℕ → Broker → Bool × Broker
broker_pub_ack client_id packet_id b =
    let (found, qm) = handle_pub_ack client_id packet_id b.qos_manager in
    (found, record b { qos_manager = qm })

unfoldable pub broker_pub_rec : ℕ → Bytes → ℕ → Broker → Option PubrelPacket × Broker
broker_pub_rec now client_id packet_id b =
    let (pubrel, qm) = handle_pub_rec now client_id packet_id b.qos_manager in
    (pubrel, record b { qos_manager = qm })

unfoldable pub broker_pub_comp : Bytes → ℕ → Broker → Bool × Broker
broker_pub_comp client_id packet_id b =
    let (found, qm) = handle_pub_comp client_id packet_id b.qos_manager in
    (found, record b { qos_manager = qm })

unfoldable pub broker_incoming_publish :
    ℕ → Bytes → ℕ → Bytes → Bytes → Bool → Broker → PubrecPacket × Broker
broker_incoming_publish now client_id packet_id topic payload retain b =
    let (pubrec, qm) =
      handle_incoming_qos2_publish now client_id packet_id topic payload retain b.qos_manager in
    (pubrec, record b { qos_manager = qm })

-- The packet that a PUBREL publishes.
abbrev pub released_packet : ℕ → ReceivedQos2 → PublishPacket
released_packet packet_id msg =
    delivery msg.topic msg.payload qos_exactly_once msg.retain (some packet_id)

-- `if msg == nil { … }`, and what follows.
unfoldable pub publish_released :
    ℕ
    → ℕ
    → PubcompPacket
    → Option ReceivedQos2
    → Broker
    → (Option PublishError × PubcompPacket) × Sends
publish_released now packet_id pubcomp none b = ((none, pubcomp), ([], b))
publish_released now packet_id pubcomp (some msg) b =
    let (error, sent) = handle_publish now (some (released_packet packet_id msg)) b in
    ((error, pubcomp), sent)

unfoldable pub broker_incoming_pub_rel :
    ℕ → Bytes → ℕ → Broker → (Option PublishError × PubcompPacket) × Sends
broker_incoming_pub_rel now client_id packet_id b =
    let ((msg, pubcomp), qm) = handle_incoming_pub_rel client_id packet_id b.qos_manager in
    publish_released now packet_id pubcomp msg (record b { qos_manager = qm })
