-- ===== src/Broker/Delivery.antt =====
-- internal/broker/broker.go: messages on their way to a session, and the retained messages. What a
-- function writes to the connections is the first part of its result. A write that fails is only
-- logged. `now` is the time of the call.
use goqtt.Base.{
  ℕ, Bool, true, false, List, [], ◌∷◌, ◌++◌, Bytes, Option, none, some, if◌then◌else◌, ◌==◌, length,
}
use goqtt.Broker.Qos.{PendingMessage, add_pending_qos1, add_pending_qos2}
use goqtt.Broker.Session.{Session, Write, get_session}
use goqtt.Broker.State.{Broker, RetainedMessage, generate_packet_id, min_qos}
use goqtt.Broker.Tree.{Subscription, topic_matches}
use goqtt.Dict.{Dict, bytes_key, insert, delete}
use goqtt.Packet.Publish.{PublishPacket, encode_publish}
use goqtt.Packet.Types.{QosLevel, qos_at_most_once, qos_at_least_once, qos_exactly_once}

abbrev pub Sends : Type 0
Sends = List Write × Broker

-- The packet that `deliverMessage` makes, with its identifier.
abbrev pub delivery : Bytes → Bytes → QosLevel → Bool → Option ℕ → PublishPacket
delivery topic payload qos retain packet_id = record {
  dup = false;
  qos = qos;
  retain = retain;
  topic = topic;
  packet_id = packet_id;
  payload = payload;
  raw = [];
}

abbrev pub pending : Session → ℕ → Bytes → Bytes → QosLevel → Bool → PendingMessage
pending session packet_id topic payload qos retain = record {
  packet_id = packet_id;
  client_id = session.client_id;
  topic = topic;
  payload = payload;
  qos = qos;
  retain = retain;
  timestamp = 0;
  retry_count = 0;
  max_retries = 0;
  retry_delay = 0;
  session = some session;
}

-- `sendPacket`. `Encode` on a packet never answers with nil.
unfoldable pub send_packet : ℕ → PublishPacket → List Write
send_packet conn publish_packet = (conn, encode_publish publish_packet) ∷ []

-- `switch qos`, to a session with a connection.
unfoldable pub deliver_to : ℕ → ℕ → Session → Bytes → Bytes → QosLevel → Bool → Broker → Sends
deliver_to now conn session topic payload qos retain b =
    let (packet_id, b') = generate_packet_id b in
    let msg = pending session packet_id topic payload qos retain in
    let sent = send_packet conn (delivery topic payload qos retain (some packet_id)) in
    if qos == qos_at_most_once
    then (send_packet conn (delivery topic payload qos retain none), b)
    else if qos == qos_at_least_once
    then (sent, record b' { qos_manager = add_pending_qos1 now msg b'.qos_manager })
    else if qos == qos_exactly_once
    then (sent, record b' { qos_manager = add_pending_qos2 now msg b'.qos_manager })
    else ([], b)

unfoldable pub deliver_message : ℕ → Session → Bytes → Bytes → QosLevel → Bool → Broker → Sends
deliver_message now session topic payload qos retain b = elim session.conn [
  | none ↦ ([], b)
  | some conn ↦ deliver_to now conn session topic payload qos retain b
]

-- The closure that `HandleSubscribe` makes for the client.
unfoldable pub run_handler : ℕ → Bytes → Bytes → Bytes → QosLevel → Bool → Broker → Sends
run_handler now client_id topic payload qos retain b =
    deliver_message now (get_session client_id b.sessions).0 topic payload qos retain b

-- `if subscription.Handler != nil { subscription.Handler(…) }`
unfoldable pub call_handler : ℕ → Option Bytes → PublishPacket → QosLevel → Broker → Sends
call_handler now none p qos b = ([], b)
call_handler now (some client_id) p qos b =
    run_handler now client_id p.topic p.payload qos p.retain b

-- The loop of `HandlePublish` over the subscriptions that match.
unfoldable pub publish_to_all : ℕ → PublishPacket → List Subscription → Broker → Sends
publish_to_all now p [] b = ([], b)
publish_to_all now p (s ∷ ss) b =
    let (sent, b') = call_handler now s.handler p (min_qos p.qos s.qos) b in
    let (more, b'') = publish_to_all now p ss b' in (sent ++ more, b'')

unfoldable pub handle_retained_message : PublishPacket → Broker → Broker
handle_retained_message p b =
    if length p.payload == 0
    then record b { retained_msgs = delete p.topic b.retained_msgs }
    else record b {
      retained_msgs =
          insert p.topic (record { topic = p.topic; payload = p.payload; qos = p.qos })
            b.retained_msgs;
    }

-- The loop of `sendRetainedMessages` over the map.
unfoldable pub send_retained :
    ℕ → Session → Bytes → QosLevel → Dict Bytes RetainedMessage → Broker → Sends
send_retained now session topic_filter max_qos [] b = ([], b)
send_retained now session topic_filter max_qos ((topic, r) ∷ rs) b =
    let here : Sends =
      if topic_matches topic_filter topic
      then deliver_message now session topic r.payload (min_qos r.qos max_qos) true b
      else ([], b) in
    let (more, b') = send_retained now session topic_filter max_qos rs here.1 in
    (here.0 ++ more, b')

unfoldable pub send_retained_messages : ℕ → Session → Bytes → QosLevel → Broker → Sends
send_retained_messages now session topic_filter max_qos b =
    send_retained now session topic_filter max_qos b.retained_msgs b
