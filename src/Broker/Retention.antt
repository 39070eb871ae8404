-- ===== src/Broker/Retention.antt =====
-- internal/broker/broker.go: which messages are retained, and who is sent them.
use goqtt.Base.{
  ℕ, true, false, List, [], ◌∷◌, Bytes, Option, none, some, if◌then◌else◌, ◌==◌, ◌≡◌, arith, leb,
  ◌&&◌, length, Bool-cases, inl, inr,
}
use goqtt.Broker.Delivery.{handle_retained_message, send_retained}
use goqtt.Broker.Fanout.{IsDelivery, deliver_message-some, publish_to_all-Keeps}
use goqtt.Broker.Handlers.{handle_publish, keep_retained}
use goqtt.Broker.Session.{Session, Write}
use goqtt.Broker.State.{Broker, RetainedMessage, min_qos}
use goqtt.Broker.Tree.{match_topic, is_valid_topic_name, topic_matches}
use goqtt.Dict.{Dict, lookup, bytes_key}
use goqtt.Dict.Laws.{lookup-insert, lookup-delete}
use goqtt.Packet.Publish.{PublishPacket}
use goqtt.Packet.Types.{QosLevel}
use goqtt.Text.{bytes_eq}

-- What a published message leaves to retain for its topic.
abbrev pub to_retain : PublishPacket → Option RetainedMessage
to_retain p =
    if length p.payload == 0
    then none
    else some (record { topic = p.topic; payload = p.payload; qos = p.qos })

lookup-keep_retained :
    (topic : Bytes) (p : PublishPacket) (b : Broker)
    → lookup topic (keep_retained p b).retained_msgs
      ≡ (if p.retain && bytes_eq p.topic topic then to_retain p else lookup topic b.retained_msgs)
unfolding keep_retained handle_retained_message
lookup-keep_retained topic p b = ground (
  arith,
  lookup-insert p.topic topic (record { topic = p.topic; payload = p.payload; qos = p.qos })
      b.retained_msgs,
  lookup-delete p.topic topic b.retained_msgs,
)

-- A message published on a valid topic with the RETAIN flag takes the place of the topic's retained
-- message, or removes it where the payload is empty; the other topics keep theirs, and so do all
-- topics where the flag or the topic's validity is missing.
pub lookup-handle_publish :
    (now : ℕ) (topic : Bytes) (p : PublishPacket) (b : Broker)
    → lookup topic (handle_publish now (some p) b).1.1.retained_msgs ≡ (
        if is_valid_topic_name p.topic && (p.retain && bytes_eq p.topic topic)
        then to_retain p
        else lookup topic b.retained_msgs)
unfolding handle_publish
lookup-handle_publish now topic p b =
    let kept =
      (publish_to_all-Keeps now p (match_topic p.topic (keep_retained p b).subscriptions)
        (keep_retained p b)).retained_kept in
    ground (arith, kept, lookup-keep_retained topic p b)

-- One packet with RETAIN set for each retained message whose topic the filter matches, in order.
pub data RetainedSent (topic_filter : Bytes) (conn : ℕ) (max_qos : QosLevel)
    : Dict Bytes RetainedMessage → List Write → Type 0 where
  no_more : RetainedSent topic_filter conn max_qos [] []
  skipped :
      {topic : Bytes} {r : RetainedMessage} {rs : Dict Bytes RetainedMessage} {ws : List Write}
      → topic_matches topic_filter topic ≡ false
      → RetainedSent topic_filter conn max_qos rs ws
      → RetainedSent topic_filter conn max_qos ((topic, r) ∷ rs) ws
  sent :
      {topic : Bytes} {r : RetainedMessage} {rs : Dict Bytes RetainedMessage} {w : Write}
      {ws : List Write}
      → topic_matches topic_filter topic ≡ true
      → IsDelivery conn topic r.payload (min_qos r.qos max_qos) true w
      → RetainedSent topic_filter conn max_qos rs ws
      → RetainedSent topic_filter conn max_qos ((topic, r) ∷ rs) (w ∷ ws)

min_qos_comm_bound : (a b : QosLevel) → leb b 2 ≡ true → leb (min_qos a b) 2 ≡ true
unfolding min_qos
min_qos_comm_bound a b h = ground arith

-- A session with a connection that subscribes is sent the retained messages that its filter
-- matches, each once, with the lesser QoS and RETAIN set, and nothing else.
pub send_retained-RetainedSent :
    (now conn : ℕ) (session : Session) (topic_filter : Bytes) (max_qos : QosLevel)
    (rs : Dict Bytes RetainedMessage) (b : Broker)
    → session.conn ≡ some conn
    → leb max_qos 2 ≡ true
    → RetainedSent topic_filter conn max_qos rs
        (send_retained now session topic_filter max_qos rs b).0
unfolding send_retained
send_retained-RetainedSent now conn session f q [] b e h = no_more
send_retained-RetainedSent now conn session f q ((topic, r) ∷ rs) b e h =
    elim (Bool-cases (topic_matches f topic)) [
      | inl t ↦
          let (w, d, s) =
            deliver_message-some now conn session topic r.payload (min_qos r.qos q) true b e
              (min_qos_comm_bound r.qos q h) in
          rw (t, s) (sent t d (send_retained-RetainedSent now conn session f q rs _ e h))
      | inr t ↦ rw t (skipped t (send_retained-RetainedSent now conn session f q rs b e h))
    ]
