-- ===== src/Broker/Fanout.antt =====
-- internal/broker/broker.go, `HandlePublish`: who is sent a message that is published.
use goqtt.Base.{
  Option-cases, ==_iff, Bool-cases, ◌<◌, ℕ, ◌%◌, ◌^◌, Bool, true, false, List, [], ◌∷◌, Bytes,
  Option, none, some, ◌==◌, ◌≡◌, ◌⊎◌, inl, inr, refl, sym, ◌∙◌, arith, leb,
}
use goqtt.Broker.Delivery.{
  call_handler, send_packet, deliver_to, deliver_message, run_handler, publish_to_all,
  handle_retained_message,
}
use goqtt.Broker.Handlers.{keep_retained, handle_publish}
use goqtt.Broker.Session.{Session, SessionMap, Write, get_session}
use goqtt.Broker.State.{Broker, generate_packet_id, advance, min_qos}
use goqtt.Broker.Tree.{Subscription, match_topic, is_valid_topic_name}
use goqtt.Packet.Publish.{PublishPacket, encode_publish}
use goqtt.Packet.Types.{QosLevel}

-- A message of QoS 0 has no packet identifier, any other has one of 16 bits.
abbrev pub HasId : QosLevel → Option ℕ → Type 0
HasId qos none = qos ≡ 0
HasId qos (some packet_id) = packet_id < 2 ^ 16

-- The one write that delivers the message on the connection.
abbrev pub IsDelivery : ℕ → Bytes → Bytes → QosLevel → Bool → Write → Type 0
IsDelivery conn topic payload qos retain w =
    (id : Option ℕ) × HasId qos id
    × (w ≡ (
      conn,
      encode_publish (record {
        dup = false;
        qos = qos;
        retain = retain;
        topic = topic;
        packet_id = id;
        payload = payload;
        raw = [];
      }),
    ))

-- Delivery changes the counter and the QoS manager alone.
pub record Keeps (b b' : Broker) : Type 0 where
  pub sessions_kept : b'.sessions ≡ b.sessions
  pub subscriptions_kept : b'.subscriptions ≡ b.subscriptions
  pub retained_kept : b'.retained_msgs ≡ b.retained_msgs

pub Keeps-refl : (b : Broker) → Keeps b b
Keeps-refl b = record { sessions_kept = refl; subscriptions_kept = refl; retained_kept = refl }

pub Keeps-trans : {b c d : Broker} → Keeps b c → Keeps c d → Keeps b d
Keeps-trans h k = record {
  sessions_kept = k.sessions_kept ∙ h.sessions_kept;
  subscriptions_kept = k.subscriptions_kept ∙ h.subscriptions_kept;
  retained_kept = k.retained_kept ∙ h.retained_kept;
}

pub deliver_message-Keeps :
    (now : ℕ) (session : Session) (topic payload : Bytes) (qos : QosLevel) (retain : Bool)
    (b : Broker)
    → Keeps b (deliver_message now session topic payload qos retain b).1
unfolding deliver_message deliver_to generate_packet_id send_packet
deliver_message-Keeps now session topic payload qos retain b = record {
  sessions_kept = ground arith;
  subscriptions_kept = ground arith;
  retained_kept = ground arith;
}

-- A session without a connection is sent nothing.
pub deliver_message-none :
    (now : ℕ) (session : Session) (topic payload : Bytes) (qos : QosLevel) (retain : Bool)
    (b : Broker)
    → session.conn ≡ none
    → (deliver_message now session topic payload qos retain b).0 ≡ []
unfolding deliver_message
deliver_message-none now session topic payload qos retain b e = ground arith

-- A session with a connection is sent one packet.
pub deliver_message-some :
    (now conn : ℕ) (session : Session) (topic payload : Bytes) (qos : QosLevel) (retain : Bool)
    (b : Broker)
    → session.conn ≡ some conn
    → leb qos 2 ≡ true
    → (w : Write) × IsDelivery conn topic payload qos retain w
      × ((deliver_message now session topic payload qos retain b).0 ≡ w ∷ [])
unfolding deliver_message deliver_to generate_packet_id send_packet
deliver_message-some now conn session topic payload qos retain b e h =
    let id : ℕ = advance b.packet_id_seq % 2 ^ 16 in
    elim (Bool-cases (qos == 0)) [
      | inl z ↦ (_, (none, ground (arith, ==_iff qos 0), refl), ground arith)
      | inr z ↦ (_, (some id, omega arith, refl), ground (arith, ==_iff qos 0))
    ]

-- Nothing is sent for a subscription without a handler, or whose client has no connection.
abbrev pub IsUnreachable : SessionMap → Option Bytes → Type 0
IsUnreachable sessions none = Unit
IsUnreachable sessions (some client_id) = (get_session client_id sessions).0.conn ≡ none

-- One write for each subscription that can be reached, in order, with the lesser QoS.
pub data Deliveries (p : PublishPacket) (sessions : SessionMap)
    : List Subscription → List Write → Type 0 where
  no_more : Deliveries p sessions [] []
  passed_over :
      {s : Subscription} {ss : List Subscription} {ws : List Write}
      → IsUnreachable sessions s.handler
      → Deliveries p sessions ss ws
      → Deliveries p sessions (s ∷ ss) ws
  delivered :
      {s : Subscription} {ss : List Subscription} {w : Write} {ws : List Write} (client_id : Bytes)
      (conn : ℕ)
      → s.handler ≡ some client_id
      → (get_session client_id sessions).0.conn ≡ some conn
      → IsDelivery conn p.topic p.payload (min_qos p.qos s.qos) p.retain w
      → Deliveries p sessions ss ws
      → Deliveries p sessions (s ∷ ss) (w ∷ ws)

min_qos_bound : (a b : QosLevel) → leb a 2 ≡ true → leb (min_qos a b) 2 ≡ true
unfolding min_qos
min_qos_bound a b h = ground arith

-- What the call of a handler sends.
call_handler-sent :
    (now : ℕ) (handler : Option Bytes) (p : PublishPacket) (qos : QosLevel) (b : Broker)
    → leb qos 2 ≡ true
    → (IsUnreachable b.sessions handler × ((call_handler now handler p qos b).0 ≡ []))
      ⊎ ((client_id : Bytes) × (conn : ℕ) × (w : Write) × (handler ≡ some client_id)
          × ((get_session client_id b.sessions).0.conn ≡ some conn)
          × IsDelivery conn p.topic p.payload qos p.retain w
          × ((call_handler now handler p qos b).0 ≡ w ∷ []))
unfolding call_handler run_handler
call_handler-sent now none p qos b h = inl (tt, refl)
call_handler-sent now (some c) p qos b h =
    let session = (get_session c b.sessions).0 in
    elim (Option-cases session.conn) [
      | inl e ↦ inl (e, deliver_message-none now session p.topic p.payload qos p.retain b e)
      | inr (k, e) ↦
          let (w, d, q) = deliver_message-some now k session p.topic p.payload qos p.retain b e h in
          inr (c, k, w, refl, e, d, q)
    ]

call_handler-Keeps :
    (now : ℕ) (handler : Option Bytes) (p : PublishPacket) (qos : QosLevel) (b : Broker)
    → Keeps b (call_handler now handler p qos b).1
unfolding call_handler run_handler
call_handler-Keeps now none p qos b = Keeps-refl b
call_handler-Keeps now (some c) p qos b =
    deliver_message-Keeps now _ p.topic p.payload qos p.retain b

pub publish_to_all-Keeps :
    (now : ℕ) (p : PublishPacket) (ss : List Subscription) (b : Broker)
    → Keeps b (publish_to_all now p ss b).1
unfolding publish_to_all
publish_to_all-Keeps now p [] b = Keeps-refl b
publish_to_all-Keeps now p (s ∷ ss) b =
    Keeps-trans (call_handler-Keeps now s.handler p (min_qos p.qos s.qos) b)
      (publish_to_all-Keeps now p ss _)

publish_to_all-Deliveries :
    (now : ℕ) (p : PublishPacket) (ss : List Subscription) (b : Broker) (sessions : SessionMap)
    → leb p.qos 2 ≡ true
    → b.sessions ≡ sessions
    → Deliveries p sessions ss (publish_to_all now p ss b).0
unfolding publish_to_all
publish_to_all-Deliveries now p [] b sessions h e = no_more
publish_to_all-Deliveries now p (s ∷ ss) b sessions h e =
    let next = (call_handler now s.handler p (min_qos p.qos s.qos) b).1 in
    let rest : Deliveries p sessions ss (publish_to_all now p ss next).0 =
      publish_to_all-Deliveries now p ss next sessions h
        ((call_handler-Keeps now s.handler p (min_qos p.qos s.qos) b).sessions_kept ∙ e) in
    elim (call_handler-sent now s.handler p (min_qos p.qos s.qos) b (min_qos_bound p.qos s.qos h)) [
      | inl (u, q) ↦ rw q (passed_over (rw (sym e) u) rest)
      | inr (c, k, w, he, ce, d, q) ↦ rw q (delivered c k he (rw (sym e) ce) d rest)
    ]

keep_retained_lem :
    (p : PublishPacket) (b : Broker)
    → ((keep_retained p b).subscriptions ≡ b.subscriptions)
      × ((keep_retained p b).sessions ≡ b.sessions)
unfolding keep_retained handle_retained_message
keep_retained_lem p b = (ground arith, ground arith)

-- A message on a valid topic, with a QoS of at most 2, is published without an error: of the
-- subscriptions that match the topic each one that can be reached is sent one packet with the
-- lesser QoS, in order, and nothing else is sent.
pub handle_publish-Deliveries :
    (now : ℕ) (p : PublishPacket) (b : Broker)
    → is_valid_topic_name p.topic ≡ true
    → leb p.qos 2 ≡ true
    → let (error, (sent, b')) = handle_publish now (some p) b in
      (error ≡ none) × Deliveries p b.sessions (match_topic p.topic b.subscriptions) sent
unfolding handle_publish keep_retained
handle_publish-Deliveries now p b valid h =
    let (subscriptions, sessions) = keep_retained_lem p b in
    rw (valid, subscriptions)
      (refl, publish_to_all-Deliveries now p _ (keep_retained p b) b.sessions h sessions)
