-- ===== src/Transport/Retaining.antt =====
-- internal/transport/tcp.go: a retained message, from the PUBLISH that brings it to a later SUBSCRIBE.
use goqtt.Transport.Answering.{lookup-insert_same, handle_event_goes_on}
use goqtt.Broker.Evolution.Publishing.{handle_publish-Evolves}
use goqtt.Encoding.Topic.{validate_topic_filter, validate_topic_name}
use goqtt.Broker.Tree.Matches.{topic_matches_iff, is_ok_iff}
use goqtt.Broker.Granting.{AreQos}
use goqtt.Transport.Subscribing.{handle_event_subscribe, ParsesTo}
use goqtt.Text.{bytes_eq_iff, bytes_eq}
use goqtt.Transport.Publishing.{handle_frame_publish, received_packet}
use goqtt.Broker.Handlers.{handle_publish}
use goqtt.Transport.Frame.{packet}
use goqtt.Auth.{refused}
use goqtt.Packet.Publish.Safe.{IsValid}
use goqtt.Transport.Invariant.{handle_event-IsNetwork, IsNetwork}
use goqtt.Broker.Retention.{lookup-handle_publish, sent, skipped, RetainedSent, no_more}
use goqtt.Broker.Granting.Retained.{granted, RetainedFor, no_filter, refused}
use goqtt.Packet.Publish.{encode_publish, PublishPacket}
use goqtt.Broker.Fanout.{IsDelivery}
use goqtt.Transport.Server.{Connection}
use goqtt.Broker.Tree.{is_valid_topic_name, is_valid_topic_filter, topic_matches}
use goqtt.Dict.Laws.{same_self, In-append, In}
use goqtt.Transport.Handler.{with_broker, World}
use goqtt.Packet.Types.{QosLevel}
use goqtt.Broker.State.{min_qos, RetainedMessage}
use goqtt.Broker.Session.{Session, Write}
use goqtt.Packet.Subscribe.{SubscribePacket, SubscribeFilter}
use goqtt.Transport.Network.{received, Network, handle_event}
use goqtt.Dict.{insert, Dict, lookup, bytes_key, nat_key}
use mathlib.Core.Bool.{true≢false}
use mathlib.Core.Path.{subst}
use mathlib.Core.Option.{some-injective}
use goqtt.Base.{
  arith, length, ◌<◌, Bool-cases, ◌⊎◌, inl, inr, sym, ap, ◌∙◌, false, ◌≤◌, true, ◌≡◌, inl, inr,
  List, ℕ, refl, some, ◌∷◌, Bytes,
}

-- What a PUBLISH of QoS 0 or 1 does to the state.
pub handle_event_publish_state :
    (w : World) (conn : ℕ) (c : Connection) (n : Network) (p : PublishPacket) (rest : Bytes)
    → IsNetwork n
    → lookup conn n.handlers ≡ some c
    → c.session_established ≡ true
    → IsValid p
    → p.qos ≤ 1
    → w.write_fails ≡ false
    → (handle_event (received w conn (packet (encode_publish p) rest)) n).1 ≡ record n {
      server =
          with_broker
            (handle_publish w.now (some (received_packet p)) n.server.broker).1.1
            n.server;
      handlers = insert conn c n.handlers;
    }
handle_event_publish_state w conn c n p rest h e established v q written =
    let handler = h.handled conn c e in
    let frame = packet (encode_publish p) rest in
    let step =
      handle_frame_publish w c n.server p rest v q written established
        (handler.present established) in
    ap (λ r. r.1) (handle_event_goes_on w conn c n frame e step)

-- A packet with RETAIN set, for the connection.
abbrev pub HasRetained : ℕ → Bytes → Bytes → QosLevel → List Write → Type 0
HasRetained k topic payload qos ws =
    (write : Write) × In write ws × IsDelivery k topic payload qos true write

-- The entry of a key is the first one, or one of the others.
lookup-cases :
    (topic t : Bytes) (r r' : RetainedMessage) (rs : Dict Bytes RetainedMessage)
    → lookup topic ((t, r') ∷ rs) ≡ some r
    → ((t ≡ topic) × (r' ≡ r)) ⊎ (lookup topic rs ≡ some r)
unfolding lookup
lookup-cases topic t r r' rs e = elim (Bool-cases (bytes_eq t topic)) [
  | inl same ↦ inl ((bytes_eq_iff t topic).0 same, some-injective _ _ (sym (rw same refl) ∙ e))
  | inr other ↦ inr (sym (rw other refl) ∙ e)
]

-- A retained message that the filter matches is among those that are sent.
RetainedSent-HasRetained :
    (f : Bytes) (k : ℕ) (q : QosLevel) (topic : Bytes) (r : RetainedMessage)
    {rs : Dict Bytes RetainedMessage} {ws : List Write}
    → topic_matches f topic ≡ true
    → lookup topic rs ≡ some r
    → RetainedSent f k q rs ws
    → HasRetained k topic r.payload (min_qos r.qos q) ws
unfolding lookup
RetainedSent-HasRetained f k q topic r matches found no_more = cc
RetainedSent-HasRetained f k q topic r matches found
      (skipped {topic = t} {r = r'} {rs} differs rest) =
    elim (lookup-cases topic t r r' rs found) [
      | inl same ↦ absurd (true≢false (sym matches ∙ ap (topic_matches f) (sym same.0) ∙ differs))
      | inr later ↦ RetainedSent-HasRetained f k q topic r matches later rest
    ]
RetainedSent-HasRetained f k q topic r matches found
      (sent {topic = t} {r = r'} {rs} {w} agrees d rest) =
    elim (lookup-cases topic t r r' rs found) [
      | inl same ↦ (
        w,
        inl refl,
        subst (λ x. IsDelivery k topic x.payload (min_qos x.qos q) true w) same.1
            (subst (λ x. IsDelivery k x r'.payload (min_qos r'.qos q) true w) same.0 d),
      )
      | inr later ↦
          let (write, m, delivery) = RetainedSent-HasRetained f k q topic r matches later rest in
          (write, inr m, delivery)
    ]

RetainedFor-HasRetained :
    (f : SubscribeFilter) (k : ℕ) (topic : Bytes) (r : RetainedMessage)
    {rs : Dict Bytes RetainedMessage} {fs : List SubscribeFilter} {ws : List Write}
    → topic_matches f.topic topic ≡ true
    → is_valid_topic_filter f.topic ≡ true
    → lookup topic rs ≡ some r
    → In f fs
    → RetainedFor k rs fs ws
    → HasRetained k topic r.payload (min_qos r.qos f.qos) ws
RetainedFor-HasRetained f k topic r matches v found m no_filter = absurd m
RetainedFor-HasRetained f k topic r {rs} matches v found (inl e)
      (granted {f = g} {ws} {more} valid h rest) =
    let (write, m, delivery) =
      RetainedSent-HasRetained f.topic k f.qos topic r matches found
        (subst (λ x. RetainedSent x.topic k x.qos rs ws) (sym e) h) in
    (write, (In-append write ws more).1 (inl m), delivery)
RetainedFor-HasRetained f k topic r matches v found (inr n) (granted {ws} {more} valid h rest) =
    let (write, m, delivery) = RetainedFor-HasRetained f k topic r matches v found n rest in
    (write, (In-append write ws more).1 (inr m), delivery)
RetainedFor-HasRetained f k topic r matches v found (inl e) (refused invalid rest) =
    absurd (true≢false (sym v ∙ ap (λ x. is_valid_topic_filter x.topic) e ∙ invalid))
RetainedFor-HasRetained f k topic r matches v found (inr m) (refused invalid rest) =
    RetainedFor-HasRetained f k topic r matches v found m rest

-- In a state with the invariant: one connection sends an encoded PUBLISH of QoS 0 or 1 that MQTT
-- allows, with RETAIN set and a payload that is not empty, and after it one sends a SUBSCRIBE, with a
-- QoS of at most 2 for each filter, one of which matches the topic, for a client whose session has
-- an open connection; both have a session, and the writes of the answers do not fail. Then a packet
-- with the message and RETAIN set is sent to the subscriber's connection, with the lesser QoS.
pub publish_subscribe :
    (w : World) (conn : ℕ) (c : Connection) (n : Network) (m : PublishPacket) (rest : Bytes)
    (w' : World) (conn' : ℕ) (c' : Connection) (raw rest' : Bytes) (p : SubscribePacket)
    (session : Session) (k : ℕ) (f : SubscribeFilter)
    → IsNetwork n
    → lookup conn n.handlers ≡ some c
    → c.session_established ≡ true
    → IsValid m
    → m.qos ≤ 1
    → m.retain ≡ true
    → 0 < length m.payload
    → w.write_fails ≡ false
    → lookup conn' n.handlers ≡ some c'
    → c'.session_established ≡ true
    → ParsesTo w'.new_uuid raw p
    → AreQos p.filters
    → lookup c'.client_id n.server.broker.sessions ≡ some session
    → session.conn ≡ some k
    → w'.write_fails ≡ false
    → In f p.filters
    → topic_matches f.topic m.topic ≡ true
    → let n' = (handle_event (received w conn (packet (encode_publish m) rest)) n).1 in
      HasRetained k m.topic m.payload
        (min_qos m.qos f.qos)
        (handle_event (received w' conn' (packet raw rest')) n').0
unfolding is_valid_topic_filter is_valid_topic_name
publish_subscribe w conn c n m rest w' conn' c' raw rest' p session k f h e established v q retain
      full written e' established' parsed qos stored online written' asked matches =
    let event = received w conn (packet (encode_publish m) rest) in
    let n' = (handle_event event n).1 in
    let b = n.server.broker in
    let after = handle_event_publish_state w conn c n m rest h e established v q written in
    let valid : is_valid_topic_name m.topic ≡ true =
      (is_ok_iff (validate_topic_name m.topic)).1 v.topic_valid in
    let kept : n'.server.broker.sessions ≡ b.sessions =
      rw after (handle_publish-Evolves w.now (some (received_packet m)) b).sessions_same in
    let runs : lookup conn' n'.handlers ≡ some c' =
      rw after (lookup-insert_same conn conn' c c' n.handlers e e') in
    let r : RetainedMessage = record { topic = m.topic; payload = m.payload; qos = m.qos } in
    let held : lookup m.topic n'.server.broker.retained_msgs ≡ some r = rw after (
      lookup-handle_publish w.now m.topic (received_packet m) b
      ∙ rw (valid, retain, same_self m.topic) (ground (arith, full))) in
    let ((ws, all, answered), _, _, _) =
      handle_event_subscribe w' conn' c' n' raw rest' p session k (handle_event-IsNetwork event h)
        runs established' parsed qos (rw kept stored) online written' in
    let (filter_valid, _, _) = (topic_matches_iff f.topic m.topic).0 matches in
    let (write, there, delivery) =
      RetainedFor-HasRetained f k m.topic r matches
        ((is_ok_iff (validate_topic_filter f.topic)).1 filter_valid) held asked all in
    (write, rw answered ((In-append write ws _).1 (inl there)), delivery)
