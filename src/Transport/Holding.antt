-- ===== src/Transport/Holding.antt =====
-- internal/transport/tcp.go, `case pkt.PUBLISH` with QoS 2: what a PUBLISH leaves to be released.
use goqtt.Transport.Answering.{
  handle_frame_session, lookup-insert_own, handle_event_goes_on, get_session_same,
}
use goqtt.Transport.Publishing.{received_packet, parse-encode_publish}
use goqtt.Transport.Frame.{packet}
use goqtt.Transport.Rounds.{HasSession, AreKeyed}
use goqtt.Broker.Qos.Delivery.{publish-message, pubrec_of}
use goqtt.Broker.Qos.History.{or_else}
use goqtt.Dict.{bytes_key, nat_key, lookup}
use goqtt.Transport.Invariant.{IsNetwork}
use goqtt.Packet.Publish.Safe.{IsValid}
use goqtt.Dict.Nested.{find_entry}
use goqtt.Broker.State.{Broker}
use goqtt.Broker.Qos.{received_message, ReceivedQos2}
use goqtt.Packet.Publish.{encode_publish, PublishPacket}
use goqtt.Packet.Acks.{encode_pubrec}
use goqtt.Transport.Server.{goes_on, Step, Server, Connection}
use goqtt.Broker.Session.{get_session, Session, Write}
use goqtt.Transport.Handler.{with_broker, World}
use goqtt.Transport.Network.{received, Network, handle_event}
use goqtt.Transport.Dispatch.{
  handle_session_packet, given_packet, handle_frame, handle_publish_packet,
}
use goqtt.Broker.Handlers.{broker_incoming_publish}
use goqtt.Base.{ap, ◌∙◌, true, false, ◌≡◌, Option, Bool, ℕ, refl, some, ◌∷◌, [], Bytes}

-- The PUBREC for the identifier.
abbrev pub pubrec_write : ℕ → ℕ → Write
pubrec_write conn packet_id = (conn, encode_pubrec (record { packet_id = packet_id }))

-- A message of QoS 2 with the identifier, which MQTT allows.
pub record IsExactlyOnce (i : ℕ) (p : PublishPacket) : Type 0 where
  pub valid : IsValid p
  pub level : p.qos ≡ 2
  pub own_id : p.packet_id ≡ some i

-- The round that a PUBLISH with QoS 2 of the client comes to.
abbrev receive_step : World → Connection → Server → ℕ → PublishPacket → Bytes → Step
receive_step w c srv i p client_id =
    let (pubrec, b) =
      broker_incoming_publish w.now client_id i p.topic p.payload p.retain srv.broker in
    (goes_on c, (c.conn, encode_pubrec pubrec) ∷ [], with_broker b srv)

handle_publish_packet_exactly :
    (w : World) (c : Connection) (session : Session) (srv : Server) (p : PublishPacket) (i : ℕ)
    → p.qos ≡ 2
    → p.packet_id ≡ some i
    → w.write_fails ≡ false
    → handle_publish_packet w c session srv p ≡ receive_step w c srv i p session.client_id
unfolding handle_publish_packet given_packet
handle_publish_packet_exactly w c session srv p i q e written = rw (q, e, written) refl

-- A frame that holds an encoded message of QoS 2, for a handler with a session.
handle_frame_exactly :
    (w : World) (c : Connection) (srv : Server) (p : PublishPacket) (i : ℕ) (rest : Bytes)
    → IsExactlyOnce i p
    → w.write_fails ≡ false
    → c.session_established ≡ true
    → AreKeyed srv.broker.sessions
    → HasSession c.client_id srv.broker.sessions
    → handle_frame w c (packet (encode_publish p) rest) srv ≡ receive_step w c srv i p c.client_id
unfolding handle_session_packet given_packet
handle_frame_exactly w c srv p i rest v written established keyed session =
    let own = get_session_same srv.broker.sessions c.client_id keyed session in
    let current = (get_session c.client_id srv.broker.sessions).0 in
    let parses = parse-encode_publish w.new_uuid p v.valid in
    handle_frame_session w c srv _ rest _ parses established session
    ∙ handle_publish_packet_exactly w c current srv (received_packet p) i v.level v.own_id written
    ∙ ap (receive_step w c srv i p) own

-- The first message with the identifier is held, and all that the broker delivers by is as it was.
broker_incoming_publish_lem :
    (now : ℕ) (c : Bytes) (i : ℕ) (topic payload : Bytes) (retain : Bool) (b : Broker)
    → let r = broker_incoming_publish now c i topic payload retain b in
      (r.0 ≡ record { packet_id = i })
      × (find_entry c i r.1.qos_manager.qos2_received
          ≡ some (
              or_else
                (find_entry c i b.qos_manager.qos2_received)
                (received_message c i topic payload retain now)))
      × (r.1.sessions ≡ b.sessions)
      × (r.1.subscriptions ≡ b.subscriptions)
unfolding broker_incoming_publish
broker_incoming_publish_lem now c i topic payload retain b = (
  pubrec_of now c i topic payload retain b.qos_manager,
  publish-message now c i topic payload retain b.qos_manager,
  refl,
  refl,
)

-- The message that is held for the client and the identifier in a state.
abbrev pub held : Bytes → ℕ → Network → Option ReceivedQos2
held client_id i n = find_entry client_id i n.server.broker.qos_manager.qos2_received

-- What the PUBLISH of a message of QoS 2 leaves behind.
pub record IsHeld (conn : ℕ) (c : Connection) (i : ℕ) (m : ReceivedQos2) (n n' : Network)
    : Type 0 where
  pub held_message : held c.client_id i n' ≡ some m
  pub same_sessions : n'.server.broker.sessions ≡ n.server.broker.sessions
  pub same_tree : n'.server.broker.subscriptions ≡ n.server.broker.subscriptions
  pub runs : lookup conn n'.handlers ≡ some c

pub handle_event_exactly :
    (w : World) (conn : ℕ) (c : Connection) (n : Network) (p : PublishPacket) (i : ℕ) (rest : Bytes)
    → IsNetwork n
    → lookup conn n.handlers ≡ some c
    → c.session_established ≡ true
    → IsExactlyOnce i p
    → w.write_fails ≡ false
    → let (sent, n') = handle_event (received w conn (packet (encode_publish p) rest)) n in
      (sent ≡ pubrec_write conn i ∷ [])
      × IsHeld conn c i
          (or_else
            (held c.client_id i n)
            (received_message c.client_id i p.topic p.payload p.retain w.now))
          n
          n'
handle_event_exactly w conn c n p i rest h e established v written =
    let handler = h.handled conn c e in
    let b = n.server.broker in
    let (pubrec, message, sessions, tree) =
      broker_incoming_publish_lem w.now c.client_id i p.topic p.payload p.retain b in
    let frame = packet (encode_publish p) rest in
    let step =
      handle_frame_exactly w c n.server p i rest v written established h.keyed
        (handler.present established) in
    rw (handle_event_goes_on w conn c n frame e step) (
      rw (handler.same_conn, pubrec) refl,
      record {
        held_message = message;
        same_sessions = sessions;
        same_tree = tree;
        runs = lookup-insert_own conn c n.handlers;
      },
    )
