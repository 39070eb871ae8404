-- ===== src/Transport/Releasing.antt =====
-- internal/transport/tcp.go, `case pkt.PUBREL`: the release of a message of QoS 2.
use goqtt.Transport.Answering.{
  lookup-insert_own, handle_frame_session, handle_event_goes_on, get_session_same,
}
use goqtt.Packet.Parser.RoundTrip.{parse-encode_acks}
use goqtt.Broker.Releasing.{broker_incoming_pub_rel-IsReleased, IsReleased}
use goqtt.Dict.Nested.{find_entry}
use goqtt.Broker.Handlers.{broker_incoming_pub_rel}
use goqtt.Transport.Invariant.{IsNetwork}
use goqtt.Transport.Rounds.{HasSession, AreKeyed}
use goqtt.Packet.Acks.{encode_pubrel, encode_pubcomp}
use goqtt.Transport.Handler.{with_broker, World}
use goqtt.Transport.Dispatch.{
  given_packet, handle_session_packet, handle_pub_rel_packet, handle_frame,
}
use goqtt.Broker.Session.{get_session, Session, Write}
use goqtt.Base.{ap, ◌∙◌, List, ◌++◌, IsU16, Bytes, ℕ, ◌≡◌, refl, true, false, none, some, ◌∷◌, []}
use goqtt.Dict.{lookup, bytes_key, nat_key}
use goqtt.Transport.Server.{Step, Server, Connection, goes_on}
use goqtt.Transport.Network.{Network, handle_event, received}
use goqtt.Transport.Frame.{packet}

-- The PUBCOMP for the identifier.
abbrev pub pubcomp_write : ℕ → ℕ → Write
pubcomp_write conn packet_id = (conn, encode_pubcomp (record { packet_id = packet_id }))

-- The round that a PUBREL of the client comes to.
abbrev release_step : World → Connection → Server → ℕ → Bytes → Step
release_step w c srv i client_id =
    let r = broker_incoming_pub_rel w.now client_id i srv.broker in
    (goes_on c, r.1.0 ++ (c.conn, encode_pubcomp r.0.1) ∷ [], with_broker r.1.1 srv)

handle_pub_rel_packet_lem :
    (w : World) (c : Connection) (session : Session) (srv : Server) (i : ℕ)
    → w.write_fails ≡ false
    → handle_pub_rel_packet w c session srv i ≡ release_step w c srv i session.client_id
unfolding handle_pub_rel_packet
handle_pub_rel_packet_lem w c session srv i written = rw written refl

-- A frame that holds an encoded PUBREL, for a handler with a session.
handle_frame_release :
    (w : World) (c : Connection) (srv : Server) (i : ℕ) (rest : Bytes)
    → IsU16 i
    → w.write_fails ≡ false
    → c.session_established ≡ true
    → AreKeyed srv.broker.sessions
    → HasSession c.client_id srv.broker.sessions
    → handle_frame w c (packet (encode_pubrel (record { packet_id = i })) rest) srv
      ≡ release_step w c srv i c.client_id
unfolding handle_session_packet given_packet
handle_frame_release w c srv i rest small written established keyed session =
    let own = get_session_same srv.broker.sessions c.client_id keyed session in
    let current = (get_session c.client_id srv.broker.sessions).0 in
    let parses = (parse-encode_acks w.new_uuid i small).2 in
    handle_frame_session w c srv _ rest _ parses established session
    ∙ handle_pub_rel_packet_lem w c current srv i written
    ∙ ap (release_step w c srv i) own

-- In a state with the invariant, where a connection with a session sends an encoded PUBREL, and the
-- write of the answer does not fail: where the server holds a message of QoS 2 for that client and
-- identifier, with a valid topic, it sends one packet for each subscription that matches the topic
-- and can be reached, and otherwise none; then the PUBCOMP with the identifier. After that it holds
-- no such message, and the handler goes on.
pub handle_event_release :
    (w : World) (conn : ℕ) (c : Connection) (n : Network) (i : ℕ) (rest : Bytes)
    → IsNetwork n
    → lookup conn n.handlers ≡ some c
    → c.session_established ≡ true
    → IsU16 i
    → w.write_fails ≡ false
    → let frame = packet (encode_pubrel (record { packet_id = i })) rest in
      let (sent, n') = handle_event (received w conn frame) n in
      let b = n.server.broker in
      let held = find_entry c.client_id i b.qos_manager.qos2_received in
      ((released : List Write) × IsReleased i held b.sessions b.subscriptions released
        × (sent ≡ released ++ pubcomp_write conn i ∷ []))
      × (find_entry c.client_id i n'.server.broker.qos_manager.qos2_received ≡ none)
      × (lookup conn n'.handlers ≡ some c)
handle_event_release w conn c n i rest h e established small written =
    let handler = h.handled conn c e in
    let b = n.server.broker in
    let r = broker_incoming_pub_rel w.now c.client_id i b in
    let (released, pubcomp, empty) = broker_incoming_pub_rel-IsReleased w.now c.client_id i b in
    let frame = packet (encode_pubrel (record { packet_id = i })) rest in
    let step =
      handle_frame_release w c n.server i rest small written established h.keyed
        (handler.present established) in
    let answer : r.1.0 ++ (c.conn, encode_pubcomp r.0.1) ∷ [] ≡ r.1.0 ++ pubcomp_write conn i ∷ [] =
      rw (handler.same_conn, pubcomp) refl in
    rw (handle_event_goes_on w conn c n frame e step)
      ((_, released, answer), empty, lookup-insert_own conn c n.handlers)
