-- ===== src/Transport/Subscribing.antt =====
-- internal/transport/tcp.go, `case pkt.SUBSCRIBE`: the answer to a SUBSCRIBE packet, and what a
-- message that is published after it sends to the subscriber.
use goqtt.Transport.Answering.{get_session_found, handle_event_goes_on, handle_frame_session}
use goqtt.Broker.Granting.Retained.{subscribe_filters-RetainedFor, RetainedFor}
use goqtt.Broker.Granting.{
  subscribe_filters-Rounds, changes_of, apply_changes, expected_code, AreQos,
}
use goqtt.Transport.Invariant.{IsNetwork}
use goqtt.Packet.Suback.{SubackPacket, encode_suback}
use goqtt.Packet.Types.{subscribe_type}
use goqtt.Broker.Handlers.{subscribe_filters, handle_subscribe}
use goqtt.Packet.Parser.{parse, ParsedPacket}
use goqtt.Broker.Session.{Write, get_session, Session}
use goqtt.Packet.Subscribe.{SubscribePacket}
use goqtt.Transport.Handler.{with_broker, World}
use goqtt.Transport.Dispatch.{
  handle_frame, handle_subscribe_packet, given_packet, handle_session_packet,
}
use goqtt.Base.{List, map, ap, ◌∙◌, ℕ, ◌++◌, Bytes, ◌≡◌, refl, true, false, some, ◌∷◌, []}
use goqtt.Dict.{insert, lookup, bytes_key, nat_key}
use goqtt.Transport.Server.{Step, Server, Connection, goes_on}
use goqtt.Transport.Network.{Network, handle_event, received}
use goqtt.Transport.Frame.{packet}
use goqtt.Er.{ok}

-- `Parse` makes a SUBSCRIBE packet of the buffer.
pub record ParsesTo (new_uuid raw : Bytes) (p : SubscribePacket) : Type 0 where
  pub parsed : ParsedPacket
  pub parses : parse new_uuid raw ≡ ok parsed
  pub typed : parsed.packet_type ≡ subscribe_type
  pub given : parsed.subscribe ≡ some p

-- The round that a SUBSCRIBE of the session comes to.
abbrev subscribe_step : World → Connection → Session → Server → SubscribePacket → Step
subscribe_step w c session srv p =
    let (codes, (sent, b)) = subscribe_filters w.now session p.filters srv.broker in
    (
      goes_on c,
      sent
          ++ (c.conn, encode_suback (record { packet_id = p.packet_id; return_codes = codes }))
            ∷ [],
      with_broker b srv,
    )

handle_session_packet_subscribe :
    (w : World) (c : Connection) (session : Session) (srv : Server) (parsed : ParsedPacket)
    (p : SubscribePacket)
    → parsed.packet_type ≡ subscribe_type
    → parsed.subscribe ≡ some p
    → w.write_fails ≡ false
    → handle_session_packet w c session srv parsed ≡ subscribe_step w c session srv p
unfolding handle_session_packet given_packet handle_subscribe_packet handle_subscribe
handle_session_packet_subscribe w c session srv parsed p t e written = rw (t, e, written) refl

handle_frame_subscribe :
    (w : World) (c : Connection) (session : Session) (srv : Server) (raw rest : Bytes)
    (p : SubscribePacket)
    → ParsesTo w.new_uuid raw p
    → w.write_fails ≡ false
    → c.session_established ≡ true
    → lookup c.client_id srv.broker.sessions ≡ some session
    → handle_frame w c (packet raw rest) srv ≡ subscribe_step w c session srv p
handle_frame_subscribe w c session srv raw rest p h written established e =
    let current = (get_session c.client_id srv.broker.sessions).0 in
    handle_frame_session w c srv raw rest h.parsed h.parses established (session, e)
    ∙ handle_session_packet_subscribe w c current srv h.parsed p h.typed h.given written
    ∙ ap (λ s. subscribe_step w c s srv p)
        (get_session_found c.client_id srv.broker.sessions session e)

-- In a state with the invariant, where a connection with a session sends a SUBSCRIBE with a QoS of
-- at most 2 for each filter, the session's own connection is open, and the write of the answer does
-- not fail: what the server sends is, for each valid filter in turn, one packet for each retained
-- message that it matches, and then the SUBACK, with the QoS of each filter or 0x80 where it is not
-- valid. It leaves the tree that the calls of `Subscribe` for the filters make, and the sessions as
-- they were; and the handler goes on.
pub handle_event_subscribe :
    (w : World) (conn : ℕ) (c : Connection) (n : Network) (raw rest : Bytes) (p : SubscribePacket)
    (session : Session) (k : ℕ)
    → IsNetwork n
    → lookup conn n.handlers ≡ some c
    → c.session_established ≡ true
    → ParsesTo w.new_uuid raw p
    → AreQos p.filters
    → lookup c.client_id n.server.broker.sessions ≡ some session
    → session.conn ≡ some k
    → w.write_fails ≡ false
    → let (sent, n') = handle_event (received w conn (packet raw rest)) n in
      let b = n.server.broker in
      let suback : SubackPacket = record {
        packet_id = p.packet_id;
        return_codes = map expected_code p.filters;
      } in
      ((retained : List Write) × RetainedFor k b.retained_msgs p.filters retained
        × (sent ≡ retained ++ (conn, encode_suback suback) ∷ []))
      × (n'.server.broker.subscriptions
          ≡ apply_changes (changes_of session p.filters) b.subscriptions)
      × (n'.server.broker.sessions ≡ b.sessions)
      × (n'.handlers ≡ insert conn c n.handlers)
handle_event_subscribe w conn c n raw rest p session k h e established parsed qos stored online
      written =
    let handler = h.handled conn c e in
    let b = n.server.broker in
    let r = subscribe_filters w.now session p.filters b in
    let rounds = subscribe_filters-Rounds w.now session p.filters b in
    let retained = subscribe_filters-RetainedFor w.now k session p.filters b online qos in
    let step =
      handle_frame_subscribe w c session n.server raw rest p parsed written established stored in
    let frame = packet raw rest in
    let answer : r.1.0
          ++ (c.conn, encode_suback (record { packet_id = p.packet_id; return_codes = r.0 })) ∷ []
        ≡ r.1.0
          ++ (
            conn,
            encode_suback
                (record { packet_id = p.packet_id; return_codes = map expected_code p.filters }),
          )
            ∷ [] =
      rw (handler.same_conn, rounds.codes qos) refl in
    rw (handle_event_goes_on w conn c n frame e step)
      ((_, retained, answer), rounds.final_tree, rounds.final_sessions, refl)
