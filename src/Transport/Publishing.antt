-- ===== src/Transport/Publishing.antt =====
-- internal/transport/tcp.go, `case pkt.PUBLISH`: a message from the bytes of one connection to those
-- of the others.
use goqtt.Transport.Answering.{lookup-insert_own, handle_event_goes_on, handle_frame_session}
use goqtt.Encoding.Topic.{validate_topic_name}
use goqtt.Broker.Tree.Matches.{is_ok_iff}
use goqtt.Broker.Fanout.{handle_publish-Deliveries, Deliveries}
use goqtt.Transport.Invariant.{IsNetwork}
use goqtt.Broker.Tree.{match_topic, is_valid_topic_name}
use goqtt.Transport.Rounds.{HasSession}
use goqtt.Broker.Handlers.{handle_publish}
use goqtt.Packet.Publish.RoundTrip.{
  body, parse_publish-encode_publish, first_byte_fields, field, encode_publish-wire,
}
use goqtt.Packet.Acks.{new_puback, encode_puback}
use goqtt.Transport.Dispatch.{
  handle_session_packet, handle_frame, given_packet, handle_publish_packet,
}
use goqtt.Packet.Types.{publish_type}
use goqtt.Slice.{index}
use goqtt.Broker.Session.{Write, Session}
use goqtt.Packet.Parser.{blank_packet, parse_body, parse}
use goqtt.Transport.Handler.{with_broker, World}
use goqtt.Packet.Publish.{publish_first_byte, parse_publish, encode_publish, PublishPacket}
use mathlib.Core.Path.{subst}
use goqtt.Base.{
  ap, ◌∙◌, inr, append-nil, sym, inl, arith, Option-cases, ◌++◌, ◌≤◌, bit_and, List, Option, ℕ,
  Bytes, ◌≡◌, refl, true, false, none, some, ◌∷◌, [],
}
use goqtt.Dict.{lookup, bytes_key, nat_key}
use goqtt.Transport.Server.{Server, Connection, goes_on}
use goqtt.Packet.Publish.Safe.{IsValid, IdFits}
use goqtt.Transport.Network.{Network, handle_event, received}
use goqtt.Transport.Frame.{packet}
use goqtt.Er.{fail_if-step, ok}

-- The packet as it is parsed, with its own bytes.
abbrev pub received_packet : PublishPacket → PublishPacket
received_packet p = record p { raw = encode_publish p }

parse_of_publish :
    (new_uuid rest : Bytes) (b0 : ℕ) (p : PublishPacket)
    → bit_and b0 0xF0 ≡ publish_type
    → parse_publish (b0 ∷ rest) ≡ ok p
    → parse new_uuid (b0 ∷ rest)
      ≡ ok (record (blank_packet publish_type (b0 ∷ rest)) { publish = some p })
unfolding parse parse_body index
parse_of_publish new_uuid rest b0 p t e = fail_if-step _ _ _ _ (ground arith) λ _. rw (t, e) refl

pub parse-encode_publish :
    (new_uuid : Bytes) (p : PublishPacket)
    → IsValid p
    → parse new_uuid (encode_publish p)
      ≡ ok (record (blank_packet publish_type (encode_publish p)) {
        publish = some (received_packet p);
      })
parse-encode_publish new_uuid p v =
    let b0 = publish_first_byte p.dup p.qos p.retain in
    let back : Bytes → Type 0 = λ raw.
      parse_publish raw ≡ ok (received_packet p)
      → parse new_uuid raw
        ≡ ok (record (blank_packet publish_type raw) { publish = some (received_packet p) }) in
    subst back (sym (encode_publish-wire p v))
      (parse_of_publish new_uuid (field p v ++ body p v) b0 (received_packet p)
        (first_byte_fields p.dup p.qos p.retain v.qos_le).0)
      (parse_publish-encode_publish p v)

-- The PUBACK of a message that has an identifier.
abbrev pub pubacks : ℕ → Option ℕ → List Write
pubacks conn none = []
pubacks conn (some packet_id) = (conn, encode_puback (record { packet_id = packet_id })) ∷ []

module _ (w : World) (c : Connection) (session : Session) (srv : Server) (p : PublishPacket)
    (written : w.write_fails ≡ false) where
  handle_publish_packet_lem :
      p.qos ≤ 1
      → IdFits p.qos p.packet_id
      → let (_, (sent, b)) = handle_publish w.now (some p) srv.broker in
        handle_publish_packet w c session srv p
        ≡ (goes_on c, sent ++ pubacks c.conn p.packet_id, with_broker b srv)
  unfolding handle_publish_packet new_puback given_packet
  handle_publish_packet_lem q f = elim (Option-cases p.packet_id) [
    | inl e ↦ let level : p.qos ≡ 0 = subst (IdFits p.qos) e f in rw (level, e, append-nil) refl
    | inr (i, e) ↦
        let fits : IdFits p.qos (some i) = subst (IdFits p.qos) e f in
        let level : p.qos ≡ 1 = omega (arith, fits.0, q) in rw (level, e, written) refl
  ]

-- A frame that holds an encoded message, for a handler with a session.
pub handle_frame_publish :
    (w : World) (c : Connection) (srv : Server) (p : PublishPacket) (rest : Bytes)
    → IsValid p
    → p.qos ≤ 1
    → w.write_fails ≡ false
    → c.session_established ≡ true
    → HasSession c.client_id srv.broker.sessions
    → let (_, (sent, b)) = handle_publish w.now (some (received_packet p)) srv.broker in
      handle_frame w c (packet (encode_publish p) rest) srv
      ≡ (goes_on c, sent ++ pubacks c.conn p.packet_id, with_broker b srv)
unfolding handle_session_packet given_packet
handle_frame_publish w c srv p rest v q written established session =
    let parses = parse-encode_publish w.new_uuid p v in
    handle_frame_session w c srv (encode_publish p) rest _ parses established session
    ∙ handle_publish_packet_lem w c _ srv (received_packet p) written q v.id_fits

-- In a state with the invariant, where a connection with a session sends an encoded PUBLISH of QoS
-- 0 or 1 that MQTT allows, and the write of the answer does not fail: what the server sends is one
-- packet for each subscription that matches the topic and can be reached, with the lesser QoS, in
-- order, and then, for QoS 1, the PUBACK with the message's identifier; and the handler goes on.
pub handle_event_publish :
    (w : World) (conn : ℕ) (c : Connection) (n : Network) (p : PublishPacket) (rest : Bytes)
    → IsNetwork n
    → lookup conn n.handlers ≡ some c
    → c.session_established ≡ true
    → IsValid p
    → p.qos ≤ 1
    → w.write_fails ≡ false
    → let (sent, n') = handle_event (received w conn (packet (encode_publish p) rest)) n in
      let b = n.server.broker in
      ((delivered : List Write) × Deliveries
          (received_packet p)
          b.sessions
          (match_topic p.topic b.subscriptions)
          delivered
        × (sent ≡ delivered ++ pubacks conn p.packet_id))
      × (lookup conn n'.handlers ≡ some c)
unfolding is_valid_topic_name
handle_event_publish w conn c n p rest h e established v q written =
    let handler = h.handled conn c e in
    let b = n.server.broker in
    let r = handle_publish w.now (some (received_packet p)) b in
    let valid : is_valid_topic_name p.topic ≡ true =
      (is_ok_iff (validate_topic_name p.topic)).1 v.topic_valid in
    let fanout = handle_publish-Deliveries w.now (received_packet p) b valid (ground arith) in
    let frame = packet (encode_publish p) rest in
    let step =
      handle_frame_publish w c n.server p rest v q written established
        (handler.present established) in
    let own = ap (λ k. r.1.0 ++ pubacks k p.packet_id) handler.same_conn in
    rw (handle_event_goes_on w conn c n frame e step)
      ((_, fanout.1, own), lookup-insert_own conn c n.handlers)
