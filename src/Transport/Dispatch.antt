-- ===== src/Transport/Dispatch.antt =====
-- internal/transport/tcp.go: the packets of an established session, and the loop of
-- `handleConnection` over the frames.
use goqtt.Base.{ℕ, false, [], Option, none, some, if◌then◌else◌, ◌==◌}
use goqtt.Broker.Handlers.{
  handle_publish, handle_subscribe, handle_unsubscribe, handle_client_disconnect, broker_pub_ack,
  broker_pub_rec, broker_pub_comp, broker_incoming_publish, broker_incoming_pub_rel,
}
use goqtt.Packet.Acks.{
  PubrelPacket, new_puback, encode_puback, encode_pubrec, encode_pubrel, encode_pubcomp,
}
use goqtt.Broker.State.{Broker}
use goqtt.Broker.Session.{Session, get_session}
use goqtt.Er.{Result, ok, err, panic, stuck}
use goqtt.Packet.Connack.{new_connack, unacceptable_protocol_version}
use goqtt.Packet.Parser.{ParsedPacket, parse}
use goqtt.Packet.Ping.{create_pingresp, encode_pingresp}
use goqtt.Packet.Publish.{PublishPacket}
use goqtt.Packet.Subscribe.{SubscribePacket}
use goqtt.Packet.Unsubscribe.{UnsubscribePacket}
use goqtt.Packet.Suback.{encode_suback}
use goqtt.Packet.Types.{
  publish_type, puback_type, pubrec_type, pubrel_type, pubcomp_type, subscribe_type, suback_type,
  unsubscribe_type, unsuback_type, pingreq_type, disconnect_type, qos_at_most_once,
  qos_at_least_once, qos_exactly_once,
}
use goqtt.Packet.Unsuback.{encode_unsuback}
use goqtt.Transport.Frame.{Frame, closed, oversized, packet}
use goqtt.Transport.Handler.{
  World, reply, with_broker, send_and_close, return_code_of, handle_first,
}
use goqtt.Transport.Server.{Server, Connection, goes_on, returns, Step}

-- The packets of a session, for the connection and the broker's session.
module _ (w : World) (c : Connection) (session : Session) (srv : Server) where
  -- A nil pointer where a packet or its identifier is asked for ends the handler.
  unfoldable pub given_packet : {A : Type 0} → Option A → (A → Step) → Step
  given_packet none handle = (returns, [], srv)
  given_packet (some a) handle = handle a

  -- `case pkt.PUBLISH`
  unfoldable pub handle_publish_packet : PublishPacket → Step
  handle_publish_packet p =
      let (_, (sent, b)) = handle_publish w.now (some p) srv.broker in
      if p.qos == qos_at_most_once
      then (goes_on c, sent, with_broker b srv)
      else if p.qos == qos_at_least_once
      then given_packet (new_puback p)
          (λ puback. reply w c (encode_puback puback) sent (with_broker b srv))
      else if p.qos == qos_exactly_once
      then given_packet p.packet_id (λ packet_id.
        let (pubrec, b') =
          broker_incoming_publish w.now session.client_id packet_id p.topic p.payload p.retain
            srv.broker in
        reply w c (encode_pubrec pubrec) [] (with_broker b' srv))
      else (goes_on c, [], srv)

  -- `if pubrel != nil { … }`
  unfoldable pub reply_pubrel : Option PubrelPacket → Broker → Step
  reply_pubrel none b = (goes_on c, [], with_broker b srv)
  reply_pubrel (some pubrel) b = reply w c (encode_pubrel pubrel) [] (with_broker b srv)

  -- `case pkt.PUBREC`
  unfoldable pub handle_pub_rec_packet : ℕ → Step
  handle_pub_rec_packet packet_id =
      let (pubrel, b) = broker_pub_rec w.now session.client_id packet_id srv.broker in
      reply_pubrel pubrel b

  -- `case pkt.PUBREL`; an error is only logged.
  unfoldable pub handle_pub_rel_packet : ℕ → Step
  handle_pub_rel_packet packet_id =
      let ((_, pubcomp), (sent, b)) =
        broker_incoming_pub_rel w.now session.client_id packet_id srv.broker in
      reply w c (encode_pubcomp pubcomp) sent (with_broker b srv)

  -- `case pkt.SUBSCRIBE`
  unfoldable pub handle_subscribe_packet : SubscribePacket → Step
  handle_subscribe_packet p =
      let (suback, (sent, b)) = handle_subscribe w.now (some session) (some p) srv.broker in
      given_packet suback (λ ack. reply w c (encode_suback ack) sent (with_broker b srv))

  -- `case pkt.UNSUBSCRIBE`
  unfoldable pub handle_unsubscribe_packet : UnsubscribePacket → Step
  handle_unsubscribe_packet p =
      let (unsuback, b) = handle_unsubscribe (some session) (some p) srv.broker in
      given_packet unsuback (λ ack. reply w c (encode_unsuback ack) [] (with_broker b srv))

  -- The cases of the switch from SUBSCRIBE on.
  unfoldable pub handle_request_packet : ParsedPacket → Step
  handle_request_packet p =
      let t = p.packet_type in
      if t == subscribe_type
      then given_packet p.subscribe handle_subscribe_packet
      else if t == unsubscribe_type
      then given_packet p.unsubscribe handle_unsubscribe_packet
      else if t == pingreq_type
      then reply w c (encode_pingresp create_pingresp) [] srv
      else if t == suback_type
      then given_packet p.suback (λ a. (goes_on c, [], srv))
      else if t == unsuback_type
      then given_packet p.unsuback (λ a. (goes_on c, [], srv))
      else if t == disconnect_type
      then (returns, [], with_broker (handle_client_disconnect session.client_id srv.broker) srv)
      else send_and_close c.conn (new_connack false unacceptable_protocol_version) srv

  -- `switch packet.Type`
  unfoldable pub handle_session_packet : ParsedPacket → Step
  unfolding handle_request_packet
  handle_session_packet p =
      let t = p.packet_type in
      if t == publish_type
      then given_packet p.publish handle_publish_packet
      else if t == puback_type
      then given_packet p.puback (λ a. (
        goes_on c,
        [],
        with_broker (broker_pub_ack session.client_id a.packet_id srv.broker).1 srv,
      ))
      else if t == pubrec_type
      then given_packet p.pubrec (λ a. handle_pub_rec_packet a.packet_id)
      else if t == pubrel_type
      then given_packet p.pubrel (λ a. handle_pub_rel_packet a.packet_id)
      else if t == pubcomp_type
      then given_packet p.pubcomp (λ a. (
        goes_on c,
        [],
        with_broker (broker_pub_comp session.client_id a.packet_id srv.broker).1 srv,
      ))
      else handle_request_packet p

-- A packet behind the first one; without a session the handler returns.
unfoldable pub handle_later : World → Connection → ParsedPacket → Server → Step
handle_later w c p srv =
    let (session, exists) = get_session c.client_id srv.broker.sessions in
    if exists then handle_session_packet w c session srv p else (returns, [], srv)

unfoldable pub handle_packet : World → Connection → ParsedPacket → Server → Step
handle_packet w c p srv =
    if c.session_established then handle_later w c p srv else handle_first w c p srv

-- What `Parse` makes of the packet. A panic is recovered, and ends the handler.
unfoldable pub handle_parsed : World → Connection → Result ParsedPacket → Server → Step
handle_parsed w c (ok p) srv = handle_packet w c p srv
handle_parsed w c (err e) srv =
    send_and_close c.conn (new_connack false (return_code_of e.message)) srv
handle_parsed w c panic srv = (returns, [], srv)
handle_parsed w c stuck srv = (returns, [], srv)

-- One round of the loop over the frames.
unfoldable pub handle_frame : World → Connection → Frame → Server → Step
handle_frame w c closed srv = (returns, [], srv)
handle_frame w c oversized srv =
    send_and_close c.conn (new_connack false unacceptable_protocol_version) srv
handle_frame w c (packet raw rest) srv = handle_parsed w c (parse w.new_uuid raw) srv
