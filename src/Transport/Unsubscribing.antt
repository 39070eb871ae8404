-- ===== src/Transport/Unsubscribing.antt =====
-- internal/transport/tcp.go, `case pkt.UNSUBSCRIBE`: the answer to an UNSUBSCRIBE packet.
use goqtt.Transport.Answering.{get_session_found, handle_event_goes_on, handle_frame_session}
use goqtt.Broker.Granting.{handle_unsubscribe_lem}
use goqtt.Text.{bytes_eq}
use goqtt.Broker.Granting.Withdrawing.{find-apply_changes, names_path}
use goqtt.Broker.Tree.Find.{find}
use goqtt.Transport.Frame.{packet}
use goqtt.Dict.{bytes_key, nat_key, insert, lookup}
use goqtt.Packet.Unsuback.{encode_unsuback}
use goqtt.Transport.Invariant.{IsNetwork}
use goqtt.Er.{ok}
use goqtt.Packet.Types.{unsubscribe_type}
use goqtt.Broker.Handlers.{handle_unsubscribe}
use goqtt.Broker.Session.{get_session, Session}
use goqtt.Transport.Server.{goes_on, Step, Server, Connection}
use goqtt.Packet.Parser.{parse, ParsedPacket}
use goqtt.Transport.Dispatch.{
  handle_unsubscribe_packet, given_packet, handle_session_packet, handle_frame,
}
use goqtt.Transport.Network.{received, Network, handle_event}
use goqtt.Packet.Unsubscribe.{UnsubscribePacket}
use goqtt.Transport.Handler.{with_broker, World}
use goqtt.Base.{
  refl, ◌&&◌, ap, if◌then◌else◌, ◌∙◌, List, true, false, ℕ, ◌≡◌, none, some, ◌∷◌, [], Bytes,
}

-- `Parse` makes an UNSUBSCRIBE packet of the buffer.
pub record ParsesAs (new_uuid raw : Bytes) (p : UnsubscribePacket) : Type 0 where
  pub parsed : ParsedPacket
  pub parses : parse new_uuid raw ≡ ok parsed
  pub typed : parsed.packet_type ≡ unsubscribe_type
  pub given : parsed.unsubscribe ≡ some p

-- The round that an UNSUBSCRIBE of the session comes to.
abbrev unsubscribe_step : World → Connection → Session → Server → UnsubscribePacket → Step
unsubscribe_step w c session srv p =
    let b = (handle_unsubscribe (some session) (some p) srv.broker).1 in
    let unsuback = encode_unsuback (record { packet_id = p.packet_id }) in
    (goes_on c, (c.conn, unsuback) ∷ [], with_broker b srv)

handle_session_packet_unsubscribe :
    (w : World) (c : Connection) (session : Session) (srv : Server) (parsed : ParsedPacket)
    (p : UnsubscribePacket)
    → parsed.packet_type ≡ unsubscribe_type
    → parsed.unsubscribe ≡ some p
    → w.write_fails ≡ false
    → handle_session_packet w c session srv parsed ≡ unsubscribe_step w c session srv p
unfolding handle_session_packet given_packet handle_unsubscribe_packet handle_unsubscribe
handle_session_packet_unsubscribe w c session srv parsed p t e written = rw (t, e, written) refl

handle_frame_unsubscribe :
    (w : World) (c : Connection) (session : Session) (srv : Server) (raw rest : Bytes)
    (p : UnsubscribePacket)
    → ParsesAs w.new_uuid raw p
    → w.write_fails ≡ false
    → c.session_established ≡ true
    → lookup c.client_id srv.broker.sessions ≡ some session
    → handle_frame w c (packet raw rest) srv ≡ unsubscribe_step w c session srv p
handle_frame_unsubscribe w c session srv raw rest p h written established e =
    let current = (get_session c.client_id srv.broker.sessions).0 in
    handle_frame_session w c srv raw rest h.parsed h.parses established (session, e)
    ∙ handle_session_packet_unsubscribe w c current srv h.parsed p h.typed h.given written
    ∙ ap (λ s. unsubscribe_step w c s srv p)
        (get_session_found c.client_id srv.broker.sessions session e)

-- In a state with the invariant, where a connection with a session sends an UNSUBSCRIBE, and the
-- write of the answer does not fail: the server sends the UNSUBACK with the packet's identifier and
-- nothing else. In the tree that it leaves, the client has no subscription at a node that one of the
-- filters names, and all other subscriptions are as they were, of this client and of the others. The
-- sessions and the retained messages stay, and the handler goes on.
pub handle_event_unsubscribe :
    (w : World) (conn : ℕ) (c : Connection) (n : Network) (raw rest : Bytes) (p : UnsubscribePacket)
    (session : Session)
    → IsNetwork n
    → lookup conn n.handlers ≡ some c
    → c.session_established ≡ true
    → ParsesAs w.new_uuid raw p
    → lookup c.client_id n.server.broker.sessions ≡ some session
    → w.write_fails ≡ false
    → let (sent, n') = handle_event (received w conn (packet raw rest)) n in
      let b = n.server.broker in
      let b' = n'.server.broker in
      (sent ≡ (conn, encode_unsuback (record { packet_id = p.packet_id })) ∷ [])
      × ((path : List Bytes) (d : Bytes)
          → find path d b'.subscriptions ≡ (
              if names_path p.topic_filters path && bytes_eq c.client_id d
              then none
              else find path d b.subscriptions))
      × (b'.sessions ≡ b.sessions)
      × (b'.retained_msgs ≡ b.retained_msgs)
      × (n'.handlers ≡ insert conn c n.handlers)
unfolding handle_unsubscribe
handle_event_unsubscribe w conn c n raw rest p session h e established parsed stored written =
    let handler = h.handled conn c e in
    let b = n.server.broker in
    let own : session.client_id ≡ c.client_id = h.keyed c.client_id session stored in
    let (_, tree, sessions) = handle_unsubscribe_lem session p b in
    let frame = packet raw rest in
    let step =
      handle_frame_unsubscribe w c session n.server raw rest p parsed written established stored in
    rw (handle_event_goes_on w conn c n frame e step) (
      rw handler.same_conn refl,
      λ path d. rw tree (
          find-apply_changes session.client_id d path p.topic_filters b.subscriptions
          ∙ rw own refl),
      refl,
      refl,
      refl,
    )
