-- ===== src/Transport/Answering.antt =====
-- internal/transport/tcp.go: what a round of a handler with a session comes to, from the frame to the
-- case of the switch, and from its answer to the state.
use goqtt.Transport.Cleanup.{get_session_lem}
use goqtt.Er.{ok}
use goqtt.Dict.Laws.{same_self, lookup-insert}
use goqtt.Transport.Frame.{packet, Frame}
use goqtt.Packet.Parser.{parse, ParsedPacket}
use goqtt.Transport.Handler.{World}
use goqtt.Transport.Server.{goes_on, Server, Connection}
use goqtt.Transport.Rounds.{HasSession, AreKeyed}
use goqtt.Transport.Network.{received, Network, settle, receive, handle_event}
use goqtt.Broker.Session.{Write, Session, get_session, SessionMap}
use goqtt.Transport.Dispatch.{
  handle_session_packet, handle_parsed, handle_later, handle_frame, handle_packet,
}
use goqtt.Dict.{insert, lookup, Dict, bytes_key, nat_key}
use goqtt.Base.{==_iff, List, true, arith, ◌≡◌, ℕ, refl, some, Bytes}

handle_packet_later :
    (w : World) (c : Connection) (parsed : ParsedPacket) (srv : Server)
    → c.session_established ≡ true
    → HasSession c.client_id srv.broker.sessions
    → handle_packet w c parsed srv
      ≡ handle_session_packet w c (get_session c.client_id srv.broker.sessions).0 srv parsed
unfolding handle_packet handle_later
handle_packet_later w c parsed srv e session =
    ground (arith, get_session_lem c.client_id srv.broker.sessions session)

-- A frame that is parsed is the packet of the session.
pub handle_frame_session :
    (w : World) (c : Connection) (srv : Server) (raw rest : Bytes) (parsed : ParsedPacket)
    → parse w.new_uuid raw ≡ ok parsed
    → c.session_established ≡ true
    → HasSession c.client_id srv.broker.sessions
    → handle_frame w c (packet raw rest) srv
      ≡ handle_session_packet w c (get_session c.client_id srv.broker.sessions).0 srv parsed
unfolding handle_frame handle_parsed
handle_frame_session w c srv raw rest parsed parses established session =
    rw parses (handle_packet_later w c parsed srv established session)

pub get_session_found :
    (client_id : Bytes) (sessions : SessionMap) (session : Session)
    → lookup client_id sessions ≡ some session
    → (get_session client_id sessions).0 ≡ session
unfolding get_session
get_session_found client_id sessions session e = rw (get_session, e) refl

pub get_session_same :
    (sessions : SessionMap) (client_id : Bytes)
    → AreKeyed sessions
    → HasSession client_id sessions
    → (get_session client_id sessions).0.client_id ≡ client_id
get_session_same sessions client_id keyed (session, e) =
    rw (get_session_found client_id sessions session e) (keyed client_id session e)

-- A round that goes on leaves the handler with its variables.
pub handle_event_goes_on :
    (w : World) (conn : ℕ) (c : Connection) (n : Network) (frame : Frame) {sent : List Write}
    {srv : Server}
    → lookup conn n.handlers ≡ some c
    → handle_frame w c frame n.server ≡ (goes_on c, sent, srv)
    → handle_event (received w conn frame) n
      ≡ (sent, record n { server = srv; handlers = insert conn c n.handlers })
unfolding handle_event receive settle
handle_event_goes_on w conn c n frame runs step = rw (runs, step) refl

-- Every handler that ran goes on to run with its variables.
pub lookup-insert_same :
    (conn j : ℕ) (c d : Connection) (handlers : Dict ℕ Connection)
    → lookup conn handlers ≡ some c
    → lookup j handlers ≡ some d
    → lookup j (insert conn c handlers) ≡ some d
lookup-insert_same conn j c d handlers e f =
    ground (arith, lookup-insert conn j c handlers, ==_iff conn j)

pub lookup-insert_own :
    (conn : ℕ) (c : Connection) (handlers : Dict ℕ Connection)
    → lookup conn (insert conn c handlers) ≡ some c
lookup-insert_own conn c handlers = rw (lookup-insert conn conn c handlers, same_self conn) refl
