-- ===== src/Transport/Rounds/First.antt =====
-- internal/transport/tcp.go: the first round of a handler, and any round of it.
use goqtt.Broker.Evolution.{no_call, no_change}
use goqtt.Transport.Rounds.Packets.{handle_session_packet-IsRound}
use goqtt.Text.{bytes_eq_iff, bytes_eq}
use goqtt.Dict.Laws.{lookup-delete, same_self, lookup-insert}
use goqtt.Transport.Rounds.{if-IsRound, unchanged-IsRound, IsRound, IsHandler, AreKeyed, HasSession}
use goqtt.Transport.Frame.{Frame, closed, oversized, packet}
use goqtt.Packet.Parser.{parse, get_connect, ParsedPacket}
use goqtt.Er.{Result, ok, err, panic, stuck}
use goqtt.Packet.Connect.{ConnectPacket}
use goqtt.Transport.Server.{Server, Connection}
use goqtt.Transport.Dispatch.{handle_frame, handle_parsed, handle_packet, handle_later}
use goqtt.Broker.Session.{get_session, SessionMap, Session, delete_session, store_session}
use goqtt.Transport.Handler.{
  check_credentials, new_session, World, handle_first, send_and_close, answer_connect, establish,
  first_connect,
}
use mathlib.Core.Bool.{true≢false}
use goqtt.Base.{
  true, false, some, inl, inr, none, [], ◌&&◌, Bool-cases, arith, if◌then◌else◌, Option, Bool,
  Bytes, ℕ, ◌≡◌, refl,
}
use goqtt.Dict.{bytes_key}

-- The old session of the client makes way for the new one.
store_session-HasSession :
    (client_id : Bytes) (session : Session) (sessions : SessionMap)
    → HasSession client_id (store_session client_id session sessions)
unfolding store_session
store_session-HasSession client_id session sessions =
    (session, rw (lookup-insert client_id client_id session sessions, same_self client_id) refl)

store_session-stays :
    (client_id : Bytes) (clean : Bool) (session : Session) (sessions : SessionMap) (k : Bytes)
    → HasSession k sessions
    → HasSession k (
        store_session client_id session
          (if clean then delete_session client_id sessions else sessions))
unfolding store_session delete_session
store_session-stays client_id clean session sessions k (old, e) =
    let rest : SessionMap = if clean then delete_session client_id sessions else sessions in
    elim (Bool-cases (bytes_eq client_id k)) [
      | inl same ↦ (session, rw (lookup-insert client_id k session rest, same) refl)
      | inr other ↦ (
        old,
        ground (arith, lookup-insert client_id k session rest, lookup-delete client_id k sessions),
      )
    ]

store_session-AreKeyed :
    (client_id : Bytes) (clean : Bool) (session : Session) (sessions : SessionMap)
    → session.client_id ≡ client_id
    → AreKeyed sessions
    → AreKeyed (
        store_session client_id session
          (if clean then delete_session client_id sessions else sessions))
unfolding store_session delete_session
store_session-AreKeyed client_id clean session sessions own keyed k found e =
    let rest : SessionMap = if clean then delete_session client_id sessions else sessions in
    ground (
      arith,
      lookup-insert client_id k session rest,
      lookup-delete client_id k sessions,
      bytes_eq_iff client_id k,
      keyed k found,
    )

establish-IsRound :
    {conn : ℕ} (w : World) {c : Connection} (p : ConnectPacket) {srv : Server}
    → IsHandler conn srv.broker.sessions c
    → IsRound conn srv (establish w c p srv)
unfolding establish
establish-IsRound w {c} p {srv} h =
    let sessions = srv.broker.sessions in
    let clean = p.clean_session && (get_session p.client_id sessions).1 in
    let new = new_session w c.conn p in
    record {
      same_count = refl;
      same_limit = refl;
      moves = record {
        changes = no_change;
        calls = no_call;
        sessions_stay = store_session-stays p.client_id clean new sessions;
        keyed = store_session-AreKeyed p.client_id clean new sessions refl;
      };
      outcome = record {
        same_conn = h.same_conn;
        fresh = λ e. absurd (true≢false e);
        present = λ e. store_session-HasSession p.client_id new _;
      };
    }

answer_connect-IsRound :
    {conn : ℕ} (w : World) {c : Connection} (p : ConnectPacket) (checked : Result Bool)
    {srv : Server}
    → IsHandler conn srv.broker.sessions c
    → IsRound conn srv (answer_connect w c p checked srv)
unfolding answer_connect send_and_close
answer_connect-IsRound w p (ok true) h = establish-IsRound w p h
answer_connect-IsRound w p (ok false) h = unchanged-IsRound _
answer_connect-IsRound w p (err e) h = unchanged-IsRound []
answer_connect-IsRound w p panic h = unchanged-IsRound []
answer_connect-IsRound w p stuck h = unchanged-IsRound []

first_connect-IsRound :
    {conn : ℕ} (w : World) {c : Connection} (p : Option ConnectPacket) {srv : Server}
    → IsHandler conn srv.broker.sessions c
    → IsRound conn srv (first_connect w c p srv)
unfolding first_connect send_and_close
first_connect-IsRound w none h = unchanged-IsRound _
first_connect-IsRound w (some p) h = answer_connect-IsRound w p (check_credentials w p) h

handle_later-IsRound :
    {conn : ℕ} (w : World) {c : Connection} (p : ParsedPacket) {srv : Server}
    → IsHandler conn srv.broker.sessions c
    → IsRound conn srv (handle_later w c p srv)
unfolding handle_later
handle_later-IsRound w p h =
    if-IsRound _ (handle_session_packet-IsRound w _ h p) (unchanged-IsRound [])

handle_packet-IsRound :
    {conn : ℕ} (w : World) {c : Connection} (p : ParsedPacket) {srv : Server}
    → IsHandler conn srv.broker.sessions c
    → IsRound conn srv (handle_packet w c p srv)
unfolding handle_packet handle_first send_and_close
handle_packet-IsRound w p h =
    if-IsRound _ (handle_later-IsRound w p h)
      (if-IsRound _ (unchanged-IsRound _) (first_connect-IsRound w (get_connect p) h))

handle_parsed-IsRound :
    {conn : ℕ} (w : World) {c : Connection} (r : Result ParsedPacket) {srv : Server}
    → IsHandler conn srv.broker.sessions c
    → IsRound conn srv (handle_parsed w c r srv)
unfolding handle_parsed send_and_close
handle_parsed-IsRound w (ok p) h = handle_packet-IsRound w p h
handle_parsed-IsRound w (err e) h = unchanged-IsRound _
handle_parsed-IsRound w panic h = unchanged-IsRound []
handle_parsed-IsRound w stuck h = unchanged-IsRound []

pub handle_frame-IsRound :
    {conn : ℕ} (w : World) {c : Connection} (frame : Frame) {srv : Server}
    → IsHandler conn srv.broker.sessions c
    → IsRound conn srv (handle_frame w c frame srv)
unfolding handle_frame send_and_close
handle_frame-IsRound w closed h = unchanged-IsRound []
handle_frame-IsRound w oversized h = unchanged-IsRound _
handle_frame-IsRound w (packet raw rest) h = handle_parsed-IsRound w (parse w.new_uuid raw) h
