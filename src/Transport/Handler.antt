-- ===== src/Transport/Handler.antt =====
-- internal/transport/tcp.go: what `handleConnection` does about a packet. All that is sent stands
-- in the result, in order, whether or not the write succeeds.
use goqtt.Base.{
  ℕ, ◌/◌, Bool, true, false, List, [], ◌∷◌, ◌++◌, Bytes, Option, none, some, if◌then◌else◌, ◌&&◌,
  not,
}
use goqtt.Auth.{Row, AuthError, no_error, refused, database_error, authenticate}
use goqtt.Broker.Qos.{second}
use goqtt.Broker.Session.{Session, Write, store_session, get_session, delete_session}
use goqtt.Broker.State.{Broker}
use goqtt.Er.{Result, ok, err, panic, stuck, Message}
use goqtt.Packet.Connack.{
  new_connack, connection_accepted, unacceptable_protocol_version, identifier_rejected_code,
  server_unavailable, bad_username_or_password,
}
use goqtt.Packet.Connect.{ConnectPacket}
use goqtt.Packet.Parser.{ParsedPacket, is_connect, get_connect}
use goqtt.Transport.Server.{Server, Connection, goes_on, returns, Step}

-- The world around one packet: the time, a new UUID, whether the write on this connection fails,
-- and the answers of the database and of bcrypt.
pub record World : Type 0 where
  pub now : ℕ
  pub new_uuid : Bytes
  pub write_fails : Bool
  pub query : Bytes → Row
  pub compare : Bytes → Bytes → Bool

-- `sendAndClose`, and the return behind it. No caller has an empty packet.
unfoldable pub send_and_close : ℕ → Bytes → Server → Step
send_and_close conn ack srv = (returns, (conn, ack) ∷ [], srv)

-- The return code for an error of `Parse`.
unfoldable pub return_code_of : Message → ℕ
return_code_of Message.unsupported_protocol_level = unacceptable_protocol_version
return_code_of Message.unsupported_protocol_name = unacceptable_protocol_version
return_code_of Message.invalid_chars_client_id = identifier_rejected_code
return_code_of Message.client_id_length_exceed = identifier_rejected_code
return_code_of Message.identifier_rejected = identifier_rejected_code
return_code_of Message.password_without_username = bad_username_or_password
return_code_of Message.malformed_username_field = bad_username_or_password
return_code_of Message.malformed_password_field = bad_username_or_password
return_code_of Message.invalid_packet_length = unacceptable_protocol_version
return_code_of _ = server_unavailable

abbrev pub with_broker : Broker → Server → Server
with_broker b srv = record srv { broker = b }

-- `if _, err := conn.Write(…); err != nil { return }` behind what was sent before.
abbrev pub reply : World → Connection → Bytes → List Write → Server → Step
reply w c ack sent srv =
    (if w.write_fails then returns else goes_on c, sent ++ (c.conn, ack) ∷ [], srv)

abbrev pub new_session : World → ℕ → ConnectPacket → Session
new_session w conn p = record {
  client_id = p.client_id;
  clean_session = p.clean_session;
  will_topic = p.will_topic;
  will_message = p.will_message;
  will_qos = p.will_qos;
  will_retain = p.will_retain;
  keep_alive = p.keep_alive;
  connection_timestamp = w.now / second;
  conn = some conn;
}

-- Clean or resume, the CONNACK, and the new session.
unfoldable pub establish : World → Connection → ConnectPacket → Server → Step
establish w c p srv =
    let exists = (get_session p.client_id srv.broker.sessions).1 in
    let session_present = not p.clean_session && exists in
    let sessions =
      if p.clean_session && exists
      then delete_session p.client_id srv.broker.sessions
      else srv.broker.sessions in
    let stored = store_session p.client_id (new_session w c.conn p) sessions in
    (
      goes_on (record { conn = c.conn; client_id = p.client_id; session_established = true }),
      (c.conn, new_connack session_present connection_accepted) ∷ [],
      with_broker (record srv.broker { sessions = stored }) srv,
    )

abbrev pub is_authentic : AuthError → Bool
is_authentic no_error = true
is_authentic (refused _) = false
is_authentic database_error = false

-- `Authenticate(*session.Username, *session.Password)`: a nil pointer would be a panic.
unfoldable pub authenticate_both : World → Option Bytes → Option Bytes → Result Bool
authenticate_both w none password = panic
authenticate_both w (some username) none = panic
authenticate_both w (some username) (some password) =
    ok (is_authentic (authenticate w.query w.compare username password))

-- The check of the credentials, if both are given.
unfoldable pub check_credentials : World → ConnectPacket → Result Bool
check_credentials w p =
    if p.username_flag && p.password_flag
    then authenticate_both w p.username p.password
    else ok true

-- What is done about a CONNECT, by the check of its credentials.
unfoldable pub answer_connect : World → Connection → ConnectPacket → Result Bool → Server → Step
answer_connect w c connect (ok true) srv = establish w c connect srv
answer_connect w c connect (ok false) srv =
    send_and_close c.conn (new_connack false bad_username_or_password) srv
answer_connect w c connect (err e) srv = (returns, [], srv)
answer_connect w c connect panic srv = (returns, [], srv)
answer_connect w c connect stuck srv = (returns, [], srv)

unfoldable pub first_connect : World → Connection → Option ConnectPacket → Server → Step
first_connect w c none srv = send_and_close c.conn (new_connack false server_unavailable) srv
first_connect w c (some connect) srv = answer_connect w c connect (check_credentials w connect) srv

-- The first packet.
unfoldable pub handle_first : World → Connection → ParsedPacket → Server → Step
handle_first w c p srv =
    if not (is_connect p)
    then send_and_close c.conn (new_connack false unacceptable_protocol_version) srv
    else first_connect w c (get_connect p) srv
