-- ===== src/Transport/Server.antt =====
-- internal/transport/tcp.go: the server's state, what it lets in, and the end of a connection.
use goqtt.Base.{
  ℕ, ◌+◌, ◌-◌, ◌%◌, ◌^◌, Bool, true, false, List, [], ◌∷◌, Bytes, Option, none, some, if◌then◌else◌,
  ltb, leb, ◌&&◌, ◌==◌, length, String,
}
use goqtt.Broker.Handlers.{handle_publish, handle_client_disconnect}
use goqtt.Broker.Session.{Session, Write, get_session}
use goqtt.Broker.State.{Broker, new_broker}
use goqtt.Packet.Connack.{new_connack, server_unavailable}
use goqtt.Packet.Publish.{PublishPacket}

-- `current_connections` is an `int32`, kept modulo 2 ^ 32.
pub record Server : Type 0 where
  pub broker : Broker
  pub is_shutting_down : Bool
  pub max_connections : ℕ
  pub current_connections : ℕ

abbrev pub new_server : Server
new_server = record {
  broker = new_broker;
  is_shutting_down = false;
  max_connections = 1000;
  current_connections = 0;
}

unfoldable pub stop : Server → Server
stop srv = record srv { is_shutting_down = true }

-- `currentConnections.Add(1)` and `Add(-1)`
abbrev pub add_one : ℕ → ℕ
add_one n = (n + 1) % 2 ^ 32

abbrev pub sub_one : ℕ → ℕ
sub_one n = (n + (2 ^ 32 - 1)) % 2 ^ 32

-- `current >= maximum`, where the upper half of the numbers stands for the negative ones.
abbrev pub at_least : ℕ → ℕ → Bool
at_least current maximum = ltb current (2 ^ 31) && leb maximum current

-- The reason for which no connection is taken; "" is `none`.
unfoldable pub check_server_availability : Server → Option String
check_server_availability srv =
    if srv.is_shutting_down
    then some "server is shutting down"
    else if at_least srv.current_connections srv.max_connections
    then some "maximum connections exceeded"
    else none

-- The variables of `handleConnection`. `client_id` is empty until a session is established.
pub record Connection : Type 0 where
  pub conn : ℕ
  pub client_id : Bytes
  pub session_established : Bool

-- Whether the handler goes on, with its variables, or returns. All ways to return close the
-- connection.
pub data Outcome : Type 0 where
  goes_on : Connection → Outcome
  returns : Outcome

abbrev pub Step : Type 0
Step = Outcome × List Write × Server

-- The Will as a packet.
abbrev pub will_packet : Session → Bytes → Bytes → PublishPacket
will_packet session topic message = record {
  dup = false;
  qos = session.will_qos;
  retain = session.will_retain;
  topic = topic;
  packet_id = none;
  payload = message;
  raw = [];
}

-- `if session.WillTopic != nil && session.WillMessage != nil { … }`
unfoldable pub publish_message :
    ℕ → Session → Option Bytes → Option Bytes → Broker → List Write × Broker
publish_message now session (some topic) (some message) b =
    (handle_publish now (some (will_packet session topic message)) b).1
publish_message now session (some topic) none b = ([], b)
publish_message now session none message b = ([], b)

unfoldable pub publish_will : ℕ → Session → Broker → List Write × Broker
publish_will now session b = publish_message now session session.will_topic session.will_message b

-- The deferred function, which runs whenever the handler returns, or a panic ends it.
unfoldable pub end_connection : ℕ → Bytes → Server → List Write × Server
end_connection now client_id srv =
    let srv' : Server = record srv { current_connections = sub_one srv.current_connections } in
    let (session, exists) = get_session client_id srv.broker.sessions in
    let (sent, b) = publish_will now session srv.broker in
    if length client_id == 0
    then ([], srv')
    else if exists
    then (sent, record srv' { broker = handle_client_disconnect client_id b })
    else ([], srv')

-- The start of `handleConnection` behind the check, by the reason that the check gave: the count, or
-- the refusal. A connection that is refused gets the deferred function too, with an empty client
-- identifier.
unfoldable pub start_handler : ℕ → Option String → Server → Step
start_handler conn none srv = (
  goes_on (record { conn = conn; client_id = []; session_established = false }),
  [],
  record srv { current_connections = add_one srv.current_connections },
)
start_handler conn (some reason) srv =
    (returns, (conn, new_connack false server_unavailable) ∷ [], srv)
