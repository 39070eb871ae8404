-- ===== src/Broker/Session.antt =====
-- internal/broker/session.go: the sessions, and the map that holds them.
use goqtt.Base.{true, false, [], none, some, ℕ, Bool, Bytes, Option}
use goqtt.Dict.{bytes_key, Dict, lookup, insert, delete}

-- A connection of package net is known by a number; `conn` is `none` for a nil one. No function
-- changes a session once it is made, so a pointer to one is a value here.
pub record Session : Type 0 where
  pub client_id : Bytes
  pub clean_session : Bool
  pub will_topic : Option Bytes
  pub will_message : Option Bytes
  pub will_qos : ℕ
  pub will_retain : Bool
  pub keep_alive : ℕ
  pub connection_timestamp : ℕ
  pub conn : Option ℕ

abbrev pub zero_session : Session
zero_session = record {
  client_id = [];
  clean_session = false;
  will_topic = none;
  will_message = none;
  will_qos = 0;
  will_retain = false;
  keep_alive = 0;
  connection_timestamp = 0;
  conn = none;
}

-- A call of `conn.Write`: the connection, and the bytes.
abbrev pub Write : Type 0
Write = ℕ × Bytes

abbrev pub SessionMap : Type 0
SessionMap = Dict Bytes Session

-- `Broker.Store`, `Broker.Get` and `Broker.Delete`. The lock and the copy of the map make each of
-- them one step on a map that nobody else changes.
unfoldable pub store_session : Bytes → Session → SessionMap → SessionMap
store_session key session sessions = insert key session sessions

-- Where the key is missing `Get` answers with a pointer to the zero session, and `false`.
unfoldable pub get_session : Bytes → SessionMap → Session × Bool
get_session key sessions = elim (lookup key sessions) [
  | none ↦ (zero_session, false)
  | some session ↦ (session, true)
]

unfoldable pub delete_session : Bytes → SessionMap → SessionMap
delete_session key sessions = delete key sessions
