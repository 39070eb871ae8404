-- ===== src/Packet/Connect.antt =====
-- internal/packet/connect.go: CONNECT. `uuid.NewString`, of another module, is the parameter
-- `new_uuid`: the string that this call of it returns.
pub mod Safe
use goqtt.Base.{
  ℕ, ◌+◌, ◌/◌, Bool, true, false, not, ◌&&◌, ◌||◌, String, [], ◌∷◌, ltb, leb, ◌==◌, ◌!=◌,
  if◌then◌else◌, length, Bytes, bit_and, Option, none, some,
}
use goqtt.Er.{
  Message, Result, ok, err, panic, stuck, fail, fail_if, ◌>>=◌, ◌>>◌, invalid_conn_packet,
  unsupported_protocol_name, unsupported_protocol_level, invalid_will_qos, empty_client_id,
  empty_and_clean_session_client_id, identifier_rejected, client_id_length_exceed,
  invalid_chars_client_id, password_without_username, malformed_username_field,
  malformed_password_field,
}
use goqtt.Packet.Types.{connect_type}
use goqtt.Slice.{read_uint16, index, slice}
use goqtt.Text.{bytes_eq}

-- The optional fields of the payload are nil (`none`) where their flag is not set.
pub record ConnectPacket : Type 0 where
  pub protocol_name : Bytes
  pub protocol_level : ℕ
  pub username_flag : Bool
  pub password_flag : Bool
  pub will_retain : Bool
  pub will_qos : ℕ
  pub will_flag : Bool
  pub clean_session : Bool
  pub keep_alive : ℕ
  pub client_id : Bytes
  pub will_topic : Option Bytes
  pub will_message : Option Bytes
  pub username : Option Bytes
  pub password : Option Bytes
  pub raw : Bytes

-- The flags byte.
pub record ConnectFlags : Type 0 where
  pub username_flag : Bool
  pub password_flag : Bool
  pub will_retain : Bool
  pub will_qos : ℕ
  pub will_flag : Bool
  pub clean_session : Bool

-- `[a-zA-Z0-9_-]`
unfoldable pub is_allowed : ℕ → Bool
is_allowed c =
    (leb b'a' c && leb c b'z')
    || (leb b'A' c && leb c b'Z')
    || (leb b'0' c && leb c b'9')
    || c == b'_'
    || c == b'-'

abbrev pub all_allowed : Bytes → Bool
all_allowed [] = true
all_allowed (c ∷ cs) = is_allowed c && all_allowed cs

-- `^[a-zA-Z0-9_-]+$`
abbrev pub matches_allowed_pattern : Bytes → Bool
matches_allowed_pattern s = ltb 0 (length s) && all_allowed s

unfoldable pub validate_client_id : Bytes → Bool → Result (Unit {0})
validate_client_id client_id clean_session =
    if length client_id == 0
    then (do
      fail_if (not clean_session) "Connect, ClientID" empty_and_clean_session_client_id
      fail "Connect, ClientID" empty_client_id)
    else (do
      fail_if (ltb 23 (length client_id)) "Connect, ClientID" client_id_length_exceed
      fail_if (not (matches_allowed_pattern client_id)) "Connect, ClientID" invalid_chars_client_id)

-- What becomes of the client identifier after its validation.
unfoldable pub settle_client_id : Bytes → Bytes → Result (Unit {0}) → Result Bytes
settle_client_id new_uuid client_id (ok _) = ok client_id
settle_client_id new_uuid client_id (err e) = elim e.message [
  | empty_client_id ↦ ok new_uuid
  | empty_and_clean_session_client_id ↦ fail "Connect, ClientID" identifier_rejected
  | _ ↦ err e
]
settle_client_id new_uuid client_id panic = panic
settle_client_id new_uuid client_id stuck = stuck

-- `"MQTT"`
abbrev pub mqtt : Bytes
mqtt = b'M' ∷ b'Q' ∷ b'T' ∷ b'T' ∷ []

unfoldable pub decode_flags : ℕ → ConnectFlags
decode_flags connect_flags = record {
  username_flag = bit_and connect_flags 0x80 != 0;
  password_flag = bit_and connect_flags 0x40 != 0;
  will_retain = bit_and connect_flags 0x20 != 0;
  will_qos = bit_and connect_flags 0x18 / 8;
  will_flag = bit_and connect_flags 0x04 != 0;
  clean_session = bit_and connect_flags 0x02 != 0;
}

-- The protocol name and level; the offset of the flags.
unfoldable pub connect_protocol : Bytes → Result (Bytes × ℕ × ℕ)
connect_protocol raw = do
  fail_if (ltb (length raw) 10) "Connect" invalid_conn_packet
  b0 ← index raw 0
  fail_if (bit_and b0 0xF0 != connect_type) "Connect" invalid_conn_packet
  fail_if (ltb (length raw) (2 + 2)) "Connect" invalid_conn_packet
  protocol_name_len ← read_uint16 raw 2
  fail_if (ltb (length raw) (4 + protocol_name_len)) "Connect" invalid_conn_packet
  protocol_name ← slice raw 4 (4 + protocol_name_len)
  let offset = 4 + protocol_name_len
  fail_if (not (bytes_eq protocol_name mqtt)) "Connect, ProtocolName" unsupported_protocol_name
  fail_if (leb (length raw) offset) "Connect" invalid_conn_packet
  protocol_level ← index raw offset
  fail_if (protocol_level != 4) "Connect, ProtocolLevel" unsupported_protocol_level
  ok (protocol_name, protocol_level, offset + 1)

-- The flags, the keep-alive time and the offset of the client identifier.
unfoldable pub connect_flags : Bytes → ℕ → Result (ConnectFlags × ℕ × ℕ)
connect_flags raw offset = do
  fail_if (leb (length raw) offset) "Connect" invalid_conn_packet
  b ← index raw offset
  let flags = decode_flags b
  fail_if (flags.will_flag && ltb 2 flags.will_qos) "Connect, WillQos" invalid_will_qos
  fail_if (ltb (length raw) (offset + 1 + 2)) "Connect" invalid_conn_packet
  keep_alive ← read_uint16 raw (offset + 1)
  ok (flags, keep_alive, offset + 1 + 2)

-- The client identifier. The source reads its length with no check that the bytes are there.
unfoldable pub connect_client_id : Bytes → Bytes → Bool → ℕ → Result (Bytes × ℕ)
connect_client_id new_uuid raw clean_session offset = do
  client_id_len ← read_uint16 raw offset
  fail_if (ltb (length raw) (offset + 2 + client_id_len)) "Connect" invalid_conn_packet
  client_id ← slice raw (offset + 2) (offset + 2 + client_id_len)
  settled ← settle_client_id new_uuid client_id (validate_client_id client_id clean_session)
  ok (settled, offset + 2 + client_id_len)

-- A field of the payload with its length in front, and the contexts of its two errors.
unfoldable pub read_field : String → String → Message → Bytes → ℕ → Result (Bytes × ℕ)
read_field no_length too_short message raw offset = do
  fail_if (ltb (length raw) (offset + 2)) no_length message
  n ← read_uint16 raw offset
  fail_if (ltb (length raw) (offset + 2 + n)) too_short message
  field ← slice raw (offset + 2) (offset + 2 + n)
  ok (field, offset + 2 + n)

-- A field that is there only if its flag is set.
unfoldable pub read_optional :
    Bool → String → String → Message → Bytes → ℕ → Result (Option Bytes × ℕ)
read_optional false no_length too_short message raw offset = ok (none, offset)
read_optional true no_length too_short message raw offset = do
  (field, behind) ← read_field no_length too_short message raw offset
  ok (some field, behind)

unfoldable pub parse_connect : Bytes → Bytes → Result ConnectPacket
parse_connect new_uuid raw = do
  (protocol_name, protocol_level, at_flags) ← connect_protocol raw
  (flags, keep_alive, at_client_id) ← connect_flags raw at_flags
  (client_id, at_will) ← connect_client_id new_uuid raw flags.clean_session at_client_id
  (will_topic, at_message) ←
      read_optional flags.will_flag "Connect, WillFlag" "Connect, WillTopic" invalid_conn_packet raw
        at_will
  (will_message, at_username) ←
      read_optional flags.will_flag "Connect, WillTopic" "Connect, WillMessage" invalid_conn_packet
        raw at_message
  fail_if (not flags.username_flag && flags.password_flag) "Connect, UsernameFlag + PasswordFlag"
      password_without_username
  (username, at_password) ←
      read_optional flags.username_flag "Connect, UsernameFlag" "Connect, Username"
        malformed_username_field raw at_username
  (password, _) ←
      read_optional flags.password_flag "Connect, PasswordFlag" "Connect, Password"
        malformed_password_field raw at_password
  ok (record {
    protocol_name = protocol_name;
    protocol_level = protocol_level;
    username_flag = flags.username_flag;
    password_flag = flags.password_flag;
    will_retain = flags.will_retain;
    will_qos = flags.will_qos;
    will_flag = flags.will_flag;
    clean_session = flags.clean_session;
    keep_alive = keep_alive;
    client_id = client_id;
    will_topic = will_topic;
    will_message = will_message;
    username = username;
    password = password;
    raw = raw;
  })
