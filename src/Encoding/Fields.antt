-- ===== src/Encoding/Fields.antt =====
-- internal/packet/utils/encoding.go: `ParseString` and the packet identifiers.
pub mod RoundTrip
pub mod Tests
use goqtt.Base.{ℕ, ◌+◌, ◌%◌, ◌^◌, Bool, not, ltb, ◌==◌, ◌!=◌, length, Bytes}
use goqtt.Er.{
  Result, ok, fail_if, ◌>>=◌, ◌>>◌, short_buffer, invalid_utf8_string, invalid_packet_id,
}
use goqtt.Slice.{slice, uint16, put_uint16}
use goqtt.Text.Utf8.{valid_string}

-- The sum `2 + length` is a `uint16`, so it wraps.
unfoldable pub parse_string : Bytes → Result (Bytes × ℕ)
parse_string bytes = do
  fail_if (ltb (length bytes) 2) "ParseString" short_buffer
  prefix ← slice bytes 0 2
  n ← uint16 prefix
  let end = (2 + n) % 2 ^ 16
  fail_if (ltb (length bytes) end) "ParseString" short_buffer
  str ← slice bytes 2 end
  fail_if (not (valid_string str)) "ParseString" invalid_utf8_string
  ok (str, end)

unfoldable pub encode_packet_id : ℕ → Bytes
encode_packet_id packet_id = put_uint16 packet_id

unfoldable pub parse_packet_id : Bytes → Result ℕ
parse_packet_id bytes = do
  fail_if (ltb (length bytes) 2) "ParsePacketID" short_buffer
  prefix ← slice bytes 0 2
  packet_id ← uint16 prefix
  fail_if (packet_id == 0) "ParsePacketID" invalid_packet_id
  ok packet_id

unfoldable pub is_valid_packet_id : ℕ → Bool
is_valid_packet_id packet_id = packet_id != 0
