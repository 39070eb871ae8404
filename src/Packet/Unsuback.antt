-- ===== src/Packet/Unsuback.antt =====
-- internal/packet/unsub.go: UNSUBACK.
use goqtt.Base.{ℕ, ◌∷◌, ltb, ◌!=◌, length, Bytes, bit_and}
use goqtt.Er.{
  Result, ok, fail_if, ◌>>=◌, ◌>>◌, short_buffer, invalid_packet_type, invalid_packet_length,
}
use goqtt.Packet.Types.{unsuback_type}
use goqtt.Packet.Unsubscribe.{UnsubscribePacket}
use goqtt.Slice.{read_uint16, index, put_uint16}

pub record UnsubackPacket : Type 0 where
  pub packet_id : ℕ

unfoldable pub new_unsuback : UnsubscribePacket → UnsubackPacket
new_unsuback unsubscribe_packet = record { packet_id = unsubscribe_packet.packet_id }

unfoldable pub parse_unsuback : Bytes → Result UnsubackPacket
parse_unsuback raw = do
  fail_if (ltb (length raw) 4) "UNSUBACK" short_buffer
  b0 ← index raw 0
  fail_if (bit_and b0 0xF0 != unsuback_type) "UNSUBACK" invalid_packet_type
  b1 ← index raw 1
  fail_if (b1 != 0x02) "UNSUBACK" invalid_packet_length
  packet_id ← read_uint16 raw 2
  ok (record { packet_id = packet_id })

unfoldable pub encode_unsuback : UnsubackPacket → Bytes
encode_unsuback p = unsuback_type ∷ 2 ∷ put_uint16 p.packet_id
