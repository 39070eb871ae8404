-- ===== src/Packet/Ping.antt =====
-- internal/packet/ping.go.
use goqtt.Base.{[], ◌∷◌, ltb, ◌!=◌, length, Bytes, bit_and}
use goqtt.Er.{
  Result, ok, fail_if, ◌>>=◌, ◌>>◌, invalid_pingreq_packet, invalid_pingreq_flags,
  invalid_pingreq_length, invalid_pingresp_packet, invalid_pingresp_flags, invalid_pingresp_length,
  invalid_packet_length,
}
use goqtt.Packet.Types.{pingreq_type, pingresp_type}
use goqtt.Slice.{index}

pub record PingreqPacket : Type 0 where
  pub raw : Bytes

pub record PingrespPacket : Type 0 where

unfoldable pub parse_pingreq : Bytes → Result PingreqPacket
parse_pingreq raw = do
  fail_if (ltb (length raw) 2) "Pingreq" invalid_pingreq_packet
  b0 ← index raw 0
  fail_if (bit_and b0 0xF0 != pingreq_type) "Pingreq" invalid_pingreq_packet
  fail_if (bit_and b0 0x0F != 0x00) "Pingreq, Fixed Header" invalid_pingreq_flags
  b1 ← index raw 1
  fail_if (b1 != 0x00) "Pingreq, Remaining Length" invalid_pingreq_length
  fail_if (length raw != 2) "Pingreq, Packet Length" invalid_packet_length
  ok (record { raw = raw })

unfoldable pub parse_pingresp : Bytes → Result PingrespPacket
parse_pingresp raw = do
  fail_if (ltb (length raw) 2) "Pingresp" invalid_pingresp_packet
  b0 ← index raw 0
  fail_if (bit_and b0 0xF0 != pingresp_type) "Pingresp" invalid_pingresp_packet
  fail_if (bit_and b0 0x0F != 0x00) "Pingresp, Fixed Header" invalid_pingresp_flags
  b1 ← index raw 1
  fail_if (b1 != 0x00) "Pingresp, Remaining Length" invalid_pingresp_length
  fail_if (length raw != 2) "Pingresp, Packet Length" invalid_packet_length
  ok (record {})

unfoldable pub create_pingresp : PingrespPacket
create_pingresp = record {}

unfoldable pub encode_pingresp : PingrespPacket → Bytes
encode_pingresp p = 0xD0 ∷ 0x00 ∷ []
