-- ===== src/Packet/Acks.antt =====
-- internal/packet/pub.go: PUBACK, PUBREC, PUBREL and PUBCOMP.
pub mod RoundTrip
use goqtt.Base.{ℕ, ◌∷◌, ltb, ◌!=◌, length, Bytes, bit_and, bit_or, Option, none, some}
use goqtt.Er.{
  Result, ok, fail_if, ◌>>=◌, ◌>>◌, short_buffer, invalid_packet_type, invalid_packet_length,
}
use goqtt.Packet.Publish.{PublishPacket}
use goqtt.Packet.Types.{puback_type, pubrec_type, pubrel_type, pubcomp_type}
use goqtt.Slice.{read_uint16, index, put_uint16}

pub record PubackPacket : Type 0 where
  pub packet_id : ℕ

pub record PubrecPacket : Type 0 where
  pub packet_id : ℕ

pub record PubrelPacket : Type 0 where
  pub packet_id : ℕ

pub record PubcompPacket : Type 0 where
  pub packet_id : ℕ

-- A nil result is `none`.
unfoldable pub new_puback : PublishPacket → Option PubackPacket
new_puback publish_packet = elim publish_packet.packet_id [
  | none ↦ none
  | some packet_id ↦ some (record { packet_id = packet_id })
]

unfoldable pub create_puback : PublishPacket → Option PubackPacket
create_puback publish_packet = new_puback publish_packet

unfoldable pub new_pubrec : ℕ → PubrecPacket
new_pubrec packet_id = record { packet_id = packet_id }

unfoldable pub new_pubrel : ℕ → PubrelPacket
new_pubrel packet_id = record { packet_id = packet_id }

unfoldable pub new_pubcomp : ℕ → PubcompPacket
new_pubcomp packet_id = record { packet_id = packet_id }

unfoldable pub parse_puback : Bytes → Result PubackPacket
parse_puback raw = do
  fail_if (ltb (length raw) 4) "PUBACK" short_buffer
  b0 ← index raw 0
  fail_if (bit_and b0 0xF0 != puback_type) "PUBACK" invalid_packet_type
  b1 ← index raw 1
  fail_if (b1 != 0x02) "PUBACK" invalid_packet_length
  packet_id ← read_uint16 raw 2
  ok (record { packet_id = packet_id })

unfoldable pub parse_pubrec : Bytes → Result PubrecPacket
parse_pubrec raw = do
  fail_if (ltb (length raw) 4) "PUBREC" short_buffer
  b0 ← index raw 0
  fail_if (bit_and b0 0xF0 != pubrec_type) "PUBREC" invalid_packet_type
  b1 ← index raw 1
  fail_if (b1 != 0x02) "PUBREC" invalid_packet_length
  packet_id ← read_uint16 raw 2
  ok (record { packet_id = packet_id })

unfoldable pub parse_pubrel : Bytes → Result PubrelPacket
parse_pubrel raw = do
  fail_if (ltb (length raw) 4) "PUBREL" short_buffer
  b0 ← index raw 0
  fail_if (bit_and b0 0xF0 != pubrel_type) "PUBREL" invalid_packet_type
  fail_if (bit_and b0 0x0F != 0x02) "PUBREL" invalid_packet_type
  b1 ← index raw 1
  fail_if (b1 != 0x02) "PUBREL" invalid_packet_length
  packet_id ← read_uint16 raw 2
  ok (record { packet_id = packet_id })

unfoldable pub parse_pubcomp : Bytes → Result PubcompPacket
parse_pubcomp raw = do
  fail_if (ltb (length raw) 4) "PUBCOMP" short_buffer
  b0 ← index raw 0
  fail_if (bit_and b0 0xF0 != pubcomp_type) "PUBCOMP" invalid_packet_type
  b1 ← index raw 1
  fail_if (b1 != 0x02) "PUBCOMP" invalid_packet_length
  packet_id ← read_uint16 raw 2
  ok (record { packet_id = packet_id })

unfoldable pub encode_puback : PubackPacket → Bytes
encode_puback p = puback_type ∷ 0x02 ∷ put_uint16 p.packet_id

unfoldable pub encode_pubrec : PubrecPacket → Bytes
encode_pubrec p = pubrec_type ∷ 0x02 ∷ put_uint16 p.packet_id

unfoldable pub encode_pubrel : PubrelPacket → Bytes
encode_pubrel p = bit_or pubrel_type 0x02 ∷ 0x02 ∷ put_uint16 p.packet_id

unfoldable pub encode_pubcomp : PubcompPacket → Bytes
encode_pubcomp p = pubcomp_type ∷ 0x02 ∷ put_uint16 p.packet_id
