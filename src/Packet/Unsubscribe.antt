-- ===== src/Packet/Unsubscribe.antt =====
-- internal/packet/unsubscribe.go: UNSUBSCRIBE.
pub mod Safe
use goqtt.Base.{
  ℕ, zero, suc, ◌+◌, List, [], ◌∷◌, ◌++◌, ltb, ◌==◌, ◌!=◌, if◌then◌else◌, length, Bytes, bit_and,
}
use goqtt.Encoding.Length.{parse_remaining_length}
use goqtt.Er.{
  Result, ok, stuck, fail_if, ◌>>=◌, ◌>>◌, invalid_unsubscribe_packet, invalid_unsubscribe_flags,
  invalid_packet_length, missing_packet_id, invalid_packet_id, empty_topic_filter, no_topic_filters,
}
use goqtt.Packet.Filter.{validate_unsubscribe_topic_filter}
use goqtt.Packet.Types.{unsubscribe_type}
use goqtt.Slice.{read_uint16, index, slice}

pub record UnsubscribePacket : Type 0 where
  pub packet_id : ℕ
  pub topic_filters : List Bytes
  pub raw : Bytes

-- The fixed header and the packet identifier; the offset of the payload.
unfoldable pub unsubscribe_header : Bytes → Result (ℕ × ℕ)
unsubscribe_header raw = do
  fail_if (ltb (length raw) 2) "Unsubscribe" invalid_unsubscribe_packet
  b0 ← index raw 0
  fail_if (bit_and b0 0xF0 != unsubscribe_type) "Unsubscribe" invalid_unsubscribe_packet
  fail_if (bit_and b0 0x0F != 0x02) "Unsubscribe, Fixed Header" invalid_unsubscribe_flags
  tail ← slice raw 1 (length raw)
  (remaining_length, width) ← parse_remaining_length tail
  let expected_length = 1 + width + remaining_length
  fail_if (length raw != expected_length) "Unsubscribe, Packet Length" invalid_packet_length
  let offset = width + 1
  fail_if (ltb remaining_length 4) "Unsubscribe" invalid_unsubscribe_packet
  fail_if (ltb (length raw) (offset + 2)) "Unsubscribe, PacketID" missing_packet_id
  packet_id ← read_uint16 raw offset
  fail_if (packet_id == 0) "Unsubscribe, PacketID" invalid_packet_id
  ok (packet_id, offset + 2)

-- One round of the payload loop: a filter, and the offset behind it.
unfoldable pub read_topic_filter : Bytes → ℕ → Result (Bytes × ℕ)
read_topic_filter raw offset = do
  fail_if (ltb (length raw) (offset + 2)) "Unsubscribe, Topic Filter" invalid_unsubscribe_packet
  topic_len ← read_uint16 raw offset
  fail_if (topic_len == 0) "Unsubscribe, Topic Filter" empty_topic_filter
  fail_if (ltb (length raw) (offset + 2 + topic_len)) "Unsubscribe, Topic Filter"
      invalid_unsubscribe_packet
  topic_filter ← slice raw (offset + 2) (offset + 2 + topic_len)
  validate_unsubscribe_topic_filter topic_filter
  ok (topic_filter, offset + 2 + topic_len)

-- `for offset < len(raw)`, with fuel.
unfoldable pub topic_filters_loop : ℕ → Bytes → ℕ → List Bytes → Result (List Bytes)
topic_filters_loop zero raw offset filters = if ltb offset (length raw) then stuck else ok filters
topic_filters_loop (suc fuel) raw offset filters =
    let more = (do
      (filter, behind) ← read_topic_filter raw offset
      topic_filters_loop fuel raw behind (filters ++ filter ∷ [])) in
    if ltb offset (length raw) then more else ok filters

-- A round takes a byte at least, so `length raw` rounds are enough.
unfoldable pub parse_unsubscribe : Bytes → Result UnsubscribePacket
parse_unsubscribe raw = do
  (packet_id, offset) ← unsubscribe_header raw
  filters ← topic_filters_loop (length raw) raw offset []
  fail_if (length filters == 0) "Unsubscribe" no_topic_filters
  ok (record { packet_id = packet_id; topic_filters = filters; raw = raw })
