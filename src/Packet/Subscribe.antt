-- ===== src/Packet/Subscribe.antt =====
-- internal/packet/subscribe.go: SUBSCRIBE.
pub mod Safe
use goqtt.Base.{
  ℕ, zero, suc, ◌+◌, List, [], ◌∷◌, ◌++◌, ltb, leb, ◌==◌, ◌!=◌, if◌then◌else◌, length, Bytes,
  bit_and, Bool,
}
use goqtt.Encoding.Length.{parse_remaining_length}
use goqtt.Er.{
  Result, ok, stuck, fail_if, ◌>>=◌, ◌>>◌, invalid_subscribe_packet, invalid_subscribe_flags,
  invalid_packet_length, missing_packet_id, invalid_packet_id, empty_topic_filter, missing_qos_byte,
  invalid_qos_reserved_bits, invalid_qos_level, no_topic_filters,
}
use goqtt.Packet.Filter.{validate_topic_filter}
use goqtt.Packet.Types.{QosLevel, subscribe_type, qos_exactly_once}
use goqtt.Slice.{read_uint16, index, slice}

pub record SubscribeFilter : Type 0 where
  pub topic : Bytes
  pub qos : QosLevel

pub record SubscribePacket : Type 0 where
  pub packet_id : ℕ
  pub filters : List SubscribeFilter
  pub raw : Bytes

-- The fixed header and the packet identifier; the offset of the payload.
unfoldable pub subscribe_header : Bytes → Result (ℕ × ℕ)
subscribe_header raw = do
  fail_if (ltb (length raw) 2) "Subscribe" invalid_subscribe_packet
  b0 ← index raw 0
  fail_if (bit_and b0 0xF0 != subscribe_type) "Subscribe" invalid_subscribe_packet
  fail_if (bit_and b0 0x0F != 0x02) "Subscribe, Fixed Header" invalid_subscribe_flags
  tail ← slice raw 1 (length raw)
  (remaining_length, width) ← parse_remaining_length tail
  let expected_length = 1 + width + remaining_length
  fail_if (length raw != expected_length) "Subscribe, Packet Length" invalid_packet_length
  let offset = width + 1
  fail_if (ltb remaining_length 6) "Subscribe" invalid_subscribe_packet
  fail_if (ltb (length raw) (offset + 2)) "Subscribe, PacketID" missing_packet_id
  packet_id ← read_uint16 raw offset
  fail_if (packet_id == 0) "Subscribe, PacketID" invalid_packet_id
  ok (packet_id, offset + 2)

-- One round of the payload loop: a filter, and the offset behind it.
unfoldable pub read_filter : Bytes → ℕ → Result (SubscribeFilter × ℕ)
read_filter raw offset = do
  fail_if (ltb (length raw) (offset + 2)) "Subscribe, Topic Filter" invalid_subscribe_packet
  topic_len ← read_uint16 raw offset
  fail_if (topic_len == 0) "Subscribe, Topic Filter" empty_topic_filter
  fail_if (ltb (length raw) (offset + 2 + topic_len)) "Subscribe, Topic Filter"
      invalid_subscribe_packet
  topic_filter ← slice raw (offset + 2) (offset + 2 + topic_len)
  validate_topic_filter topic_filter
  fail_if (leb (length raw) (offset + 2 + topic_len)) "Subscribe, QoS" missing_qos_byte
  qos_byte ← index raw (offset + 2 + topic_len)
  fail_if (bit_and qos_byte 0xFC != 0) "Subscribe, QoS" invalid_qos_reserved_bits
  let qos = bit_and qos_byte 0x03
  fail_if (ltb qos_exactly_once qos) "Subscribe, QoS" invalid_qos_level
  ok (record { topic = topic_filter; qos = qos }, offset + 2 + topic_len + 1)

-- `for offset < len(raw)`, with fuel.
unfoldable pub filters_loop : ℕ → Bytes → ℕ → List SubscribeFilter → Result (List SubscribeFilter)
filters_loop zero raw offset filters = if ltb offset (length raw) then stuck else ok filters
filters_loop (suc fuel) raw offset filters =
    let more = (do
      (filter, behind) ← read_filter raw offset
      filters_loop fuel raw behind (filters ++ filter ∷ [])) in
    if ltb offset (length raw) then more else ok filters

abbrev pub is_nil {ℓ} : {A : Type ℓ} → List A → Bool
is_nil xs = length xs == 0

-- A round takes a byte at least, so `length raw` rounds are enough.
unfoldable pub parse_subscribe : Bytes → Result SubscribePacket
parse_subscribe raw = do
  (packet_id, offset) ← subscribe_header raw
  filters ← filters_loop (length raw) raw offset []
  fail_if (is_nil filters) "Subscribe" no_topic_filters
  ok (record { packet_id = packet_id; filters = filters; raw = raw })
