-- ===== src/Packet/Publish.antt =====
-- internal/packet/publish.go: PUBLISH.
pub mod Safe
pub mod RoundTrip
use goqtt.Base.{
  ℕ, ◌+◌, ◌-◌, ◌*◌, ◌/◌, ◌%◌, ◌^◌, Bool, ◌&&◌, [], ◌∷◌, ◌++◌, ltb, ◌==◌, ◌!=◌, if◌then◌else◌,
  length, Bytes, bit_and, bit_or, Option, none, some,
}
use goqtt.Base.Int.{pos}
use goqtt.Encoding.Length.{encode_remaining_length, parse_remaining_length}
use goqtt.Encoding.Topic.{validate_topic_name}
use goqtt.Er.{
  Result, ok, fail_if, ◌>>=◌, ◌>>◌, invalid_publish_packet, invalid_packet_length,
  invalid_qos_level, invalid_dup_flag, empty_topic, missing_packet_id, invalid_packet_id,
  payload_too_large,
}
use goqtt.Packet.Types.{
  QosLevel, publish_type, qos_at_most_once, qos_exactly_once, max_payload_size,
}
use goqtt.Slice.{read_uint16, index, slice, put_uint16}

-- A nil `PacketID` is `none`. `Raw` is the buffer that the packet was parsed from.
pub record PublishPacket : Type 0 where
  pub dup : Bool
  pub qos : QosLevel
  pub retain : Bool
  pub topic : Bytes
  pub packet_id : Option ℕ
  pub payload : Bytes
  pub raw : Bytes

-- The fixed header: the flags, and the offset of the variable header.
unfoldable pub publish_header : Bytes → Result (ℕ × Bool × QosLevel × Bool)
publish_header raw = do
  fail_if (ltb (length raw) 2) "Publish" invalid_publish_packet
  b0 ← index raw 0
  fail_if (bit_and b0 0xF0 != publish_type) "Publish" invalid_publish_packet
  tail ← slice raw 1 (length raw)
  (remaining_length, width) ← parse_remaining_length tail
  let expected_length = 1 + width + remaining_length
  fail_if (length raw != expected_length) "Publish, Packet Length" invalid_packet_length
  let dup = bit_and b0 0x08 != 0
  let qos = bit_and b0 0x06 / 2
  let retain = bit_and b0 0x01 != 0
  fail_if (ltb qos_exactly_once qos) "Publish, QoS" invalid_qos_level
  fail_if (dup && qos == qos_at_most_once) "Publish, DUP Flag" invalid_dup_flag
  ok (width + 1, dup, qos, retain)

-- The topic, and the offset behind it.
unfoldable pub publish_topic : Bytes → ℕ → Result (Bytes × ℕ)
publish_topic raw offset = do
  fail_if (ltb (length raw) (offset + 2)) "Publish" invalid_publish_packet
  topic_len ← read_uint16 raw offset
  fail_if (topic_len == 0) "Publish, Topic" empty_topic
  fail_if (ltb (length raw) (offset + 2 + topic_len)) "Publish, Topic" invalid_publish_packet
  topic ← slice raw (offset + 2) (offset + 2 + topic_len)
  validate_topic_name topic
  ok (topic, offset + 2 + topic_len)

-- The packet identifier, which is there for QoS 1 and 2, and the offset behind it.
unfoldable pub publish_packet_id : Bytes → ℕ → QosLevel → Result (Option ℕ × ℕ)
publish_packet_id raw offset qos =
    if qos != qos_at_most_once
    then (do
      fail_if (ltb (length raw) (offset + 2)) "Publish, PacketID" missing_packet_id
      packet_id ← read_uint16 raw offset
      fail_if (packet_id == 0) "Publish, PacketID" invalid_packet_id
      ok (some packet_id, offset + 2))
    else ok (none, offset)

unfoldable pub publish_payload : Bytes → ℕ → Result Bytes
publish_payload raw offset =
    if ltb offset (length raw)
    then (do
      fail_if (ltb max_payload_size (length raw - offset)) "Publish, Payload" payload_too_large
      slice raw offset (length raw))
    else ok []

unfoldable pub parse_publish : Bytes → Result PublishPacket
parse_publish raw = do
  (start, dup, qos, retain) ← publish_header raw
  (topic, behind_topic) ← publish_topic raw start
  (packet_id, behind_id) ← publish_packet_id raw behind_topic qos
  payload ← publish_payload raw behind_id
  ok (record {
    dup = dup;
    qos = qos;
    retain = retain;
    topic = topic;
    packet_id = packet_id;
    payload = payload;
    raw = raw;
  })

unfoldable pub publish_first_byte : Bool → QosLevel → Bool → ℕ
publish_first_byte dup qos retain =
    let with_dup = if dup then bit_or publish_type 0x08 else publish_type in
    let with_qos = bit_or with_dup (qos * 2 % 256) in
    if retain then bit_or with_qos 0x01 else with_qos

abbrev pub encode_id : Option ℕ → Bytes
encode_id none = []
encode_id (some packet_id) = put_uint16 packet_id

-- The method on a non-nil receiver.
unfoldable pub encode_publish : PublishPacket → Bytes
encode_publish pp =
    let id_length : ℕ = if ltb qos_at_most_once pp.qos then 2 else 0 in
    let remaining_length = 2 + length pp.topic + id_length + length pp.payload in
    publish_first_byte pp.dup pp.qos pp.retain
    ∷ (encode_remaining_length (pos remaining_length)
        ++ (put_uint16 (length pp.topic % 2 ^ 16)
            ++ (pp.topic
                ++ ((if ltb qos_at_most_once pp.qos then encode_id pp.packet_id else [])
                    ++ pp.payload))))
