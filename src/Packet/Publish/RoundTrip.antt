-- ===== src/Packet/Publish/RoundTrip.antt =====
-- `PublishPacket.Encode` and `PublishPacket.Parse` are inverse on well-formed packets.
use goqtt.Base.{
  lt→ltb, le→not-ltb, ℕ, zero, suc, ◌+◌, ◌/◌, ◌%◌, ◌^◌, ◌≤◌, ◌<◌, Bool, true, false, [], ◌∷◌, ◌++◌,
  ◌≡◌, ◌≢◌, refl, arith, ltb, ◌!=◌, length, Bytes, Option, none, some, bit_and, if◌then◌else◌,
  length-append,
}
use goqtt.Base.Int.{pos}
use goqtt.Encoding.Length.Decode.{parse_remaining_length-encode, length-encode_remaining_length}
use goqtt.Encoding.Length.{max_remaining_length, encode_remaining_length}
use goqtt.Encoding.Topic.Rules.{validate_topic_name_iff}
use goqtt.Er.{ok, bind-step, fail_if-step}
use goqtt.Packet.Publish.Safe.{IsValid, IdFits}
use goqtt.Packet.Publish.{
  PublishPacket, publish_header, publish_topic, publish_packet_id, publish_payload, parse_publish,
  encode_id, encode_publish, publish_first_byte,
}
use goqtt.Packet.Types.{QosLevel, publish_type}
use goqtt.Slice.{
  At, At-next, put_uint16, slice-At, slice_rest-At, index-At, At-whole, read_uint16-At,
}

pub first_byte_fields :
    (dup : Bool) (qos : QosLevel) (retain : Bool)
    → qos ≤ 2
    → let b0 = publish_first_byte dup qos retain in
      (bit_and b0 0xF0 ≡ publish_type)
      × ((bit_and b0 0x08 != 0) ≡ dup)
      × (bit_and b0 0x06 / 2 ≡ qos)
      × ((bit_and b0 0x01 != 0) ≡ retain)
unfolding publish_first_byte
first_byte_fields dup zero retain h = ground arith
first_byte_fields dup (suc zero) retain h = ground arith
first_byte_fields dup (suc (suc zero)) retain h = ground arith
first_byte_fields dup (suc (suc (suc n))) retain h = absurd (omega arith)

id_part :
    (qos : QosLevel) (packet_id : Option ℕ)
    → IdFits qos packet_id
    → ((if ltb 0 qos then encode_id packet_id else []) ≡ encode_id packet_id)
      × ((if ltb 0 qos then 2 else 0) ≡ length (encode_id packet_id))
id_part qos none h = ground arith
id_part qos (some packet_id) h = ground arith

publish_packet_id-At :
    (raw rest : Bytes) (offset : ℕ) (qos : QosLevel) (packet_id : Option ℕ)
    → IdFits qos packet_id
    → At raw offset (encode_id packet_id ++ rest)
    → publish_packet_id raw offset qos ≡ ok (packet_id, offset + length (encode_id packet_id))
unfolding publish_packet_id
publish_packet_id-At raw rest offset qos none fits at =
    let level : (qos != 0) ≡ false = ground arith in
    let same : offset + 0 ≡ offset = omega arith in rw (level, same)
publish_packet_id-At raw rest offset qos (some packet_id) fits at =
    let level : (qos != 0) ≡ true = ground arith in
    rw level (
      fail_if-step _ _ _ _ (ground (arith, at.counted)) λ _.
        bind-step _ _ (read_uint16-At raw rest offset packet_id fits.2 at)
          λ _. fail_if-step _ _ _ _ (ground (arith, fits.1)) λ _. refl)

publish_payload-At :
    (raw rest : Bytes) (offset : ℕ)
    → length rest ≤ max_remaining_length
    → At raw offset rest
    → publish_payload raw offset ≡ ok rest
unfolding publish_payload
publish_payload-At raw [] offset small at =
    rw (le→not-ltb offset (length raw) (omega (arith, at.counted)))
publish_payload-At raw (b ∷ rest) offset small at =
    rw (lt→ltb offset (length raw) (omega (arith, at.counted))) (
      fail_if-step _ _ _ _ (ground (arith, at.counted)) λ _. slice_rest-At raw (b ∷ rest) offset at)

module _ (p : PublishPacket) (v : IsValid p) where
  abbrev pub behind_topic : Bytes
  behind_topic = encode_id p.packet_id ++ p.payload

  abbrev pub body : Bytes
  body = put_uint16 (length p.topic) ++ (p.topic ++ behind_topic)

  abbrev pub size : ℕ
  size = 2 + length p.topic + length (encode_id p.packet_id) + length p.payload

  abbrev pub field : Bytes
  field = encode_remaining_length (pos size)

  abbrev pub wire : Bytes
  wire = publish_first_byte p.dup p.qos p.retain ∷ (field ++ body)

  pub encode_publish-wire : encode_publish p ≡ wire
  unfolding encode_publish
  encode_publish-wire =
      let (part, width) = id_part p.qos p.packet_id v.id_fits in
      let small : length p.topic % 2 ^ 16 ≡ length p.topic = omega (arith, v.topic_length) in
      rw (part, width, small)

  At-field : At wire 1 (field ++ body)
  At-field = record { dropped = refl; counted = omega arith }

  At-body : At wire (1 + length field) body
  At-body = At-next wire field body 1 (length field) refl At-field

  pub length-body : length body ≡ size
  length-body =
      omega
        (arith, length-append p.topic behind_topic, length-append (encode_id p.packet_id) p.payload)

  publish_header-wire : publish_header wire ≡ ok (length field + 1, p.dup, p.qos, p.retain)
  unfolding publish_header
  publish_header-wire =
      let flags = first_byte_fields p.dup p.qos p.retain v.qos_le in
      let width = length-encode_remaining_length size v.size in
      let total : length wire ≡ 1 + length field + size =
        omega (arith, length-append field body, length-body) in
      fail_if-step _ _ _ _ (ground arith) λ _.
        bind-step _ _ (index-At wire (field ++ body) 0 _ (At-whole wire)) λ _.
          fail_if-step _ _ _ _ (ground (arith, flags.0)) λ _.
            bind-step _ _ (slice_rest-At wire (field ++ body) 1 At-field) λ _.
              bind-step _ _ (parse_remaining_length-encode size body v.size) λ _.
                fail_if-step _ _ _ _ (ground (arith, total)) λ _.
                  fail_if-step _ _ _ _ (ground (arith, flags.2, v.qos_le)) λ _.
                    fail_if-step _ _ _ _ (ground (arith, flags, v.dup_qos))
                      λ _. rw (flags.1, flags.2, flags.3)

  abbrev start : ℕ
  start = length field + 1

  At-start : At wire start body
  At-start = let e : length field + 1 ≡ 1 + length field = omega arith in rw e At-body

  At-topic : At wire (start + 2) (p.topic ++ behind_topic)
  At-topic = At-next wire (put_uint16 (length p.topic)) _ start 2 refl At-start

  At-id : At wire (start + 2 + length p.topic) behind_topic
  At-id = At-next wire p.topic behind_topic (start + 2) (length p.topic) refl At-topic

  -- An accepted topic is not empty.
  topic_pos : 0 < length p.topic
  topic_pos = nonempty p.topic ((validate_topic_name_iff p.topic).0 v.topic_valid).0
    where
      nonempty : (t : Bytes) → t ≢ [] → 0 < length t
      nonempty [] h = absurd (h refl)
      nonempty (b ∷ bs) h = omega arith

  publish_topic-wire : publish_topic wire start ≡ ok (p.topic, start + 2 + length p.topic)
  unfolding publish_topic
  publish_topic-wire =
      let room = At-topic.counted in
      let behind = length-append p.topic behind_topic in
      fail_if-step _ _ _ _ (ground (arith, room)) λ _.
        bind-step _ _ (read_uint16-At wire _ start (length p.topic) v.topic_length At-start) λ _.
          fail_if-step _ _ _ _ (ground (arith, topic_pos)) λ _.
            fail_if-step _ _ _ _ (ground (arith, room, behind)) λ _.
              bind-step _ _
                (slice-At wire p.topic behind_topic (start + 2) (length p.topic) refl At-topic)
                λ _. bind-step _ _ v.topic_valid λ _. refl

  abbrev at_payload : ℕ
  at_payload = start + 2 + length p.topic + length (encode_id p.packet_id)

  At-payload : At wire at_payload p.payload
  At-payload = At-next wire (encode_id p.packet_id) p.payload _ _ refl At-id

  -- What the encoder writes of a well-formed packet, the parser reads back, with the buffer.
  pub parse_publish-encode_publish :
      parse_publish (encode_publish p) ≡ ok (record p { raw = encode_publish p })
  unfolding parse_publish
  parse_publish-encode_publish = rw encode_publish-wire (
      bind-step _ _ publish_header-wire λ _. bind-step _ _ publish_topic-wire λ _.
        bind-step _ _ (publish_packet_id-At wire p.payload _ p.qos p.packet_id v.id_fits At-id) λ _.
          bind-step _ _
            (publish_payload-At wire p.payload at_payload (omega (arith, v.size)) At-payload)
            λ _. refl)
