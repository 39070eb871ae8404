-- ===== src/Packet/Publish/Safe.antt =====
-- `PublishPacket.Parse` on any bytes: it returns, and what it accepts is well formed.
use goqtt.Base.{
  ℕ, ◌+◌, ◌≤◌, ◌<◌, Bool, true, ◌≡◌, ◌≢◌, refl, arith, ltb, ◌!=◌, length, All, Bytes, IsByte, IsU16,
  Option, none, some,
}
use goqtt.Encoding.Length.Field.{parse_remaining_length-Ensures}
use goqtt.Encoding.Length.{max_remaining_length}
use goqtt.Encoding.Topic.{validate_topic_name}
use goqtt.Er.{
  fail_if-Ensures, Ensures-if, Ensures-weaken, ok, Ensures, done, Ensures-bind, Ensures-fail_if,
}
use goqtt.Packet.Publish.{
  PublishPacket, publish_header, publish_topic, publish_packet_id, publish_payload, parse_publish,
  encode_id,
}
use goqtt.Packet.Types.{QosLevel}
use goqtt.Slice.Safe.{index-Ensures, slice-Ensures, read_uint16-Ensures}

abbrev pub IdFits : QosLevel → Option ℕ → Type 0
IdFits qos none = qos ≡ 0
IdFits qos (some packet_id) = (0 < qos) × (0 < packet_id) × IsU16 packet_id

-- A packet that MQTT allows, and that fits the remaining-length field.
pub record IsValid (p : PublishPacket) : Type 0 where
  pub qos_le : p.qos ≤ 2
  pub dup_qos : p.dup ≡ true → p.qos ≢ 0
  pub topic_valid : validate_topic_name p.topic ≡ ok tt
  pub topic_length : IsU16 (length p.topic)
  pub id_fits : IdFits p.qos p.packet_id
  pub size :
      2 + length p.topic + length (encode_id p.packet_id) + length p.payload ≤ max_remaining_length

validate_topic_name-Ensures : (name : Bytes) → Ensures (λ _. Unit {0}) (validate_topic_name name)
unfolding validate_topic_name
validate_topic_name-Ensures name = Ensures-fail_if _ _ _ _ λ _. Ensures-fail_if _ _ _ _ λ _.
    Ensures-fail_if _ _ _ _
      λ _. Ensures-fail_if _ _ _ _ λ _. Ensures-fail_if _ _ _ _ λ _. fail_if-Ensures _ _ _

module _ (raw : Bytes) (bytes : All IsByte raw) where
  abbrev HeaderPost : ℕ × Bool × QosLevel × Bool → Type 0
  HeaderPost h =
      (h.0 ≤ length raw)
      × (length raw ≤ h.0 + max_remaining_length)
      × (h.2 ≤ 2)
      × (h.1 ≡ true → h.2 ≢ 0)

  publish_header-Ensures : Ensures HeaderPost (publish_header raw)
  unfolding publish_header
  publish_header-Ensures = Ensures-fail_if _ _ _ _ λ long.
      Ensures-bind _ _ (index-Ensures raw 0 bytes (ground arith)) λ b0 _ _.
        Ensures-fail_if _ _ _ _ λ _.
          Ensures-bind _ _ (slice-Ensures raw 1 (length raw) bytes (ground arith) (omega arith))
            λ tail _ t. Ensures-bind _ _ (parse_remaining_length-Ensures tail t.0) λ p _ q.
              Ensures-fail_if _ _ _ _ λ same. Ensures-fail_if _ _ _ _ λ level.
                Ensures-fail_if _ _ _ _
                  λ flag. done (ground arith, ground arith, ground arith, ground arith)

  abbrev TopicPost : ℕ → Bytes × ℕ → Type 0
  TopicPost start t =
      (validate_topic_name t.0 ≡ ok tt)
      × IsU16 (length t.0)
      × (t.1 ≡ start + 2 + length t.0)
      × (t.1 ≤ length raw)

  publish_topic-Ensures : (start : ℕ) → Ensures (TopicPost start) (publish_topic raw start)
  unfolding publish_topic
  publish_topic-Ensures start = Ensures-fail_if _ _ _ _ λ room.
      Ensures-bind _ _ (read_uint16-Ensures raw start bytes (ground arith)) λ n _ word.
        Ensures-fail_if _ _ _ _ λ _. Ensures-fail_if _ _ _ _ λ fits.
          Ensures-bind _ _
            (slice-Ensures raw (start + 2) (start + 2 + n) bytes (omega arith) (ground arith))
            λ topic _ t.
              Ensures-bind _ _ (validate_topic_name-Ensures topic) λ u accepted _.
                done (accepted, omega (arith, t.1), omega (arith, t.1), ground arith)

  abbrev IdPost : ℕ → QosLevel → Option ℕ × ℕ → Type 0
  IdPost start qos p = IdFits qos p.0 × (p.1 ≡ start + length (encode_id p.0)) × (p.1 ≤ length raw)

  publish_packet_id-Ensures :
      (start : ℕ) (qos : QosLevel)
      → start ≤ length raw
      → Ensures (IdPost start qos) (publish_packet_id raw start qos)
  unfolding publish_packet_id
  publish_packet_id-Ensures start qos inside =
      Ensures-if (qos != 0)
        (λ some_level. Ensures-fail_if _ _ _ _ λ room.
          Ensures-bind _ _ (read_uint16-Ensures raw start bytes (ground arith)) λ n _ word.
            Ensures-fail_if _ _ _ _
              λ nonzero. done ((ground arith, ground arith, word), omega arith, ground arith))
        (λ level_0. done (ground arith, omega arith, inside))

  publish_payload-Ensures :
      (start : ℕ)
      → start ≤ length raw
      → Ensures (λ payload. start + length payload ≡ length raw) (publish_payload raw start)
  unfolding publish_payload
  publish_payload-Ensures start inside =
      Ensures-if (ltb start (length raw))
        (λ more. Ensures-fail_if _ _ _ _ λ _.
          Ensures-weaken (slice-Ensures raw start (length raw) bytes inside (omega arith))
            (λ payload p. omega (arith, p.1)))
        (λ nothing. done (ground arith))

  -- On any bytes the parser returns, with no panic; a packet that it accepts is well formed.
  pub parse_publish-Ensures : Ensures (λ p. IsValid p × (p.raw ≡ raw)) (parse_publish raw)
  unfolding parse_publish
  parse_publish-Ensures = Ensures-bind _ _ publish_header-Ensures λ h _ hp.
      Ensures-bind _ _ (publish_topic-Ensures h.0) λ t _ tp.
        Ensures-bind _ _ (publish_packet_id-Ensures t.1 h.2 tp.3) λ i _ ip.
          Ensures-bind _ _ (publish_payload-Ensures i.1 ip.2) λ payload _ pp. done (
            record {
              qos_le = hp.2;
              dup_qos = hp.3;
              topic_valid = tp.0;
              topic_length = tp.1;
              id_fits = ip.0;
              size = omega (arith, hp, tp, ip, pp);
            },
            refl,
          )
