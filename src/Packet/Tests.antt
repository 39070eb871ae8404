-- ===== src/Packet/Tests.antt =====
-- Runs of the packet parsers and encoders, and their theorems at concrete inputs.
use goqtt.Base.{[], ◌∷◌, ◌≡◌, refl, arith, Bytes, some, true, false, bit_and}
use goqtt.Encoding.Topic.{
  validate_topic_name, has_empty_levels, contains_wildcards, is_control, consecutive_slashes,
  trailing_slash,
}
use goqtt.Er.{Ensures, ok, panic, fail_if}
use goqtt.Packet.Acks.{parse_puback}
use goqtt.Packet.Connect.{parse_connect, decode_flags}
use goqtt.Packet.Connect.Safe as ConnectSafe
use goqtt.Packet.Parser.Dispatch.{IsDispatched, parse-IsDispatched}
use goqtt.Packet.Parser.{ParsedPacket, parse, parse_body, blank_packet}
use goqtt.Packet.Publish.RoundTrip.{parse_publish-encode_publish}
use goqtt.Packet.Publish.Safe as PublishSafe
use goqtt.Packet.Publish.{PublishPacket, parse_publish, encode_publish}
use goqtt.Packet.Subscribe.{parse_subscribe}
use goqtt.Packet.Subscribe.Safe as SubscribeSafe
use goqtt.Packet.Unsubscribe.{parse_unsubscribe}
use goqtt.Packet.Unsubscribe.Safe as UnsubscribeSafe
use goqtt.Slice.{index, slice, uint16}
use goqtt.Text.Utf8.{valid_string, valid_from, any_rune, runes_from, decode_rune}

-- "a/b"
abbrev a_b : Bytes
a_b = b'a' ∷ b'/' ∷ b'b' ∷ []

abbrev hello : PublishPacket
hello = record {
  dup = false;
  qos = 1;
  retain = true;
  topic = a_b;
  packet_id = some 258;
  payload = b'h' ∷ b'i' ∷ [];
  raw = [];
}

a_b-valid : validate_topic_name a_b ≡ ok tt
unfolding validate_topic_name has_empty_levels contains_wildcards is_control consecutive_slashes
    trailing_slash valid_string valid_from any_rune runes_from decode_rune fail_if
a_b-valid = refl

hello-IsValid : PublishSafe.IsValid hello
hello-IsValid = record {
  qos_le = omega arith;
  dup_qos = λ h. cc;
  topic_valid = a_b-valid;
  topic_length = omega arith;
  id_fits = omega arith;
  size = omega arith;
}

parse_publish-encode_publish_example :
    parse_publish (encode_publish hello) ≡ ok (record hello { raw = encode_publish hello })
parse_publish-encode_publish_example = parse_publish-encode_publish hello hello-IsValid

-- A PUBLISH of QoS 0.
abbrev publish_bytes : Bytes
publish_bytes = 0x30 ∷ 6 ∷ 0 ∷ 3 ∷ b'a' ∷ b'/' ∷ b'b' ∷ 7 ∷ []

parse_publish-Ensures_example :
    Ensures (λ p. PublishSafe.IsValid p × (p.raw ≡ publish_bytes)) (parse_publish publish_bytes)
parse_publish-Ensures_example = PublishSafe.parse_publish-Ensures publish_bytes (omega arith)

-- A SUBSCRIBE to "a/b" at QoS 1.
abbrev subscribe_bytes : Bytes
subscribe_bytes = 0x82 ∷ 8 ∷ 0 ∷ 5 ∷ 0 ∷ 3 ∷ b'a' ∷ b'/' ∷ b'b' ∷ 1 ∷ []

parse_subscribe-Ensures_example :
    Ensures
      (λ p. SubscribeSafe.IsValid p × (p.raw ≡ subscribe_bytes))
      (parse_subscribe subscribe_bytes)
parse_subscribe-Ensures_example =
    SubscribeSafe.parse_subscribe-Ensures subscribe_bytes (omega arith)

-- An UNSUBSCRIBE from "a/b".
abbrev unsubscribe_bytes : Bytes
unsubscribe_bytes = 0xA2 ∷ 7 ∷ 0 ∷ 5 ∷ 0 ∷ 3 ∷ b'a' ∷ b'/' ∷ b'b' ∷ []

parse_unsubscribe-Ensures_example :
    Ensures
      (λ p. UnsubscribeSafe.IsValid p × (p.raw ≡ unsubscribe_bytes))
      (parse_unsubscribe unsubscribe_bytes)
parse_unsubscribe-Ensures_example =
    UnsubscribeSafe.parse_unsubscribe-Ensures unsubscribe_bytes (omega arith)

-- A CONNECT in a clean session with the client identifier "c".
abbrev connect_bytes : Bytes
connect_bytes = ConnectSafe.short_connect 0x10 13 2 0 60 (0 ∷ 1 ∷ b'c' ∷ [])

parse_connect-Ensures_example :
    Ensures
      (λ p. ConnectSafe.IsValid (b'u' ∷ []) p × (p.raw ≡ connect_bytes))
      (parse_connect (b'u' ∷ []) connect_bytes)
parse_connect-Ensures_example =
    ConnectSafe.parse_connect-Ensures connect_bytes (omega arith) (b'u' ∷ []) (omega arith)
      (omega arith)

parse_connect-panic_example :
    parse_connect (b'u' ∷ []) (ConnectSafe.short_connect 0x10 10 2 0 60 []) ≡ panic
unfolding decode_flags
parse_connect-panic_example =
    ConnectSafe.parse_connect-panic (b'u' ∷ []) [] 0x10 10 2 0 60 refl refl (omega arith)

-- A PUBACK for the identifier 5.
abbrev parsed_puback : ParsedPacket
parsed_puback = record (blank_packet 0x40 (0x40 ∷ 2 ∷ 0 ∷ 5 ∷ [])) {
  puback = some (record { packet_id = 5 });
}

parse-IsDispatched_example :
    IsDispatched parsed_puback
    × (parsed_puback.packet_type ≡ bit_and 0x40 0xF0)
    × (parsed_puback.raw ≡ 0x40 ∷ 2 ∷ 0 ∷ 5 ∷ [])
unfolding parse parse_body parse_puback index slice uint16 fail_if
parse-IsDispatched_example = parse-IsDispatched [] (2 ∷ 0 ∷ 5 ∷ []) 0x40 parsed_puback refl
