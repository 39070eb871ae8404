-- ===== src/Packet/Suback.antt =====
-- internal/packet/sub.go: SUBACK.
pub mod RoundTrip
use goqtt.Base.{
  ℕ, ◌+◌, ◌-◌, ◌∷◌, ◌++◌, map, ltb, ◌==◌, ◌!=◌, if◌then◌else◌, length, take, Bytes, bit_and,
}
use goqtt.Base.Int.{pos}
use goqtt.Encoding.Length.{encode_remaining_length, parse_remaining_length}
use goqtt.Er.{
  Result, ok, panic, fail_if, ◌>>=◌, ◌>>◌, short_buffer, invalid_packet_type, invalid_packet_length,
}
use goqtt.Packet.Subscribe.{SubscribePacket}
use goqtt.Packet.Types.{
  QosLevel, suback_type, qos_at_most_once, qos_at_least_once, qos_exactly_once,
}
use goqtt.Slice.{read_uint16, index, slice, put_uint16}

abbrev pub suback_max_qos0 : ℕ
suback_max_qos0 = 0x00

abbrev pub suback_max_qos1 : ℕ
suback_max_qos1 = 0x01

abbrev pub suback_max_qos2 : ℕ
suback_max_qos2 = 0x02

abbrev pub suback_failure : ℕ
suback_failure = 0x80

pub record SubackPacket : Type 0 where
  pub packet_id : ℕ
  pub return_codes : Bytes

-- `switch filter.QoS`
unfoldable pub return_code : QosLevel → ℕ
return_code qos =
    if qos == qos_at_most_once
    then suback_max_qos0
    else if qos == qos_at_least_once
    then suback_max_qos1
    else if qos == qos_exactly_once
    then suback_max_qos2
    else suback_failure

unfoldable pub new_suback : SubscribePacket → SubackPacket
new_suback subscribe_packet = record {
  packet_id = subscribe_packet.packet_id;
  return_codes = map (λ filter. return_code filter.qos) subscribe_packet.filters;
}

unfoldable pub encode_suback : SubackPacket → Bytes
encode_suback p =
    0x90
    ∷ (encode_remaining_length (pos (2 + length p.return_codes))
        ++ (put_uint16 p.packet_id ++ p.return_codes))

-- `make([]byte, remainingLength-2)` panics on a negative length. `copy` fills what both have.
unfoldable pub parse_suback : Bytes → Result SubackPacket
parse_suback raw = do
  fail_if (ltb (length raw) 4) "SUBACK" short_buffer
  b0 ← index raw 0
  fail_if (bit_and b0 0xF0 != suback_type) "SUBACK" invalid_packet_type
  tail ← slice raw 1 (length raw)
  (remaining_length, width) ← parse_remaining_length tail
  let expected_length = 1 + width + remaining_length
  fail_if (length raw != expected_length) "SUBACK" invalid_packet_length
  packet_id ← read_uint16 raw (1 + width)
  codes ← slice raw (1 + width + 2) (length raw)
  if ltb remaining_length 2
      then panic
      else ok (record { packet_id = packet_id; return_codes = take (remaining_length - 2) codes })
