-- ===== src/Packet/Acks/RoundTrip.antt =====
-- The acknowledgements survive the wire, and none is taken for another.
use goqtt.Base.{ℕ, ◌+◌, ◌*◌, ◌/◌, ◌%◌, ◌≡◌, ap, arith, IsU16}
use goqtt.Er.{ok, fail_if}
use goqtt.Packet.Acks.{
  PubackPacket, PubrecPacket, PubrelPacket, PubcompPacket, parse_puback, parse_pubrec, parse_pubrel,
  parse_pubcomp, encode_puback, encode_pubrec, encode_pubrel, encode_pubcomp,
}
use goqtt.Packet.Unsuback.{UnsubackPacket, parse_unsuback, encode_unsuback}
use goqtt.Slice.{index, slice, uint16}

two_bytes : (n : ℕ) → IsU16 n → n / 256 % 256 * 256 + n % 256 ≡ n
two_bytes n h = omega arith

pub parse_puback-encode_puback :
    (p : PubackPacket) → IsU16 p.packet_id → parse_puback (encode_puback p) ≡ ok p
unfolding parse_puback encode_puback fail_if index slice uint16
parse_puback-encode_puback p h =
    ap (λ (n : ℕ). ok (record p { packet_id = n })) (two_bytes p.packet_id h)

pub parse_pubrec-encode_pubrec :
    (p : PubrecPacket) → IsU16 p.packet_id → parse_pubrec (encode_pubrec p) ≡ ok p
unfolding parse_pubrec encode_pubrec fail_if index slice uint16
parse_pubrec-encode_pubrec p h =
    ap (λ (n : ℕ). ok (record p { packet_id = n })) (two_bytes p.packet_id h)

pub parse_pubrel-encode_pubrel :
    (p : PubrelPacket) → IsU16 p.packet_id → parse_pubrel (encode_pubrel p) ≡ ok p
unfolding parse_pubrel encode_pubrel fail_if index slice uint16
parse_pubrel-encode_pubrel p h =
    ap (λ (n : ℕ). ok (record p { packet_id = n })) (two_bytes p.packet_id h)

pub parse_pubcomp-encode_pubcomp :
    (p : PubcompPacket) → IsU16 p.packet_id → parse_pubcomp (encode_pubcomp p) ≡ ok p
unfolding parse_pubcomp encode_pubcomp fail_if index slice uint16
parse_pubcomp-encode_pubcomp p h =
    ap (λ (n : ℕ). ok (record p { packet_id = n })) (two_bytes p.packet_id h)

pub parse_unsuback-encode_unsuback :
    (p : UnsubackPacket) → IsU16 p.packet_id → parse_unsuback (encode_unsuback p) ≡ ok p
unfolding parse_unsuback encode_unsuback fail_if index slice uint16
parse_unsuback-encode_unsuback p h =
    ap (λ (n : ℕ). ok (record p { packet_id = n })) (two_bytes p.packet_id h)
