-- ===== src/Packet/Parser/RoundTrip.antt =====
-- `Parse` on the packets that the encoders write.
use goqtt.Base.{ℕ, ◌≡◌, Bytes, some, IsU16}
use goqtt.Er.{ok, fail_if}
use goqtt.Packet.Acks.RoundTrip.{
  parse_puback-encode_puback, parse_pubrec-encode_pubrec, parse_pubrel-encode_pubrel,
  parse_pubcomp-encode_pubcomp, parse_unsuback-encode_unsuback,
}
use goqtt.Packet.Acks.{encode_puback, encode_pubrec, encode_pubrel, encode_pubcomp}
use goqtt.Packet.Parser.{parse, parse_body, blank_packet}
use goqtt.Packet.Types.{puback_type, pubrec_type, pubrel_type, pubcomp_type, unsuback_type}
use goqtt.Packet.Unsuback.{encode_unsuback}
use goqtt.Slice.{index}

-- `Parse` reads back what the encoder of each acknowledgement writes, as a packet of its own type.
pub parse-encode_acks :
    (new_uuid : Bytes) (n : ℕ)
    → IsU16 n
    → (parse new_uuid (encode_puback (record { packet_id = n }))
        ≡ ok (record (blank_packet puback_type (encode_puback (record { packet_id = n }))) {
          puback = some (record { packet_id = n });
        }))
      × (parse new_uuid (encode_pubrec (record { packet_id = n }))
          ≡ ok (record (blank_packet pubrec_type (encode_pubrec (record { packet_id = n }))) {
            pubrec = some (record { packet_id = n });
          }))
      × (parse new_uuid (encode_pubrel (record { packet_id = n }))
          ≡ ok (record (blank_packet pubrel_type (encode_pubrel (record { packet_id = n }))) {
            pubrel = some (record { packet_id = n });
          }))
      × (parse new_uuid (encode_pubcomp (record { packet_id = n }))
          ≡ ok (record (blank_packet pubcomp_type (encode_pubcomp (record { packet_id = n }))) {
            pubcomp = some (record { packet_id = n });
          }))
      × (parse new_uuid (encode_unsuback (record { packet_id = n }))
          ≡ ok (record (blank_packet unsuback_type (encode_unsuback (record { packet_id = n }))) {
            unsuback = some (record { packet_id = n });
          }))
unfolding parse parse_body fail_if index encode_puback encode_pubrec encode_pubrel encode_pubcomp
    encode_unsuback
parse-encode_acks new_uuid n h = (
  rw (parse_puback-encode_puback (record { packet_id = n }) h),
  rw (parse_pubrec-encode_pubrec (record { packet_id = n }) h),
  rw (parse_pubrel-encode_pubrel (record { packet_id = n }) h),
  rw (parse_pubcomp-encode_pubcomp (record { packet_id = n }) h),
  rw (parse_unsuback-encode_unsuback (record { packet_id = n }) h),
)
