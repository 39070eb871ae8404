-- ===== src/Packet/Parser/Dispatch.antt =====
-- `Parse` sets the one pointer that belongs to the packet's type.
use goqtt.Base.{◌∷◌, ℕ, ◌≡◌, refl, arith, ◌==◌, Bytes, bit_and, ltb, length}
use goqtt.Er.{
  short_buffer, fail_if, ok, WhenOk, given, not_given, WhenOk-bind, WhenOk-if, WhenOk-ok,
}
use goqtt.Packet.Parser.{index, ParsedPacket, is_some, parse, parse_body}
use goqtt.Slice.{index}
use goqtt.Packet.Types.{
  PacketType, connect_type, publish_type, puback_type, pubrec_type, pubrel_type, pubcomp_type,
  subscribe_type, suback_type, unsubscribe_type, unsuback_type, pingreq_type, disconnect_type,
}

-- Each pointer is set exactly if the type is its own.
pub record IsDispatched (p : ParsedPacket) : Type 0 where
  pub connect_set : is_some p.connect ≡ (p.packet_type == connect_type)
  pub publish_set : is_some p.publish ≡ (p.packet_type == publish_type)
  pub puback_set : is_some p.puback ≡ (p.packet_type == puback_type)
  pub pubrec_set : is_some p.pubrec ≡ (p.packet_type == pubrec_type)
  pub pubrel_set : is_some p.pubrel ≡ (p.packet_type == pubrel_type)
  pub pubcomp_set : is_some p.pubcomp ≡ (p.packet_type == pubcomp_type)
  pub subscribe_set : is_some p.subscribe ≡ (p.packet_type == subscribe_type)
  pub suback_set : is_some p.suback ≡ (p.packet_type == suback_type)
  pub unsubscribe_set : is_some p.unsubscribe ≡ (p.packet_type == unsubscribe_type)
  pub unsuback_set : is_some p.unsuback ≡ (p.packet_type == unsuback_type)
  pub pingreq_set : is_some p.pingreq ≡ (p.packet_type == pingreq_type)
  pub disconnect_set : is_some p.disconnect ≡ (p.packet_type == disconnect_type)

parse_body-IsDispatched :
    (new_uuid : Bytes) (packet_type : PacketType) (raw : Bytes)
    → WhenOk
        (λ p. IsDispatched p × (p.packet_type ≡ packet_type) × (p.raw ≡ raw))
        (parse_body new_uuid packet_type raw)
unfolding parse_body
parse_body-IsDispatched new_uuid packet_type raw =
    WhenOk-if (packet_type == connect_type)
      (λ e. WhenOk-bind _ _ λ pkt. given (ground arith, refl, refl))
      λ _.
        WhenOk-if (packet_type == publish_type)
          (λ e. WhenOk-bind _ _ λ pkt. given (ground arith, refl, refl))
          λ _.
            WhenOk-if (packet_type == puback_type)
              (λ e. WhenOk-bind _ _ λ pkt. given (ground arith, refl, refl))
              λ _.
                WhenOk-if (packet_type == pubrec_type)
                  (λ e. WhenOk-bind _ _ λ pkt. given (ground arith, refl, refl))
                  λ _.
                    WhenOk-if (packet_type == pubrel_type)
                      (λ e. WhenOk-bind _ _ λ pkt. given (ground arith, refl, refl))
                      λ _.
                        WhenOk-if (packet_type == pubcomp_type)
                          (λ e. WhenOk-bind _ _ λ pkt. given (ground arith, refl, refl))
                          λ _.
                            WhenOk-if (packet_type == subscribe_type)
                              (λ e. WhenOk-bind _ _ λ pkt. given (ground arith, refl, refl))
                              λ _.
                                WhenOk-if (packet_type == suback_type)
                                  (λ e. WhenOk-bind _ _ λ pkt. given (ground arith, refl, refl))
                                  λ _.
                                    WhenOk-if (packet_type == unsubscribe_type)
                                      (λ e. WhenOk-bind _ _ λ pkt. given (ground arith, refl, refl))
                                      λ _.
                                        WhenOk-if (packet_type == unsuback_type)
                                          (λ e.
                                            WhenOk-bind _ _ λ pkt. given (ground arith, refl, refl))
                                          λ _.
                                            WhenOk-if (packet_type == pingreq_type)
                                              (λ e.
                                                WhenOk-bind _ _
                                                  λ pkt. given (ground arith, refl, refl))
                                              λ _.
                                                WhenOk-if (packet_type == disconnect_type)
                                                  (λ e.
                                                    WhenOk-bind _ _
                                                      λ pkt. given (ground arith, refl, refl))
                                                  λ _. not_given

-- A packet that `Parse` returns keeps the buffer, has the high half of its first byte for a type,
-- and of its twelve pointers exactly the type's own is set.
pub parse-IsDispatched :
    (new_uuid rest : Bytes) (b0 : ℕ) (p : ParsedPacket)
    → parse new_uuid (b0 ∷ rest) ≡ ok p
    → IsDispatched p × (p.packet_type ≡ bit_and b0 0xF0) × (p.raw ≡ b0 ∷ rest)
unfolding parse index
parse-IsDispatched new_uuid rest b0 p e =
    WhenOk-ok p
      (WhenOk-bind (fail_if (ltb (length (b0 ∷ rest)) 1) "Parser" short_buffer) _
        λ _. parse_body-IsDispatched new_uuid (bit_and b0 0xF0) (b0 ∷ rest))
      e
