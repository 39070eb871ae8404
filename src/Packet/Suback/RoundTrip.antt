-- ===== src/Packet/Suback/RoundTrip.antt =====
-- SUBACK: the round trip, and the packets on which `SubackPacket.Parse` panics.
use goqtt.Base.{
  ℕ, ◌+◌, ◌-◌, ◌/◌, ◌≤◌, ◌<◌, ◌∷◌, ◌++◌, ◌≡◌, refl, arith, IsU16, IsByte, length, length-append,
  Bytes, take_all, le→not-ltb,
}
use goqtt.Base.Bits.{and_0xf0}
use goqtt.Base.Int.{pos}
use goqtt.Encoding.Length.Decode.{parse_remaining_length-encode, length-encode_remaining_length}
use goqtt.Encoding.Length.{max_remaining_length, encode_remaining_length, parse_remaining_length}
use goqtt.Er.{ok, panic, fail_if-step, bind-step}
use goqtt.Packet.Suback.{SubackPacket, parse_suback, encode_suback}
use goqtt.Slice.{At, At-next, At-whole, index-At, slice_rest-At, read_uint16-At, put_uint16, slice}

module _ (p : SubackPacket) (id : IsU16 p.packet_id)
    (fits : 2 + length p.return_codes ≤ max_remaining_length) where
  abbrev field : Bytes
  field = encode_remaining_length (pos (2 + length p.return_codes))

  abbrev body : Bytes
  body = put_uint16 p.packet_id ++ p.return_codes

  abbrev wire : Bytes
  wire = 0x90 ∷ (field ++ body)

  At-field : At wire 1 (field ++ body)
  At-field = record { dropped = refl; counted = omega arith }

  At-body : At wire (1 + length field) body
  At-body = At-next wire field body 1 (length field) refl At-field

  At-codes : At wire (1 + length field + 2) p.return_codes
  At-codes = At-next wire (put_uint16 p.packet_id) p.return_codes _ 2 refl At-body

  -- What the encoder writes of a SUBACK, with any return codes, the parser reads back.
  pub parse_suback-encode_suback : parse_suback (encode_suback p) ≡ ok p
  unfolding parse_suback encode_suback
  parse_suback-encode_suback =
      let width = length-encode_remaining_length (2 + length p.return_codes) fits in
      let count : 2 + length p.return_codes - 2 ≡ length p.return_codes = omega arith in
      fail_if-step _ _ _ _ (ground (arith, length-append field body)) λ _.
        bind-step _ _ (index-At wire (field ++ body) 0 _ (At-whole wire)) λ _.
          fail_if-step _ _ _ _ refl λ _.
            bind-step _ _ (slice_rest-At wire (field ++ body) 1 At-field) λ _.
              bind-step _ _ (parse_remaining_length-encode (2 + length p.return_codes) body fits)
                λ _. fail_if-step _ _ _ _ (ground (arith, length-append field body)) λ _.
                  bind-step _ _ (read_uint16-At wire p.return_codes _ p.packet_id id At-body) λ _.
                    bind-step _ _ (slice_rest-At wire p.return_codes _ At-codes) λ _. rw (
                      le→not-ltb (2 + length p.return_codes) 2 (omega arith),
                      count,
                      take_all p.return_codes,
                    )

-- A slice expression past the end panics.
slice-panic : (raw : Bytes) (low high : ℕ) → length raw < high → slice raw low high ≡ panic
unfolding slice
slice-panic raw low high h = ground arith

-- On a SUBACK of consistent length whose remaining length is 0 or 1, the parser panics.
pub parse_suback-panic :
    (b0 n width : ℕ) (rest : Bytes)
    → IsByte b0
    → b0 / 16 ≡ 9
    → 3 ≤ length rest
    → parse_remaining_length rest ≡ ok (n, width)
    → length rest ≡ width + n
    → n < 2
    → parse_suback (b0 ∷ rest) ≡ panic
unfolding parse_suback
parse_suback-panic b0 n width rest byte kind long field same short =
    fail_if-step _ _ _ _ (ground arith) λ _.
      bind-step _ _ (index-At (b0 ∷ rest) rest 0 b0 (At-whole (b0 ∷ rest))) λ _.
        fail_if-step _ _ _ _ (ground (arith, and_0xf0 b0 byte)) λ _.
          bind-step _ _
            (slice_rest-At (b0 ∷ rest) rest 1 (record { dropped = refl; counted = omega arith }))
            λ _. bind-step _ _ field λ _.
              fail_if-step _ _ _ _ (ground arith)
                λ _. rw (slice-panic (b0 ∷ rest) (1 + width) (1 + width + 2) (omega arith))
