-- ===== src/Encoding/Length.antt =====
-- internal/packet/utils/encoding.go: `EncodeRemainingLength`, `ParseRemainingLength` and
-- `CalculateFixedHeaderSize`.
pub mod Encode
pub mod Decode
pub mod Field
pub mod Tests
use goqtt.Base.{
  ℕ, zero, suc, ◌+◌, ◌*◌, ◌/◌, ◌%◌, List, [], ◌∷◌, ◌++◌, ltb, leb, ◌==◌, if◌then◌else◌, length,
  Bytes, bit_and, bit_or,
}
use goqtt.Base.Int.{ℤ, pos, negsuc}
use goqtt.Er.{Result, ok, fail, short_buffer, remaining_length_exceeded}

abbrev pub max_remaining_length : ℕ
max_remaining_length = 268435455

-- The loop of `EncodeRemainingLength`: `rounds` is what is left of the four bytes, after which
-- the source breaks off too.
unfoldable pub encode_loop : ℕ → ℕ → Bytes → Bytes
encode_loop zero n encoded = encoded
encode_loop (suc rounds) n encoded =
    let encoded_byte = n % 128 in
    let n' = n / 128 in
    let marked = if ltb 0 n' then bit_or encoded_byte 128 else encoded_byte in
    let encoded' = encoded ++ marked ∷ [] in
    let more = encode_loop rounds n' encoded' in
    if n' == 0 then encoded' else if leb 4 (length encoded') then encoded' else more

unfoldable pub encode_remaining_length : ℤ → Bytes
encode_remaining_length (negsuc n) = 0 ∷ []
encode_remaining_length (pos n) = encode_loop 4 n []

-- The loop of `ParseRemainingLength` over what `data[offset:]` holds.
unfoldable pub parse_loop : Bytes → ℕ → ℕ → ℕ → Result (ℕ × ℕ)
parse_loop [] offset total multiplier = fail "ParseRemainingLength" short_buffer
parse_loop (encoded_byte ∷ rest) offset total multiplier =
    let total' = total + bit_and encoded_byte 0x7F * multiplier in
    let more = parse_loop rest (offset + 1) total' (multiplier * 128) in
    if leb 4 offset
    then fail "ParseRemainingLength" remaining_length_exceeded
    else if ltb max_remaining_length total'
    then fail "ParseRemainingLength" remaining_length_exceeded
    else if bit_and encoded_byte 0x80 == 0
    then ok (total', offset + 1)
    else more

-- The length and the number of bytes that it took.
unfoldable pub parse_remaining_length : Bytes → Result (ℕ × ℕ)
parse_remaining_length bytes = parse_loop bytes 0 0 1

unfoldable pub calculate_fixed_header_size : ℤ → ℕ
calculate_fixed_header_size n = 1 + length (encode_remaining_length n)
