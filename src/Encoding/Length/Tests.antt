-- ===== src/Encoding/Length/Tests.antt =====
-- Runs of the remaining-length codec, and its theorems at concrete inputs.
use goqtt.Base.Int.{pos, negsuc}
use goqtt.Base.{ℕ, [], ◌∷◌, ◌++◌, ◌≡◌, ◌↔◌, ◌≤◌, refl, arith, length}
use goqtt.Encoding.Length.Decode.{parse_remaining_length-encode}
use goqtt.Encoding.Length.Field.{
  IsField, value, parse_remaining_length_iff, parse_remaining_length_oversized,
}
use goqtt.Encoding.Length.{encode_remaining_length, encode_loop, parse_remaining_length}
use goqtt.Er.{ok, fail, short_buffer, remaining_length_exceeded}

encode_321 : encode_remaining_length (pos 321) ≡ 0xc1 ∷ 2 ∷ []
unfolding encode_remaining_length encode_loop
encode_321 = refl

encode_negative : encode_remaining_length (negsuc 4) ≡ 0 ∷ []
unfolding encode_remaining_length encode_loop
encode_negative = refl

parse_remaining_length-encode_example :
    parse_remaining_length (encode_remaining_length (pos 321) ++ 7 ∷ [])
    ≡ ok (321, length (encode_remaining_length (pos 321)))
parse_remaining_length-encode_example = parse_remaining_length-encode 321 (7 ∷ []) (omega arith)

parse_remaining_length_iff_example :
    (parse_remaining_length (0xc1 ∷ 2 ∷ 9 ∷ []) ≡ ok (321, 2))
    ↔ (IsField (0xc1 ∷ 2 ∷ []) × (2 ≤ 3) × (2 ≤ 4) × (321 ≡ value (0xc1 ∷ 2 ∷ [])))
parse_remaining_length_iff_example =
    parse_remaining_length_iff (0xc1 ∷ 2 ∷ 9 ∷ []) 321 2 (omega arith)

parse_remaining_length_oversized_example :
    (parse_remaining_length (encode_remaining_length (pos 268435456))
      ≡ fail "ParseRemainingLength" short_buffer)
    × ((b : ℕ)
        → parse_remaining_length (encode_remaining_length (pos 268435456) ++ b ∷ [])
          ≡ fail "ParseRemainingLength" remaining_length_exceeded)
parse_remaining_length_oversized_example =
    parse_remaining_length_oversized 268435456 [] (omega arith)
