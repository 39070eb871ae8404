-- ===== src/Encoding/Fields/Tests.antt =====
-- `ParseString` at a concrete input.
use goqtt.Base.{[], ◌∷◌, ◌++◌, ◌≡◌, refl, true, Bytes, arith}
use goqtt.Encoding.Fields.RoundTrip.{parse_string_of}
use goqtt.Encoding.Fields.{parse_string}
use goqtt.Er.{ok}
use goqtt.Slice.{put_uint16}
use goqtt.Text.Utf8.{valid_string, valid_from, decode_rune}

abbrev hi : Bytes
hi = b'h' ∷ b'i' ∷ []

hi_valid : valid_string hi ≡ true
unfolding valid_string valid_from decode_rune
hi_valid = refl

hi_is_read : parse_string (put_uint16 2 ++ (hi ++ 0 ∷ [])) ≡ ok (hi, 4)
hi_is_read = parse_string_of hi (0 ∷ []) (omega arith) hi_valid
