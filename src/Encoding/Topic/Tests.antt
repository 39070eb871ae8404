-- ===== src/Encoding/Topic/Tests.antt =====
-- Runs of the topic validators, and their theorems at concrete inputs.
use goqtt.Base.{[], ◌∷◌, ◌≡◌, ◌≢◌, ◌↔◌, refl, Bytes, false, true}
use goqtt.Encoding.Topic.Rules.{
  validate_topic_filter_iff, validate_topic_name_iff, LaterNonempty, AreLevels, IsPlain,
}
use goqtt.Encoding.Topic.{validate_topic_filter, validate_topic_name, is_control}
use goqtt.Er.{ok}
use goqtt.Text.Split.{split}
use goqtt.Text.Utf8.{valid_string, any_rune, runes}
use goqtt.Text.{has_byte}

-- "a/+/é"
abbrev a_plus_e : Bytes
a_plus_e = b'a' ∷ b'/' ∷ b'+' ∷ b'/' ∷ 0xC3 ∷ 0xA9 ∷ []

-- "a/b"
abbrev a_b : Bytes
a_b = b'a' ∷ b'/' ∷ b'b' ∷ []

split-a_plus_e : split a_plus_e ≡ (b'a' ∷ []) ∷ (b'+' ∷ []) ∷ (0xC3 ∷ 0xA9 ∷ []) ∷ []
unfolding split
split-a_plus_e = refl

validate_topic_filter_iff_example :
    (validate_topic_filter a_plus_e ≡ ok tt)
    ↔ (a_plus_e ≢ [])
      × (valid_string a_plus_e ≡ true)
      × (has_byte 0 a_plus_e ≡ false)
      × LaterNonempty (split a_plus_e)
      × AreLevels (split a_plus_e)
validate_topic_filter_iff_example = validate_topic_filter_iff a_plus_e

validate_topic_name_iff_example :
    (validate_topic_name a_b ≡ ok tt)
    ↔ (a_b ≢ [])
      × (valid_string a_b ≡ true)
      × (has_byte 0 a_b ≡ false)
      × (any_rune is_control (runes a_b) ≡ false)
      × IsPlain a_b
      × LaterNonempty (split a_b)
validate_topic_name_iff_example = validate_topic_name_iff a_b
