-- ===== src/Packet/Filter.antt =====
-- internal/packet/subscribe.go: `validateTopicFilter` and `validateWildcards`;
-- internal/packet/unsubscribe.go: `validateUnsubscribeTopicFilter`.
pub mod Safe
use goqtt.Base.{
  ℕ, Bool, true, false, not, List, [], ◌∷◌, ◌==◌, ◌!=◌, if◌then◌else◌, Bytes, Option, none, some,
}
use goqtt.Encoding.Topic.{is_control}
use goqtt.Er.{
  Result, ok, fail_if, ◌>>◌, multi_level_wildcard_not_last, multi_level_wildcard_not_alone,
  single_level_wildcard_not_alone, invalid_utf8_topic_filter, null_character_in_topic_filter,
  control_character_in_topic_filter,
}
use goqtt.Text.Utf8.{valid_string, any_rune, runes}

-- There is a rune on that side, and it is no slash: `i > 0 && runes[i-1] != '/'` and
-- `i < length-1 && runes[i+1] != '/'`.
abbrev pub touches : Option ℕ → Bool
touches none = false
touches (some r) = r != b'/'

abbrev pub head_rune : List ℕ → Option ℕ
head_rune [] = none
head_rune (r ∷ _) = some r

abbrev pub is_last : List ℕ → Bool
is_last [] = true
is_last (_ ∷ _) = false

-- The checks of one rune between the one before it and the runes behind it.
unfoldable pub validate_rune : Option ℕ → ℕ → List ℕ → Result (Unit {0})
validate_rune before r behind =
    if r == b'#'
    then (do
      fail_if (not (is_last behind)) "Subscribe, Topic Filter Wildcard"
          multi_level_wildcard_not_last
      fail_if (touches before) "Subscribe, Topic Filter Wildcard" multi_level_wildcard_not_alone)
    else if r == b'+'
    then (do
      fail_if (touches before) "Subscribe, Topic Filter Wildcard" single_level_wildcard_not_alone
      fail_if (touches (head_rune behind)) "Subscribe, Topic Filter Wildcard"
          single_level_wildcard_not_alone)
    else ok tt

unfoldable pub validate_runes : Option ℕ → List ℕ → Result (Unit {0})
validate_runes before [] = ok tt
validate_runes before (r ∷ behind) = do
  validate_rune before r behind
  validate_runes (some r) behind

unfoldable pub validate_wildcards : Bytes → Result (Unit {0})
validate_wildcards topic_filter = validate_runes none (runes topic_filter)

unfoldable pub validate_topic_filter : Bytes → Result (Unit {0})
validate_topic_filter topic_filter = do
  fail_if (not (valid_string topic_filter)) "Subscribe, Topic Filter" invalid_utf8_topic_filter
  fail_if (any_rune (λ r. r == 0) (runes topic_filter)) "Subscribe, Topic Filter"
      null_character_in_topic_filter
  fail_if (any_rune is_control (runes topic_filter)) "Subscribe, Topic Filter"
      control_character_in_topic_filter
  validate_wildcards topic_filter

unfoldable pub validate_unsubscribe_topic_filter : Bytes → Result (Unit {0})
validate_unsubscribe_topic_filter topic_filter = do
  fail_if (not (valid_string topic_filter)) "Unsubscribe, Topic Filter" invalid_utf8_topic_filter
  fail_if (any_rune (λ r. r == 0) (runes topic_filter)) "Unsubscribe, Topic Filter"
      null_character_in_topic_filter
  fail_if (any_rune is_control (runes topic_filter)) "Unsubscribe, Topic Filter"
      control_character_in_topic_filter
  validate_wildcards topic_filter
