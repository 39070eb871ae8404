-- ===== src/Encoding/Topic.antt =====
-- internal/packet/utils/encoding.go: the rules on topic names and topic filters.
pub mod Levels
pub mod Rules
pub mod Tests
use goqtt.Base.{
  ℕ, zero, suc, ◌+◌, ◌-◌, Bool, true, false, not, ◌&&◌, ◌||◌, List, [], ◌∷◌, ◌++◌, ltb, leb, ◌==◌,
  ◌!=◌, if◌then◌else◌, length, Bytes,
}
use goqtt.Er.{
  Result, ok, fail, fail_if, ◌>>=◌, ◌>>◌, empty_topic_filter, invalid_utf8_topic,
  null_character_in_topic, empty_topic_level, empty_topic, control_character_in_topic,
  wildcards_not_allowed_in_publish, invalid_single_level_wildcard, invalid_multi_level_wildcard,
  multi_level_wildcard_not_last,
}
use goqtt.Slice.{slice}
use goqtt.Text.{bytes_eq}
use goqtt.Text.Utf8.{valid_string, any_rune, runes, range}

-- `topic[i] == '/' && topic[i+1] == '/'` for some `i`.
unfoldable pub consecutive_slashes : Bytes → Bool
consecutive_slashes [] = false
consecutive_slashes (a ∷ []) = false
consecutive_slashes (a ∷ b ∷ bs) = (a == b'/' && b == b'/') || consecutive_slashes (b ∷ bs)

-- `len(topic) > 0 && topic[len(topic)-1] == '/'`
unfoldable pub trailing_slash : Bytes → Bool
trailing_slash [] = false
trailing_slash (a ∷ []) = a == b'/'
trailing_slash (a ∷ b ∷ bs) = trailing_slash (b ∷ bs)

unfoldable pub has_empty_levels : Bytes → Bool
has_empty_levels topic = if consecutive_slashes topic then true else trailing_slash topic

unfoldable pub contains_wildcards : Bytes → Bool
contains_wildcards topic = any_rune (λ r. r == b'+' || r == b'#') (runes topic)

unfoldable pub contains_single_level_wildcard : Bytes → Bool
contains_single_level_wildcard level = any_rune (λ r. r == b'+') (runes level)

unfoldable pub contains_multi_level_wildcard : Bytes → Bool
contains_multi_level_wildcard level = any_rune (λ r. r == b'#') (runes level)

-- The loop of `splitTopicLevels` over what `range` has not reached.
unfoldable pub levels_loop : Bytes → List Bytes → ℕ → List (ℕ × ℕ) → Result (List Bytes)
levels_loop topic levels start [] = do
  last ← slice topic start (length topic)
  ok (levels ++ last ∷ [])
levels_loop topic levels start ((i, r) ∷ pairs) =
    let next = (do
      level ← slice topic start i
      levels_loop topic (levels ++ level ∷ []) (i + 1) pairs) in
    let more = levels_loop topic levels start pairs in if r == b'/' then next else more

unfoldable pub split_topic_levels : Bytes → Result (List Bytes)
split_topic_levels [] = ok []
split_topic_levels (b ∷ bs) = levels_loop (b ∷ bs) [] 0 (range (b ∷ bs))

-- The checks of one level; `last` is `i == len(levels)-1`.
unfoldable pub validate_level : Bytes → Bool → Result (Unit {0})
validate_level level last = do
  fail_if (contains_single_level_wildcard level && not (bytes_eq level (b'+' ∷ [])))
      "ValidateTopicFilter" invalid_single_level_wildcard
  fail_if (contains_multi_level_wildcard level && not (bytes_eq level (b'#' ∷ [])))
      "ValidateTopicFilter" invalid_multi_level_wildcard
  fail_if (contains_multi_level_wildcard level && not last) "ValidateTopicFilter"
      multi_level_wildcard_not_last

-- The loop of `validateWildcards`; `i == len(levels)-1` where nothing is left behind the level.
unfoldable pub validate_levels : List Bytes → Result (Unit {0})
validate_levels [] = ok tt
validate_levels (level ∷ []) = validate_level level true
validate_levels (level ∷ next ∷ levels) = do
  validate_level level false
  validate_levels (next ∷ levels)

unfoldable pub validate_wildcards : Bytes → Result (Unit {0})
validate_wildcards topic_filter = do
  levels ← split_topic_levels topic_filter
  validate_levels levels

abbrev is_empty : Bytes → Bool
is_empty s = length s == 0

unfoldable pub is_control : ℕ → Bool
is_control r = (leb 0x0001 r && leb r 0x001F) || (leb 0x007F r && leb r 0x009F)

unfoldable pub validate_topic_filter : Bytes → Result (Unit {0})
validate_topic_filter topic_filter = do
  fail_if (is_empty topic_filter) "ValidateTopicFilter" empty_topic_filter
  fail_if (not (valid_string topic_filter)) "ValidateTopicFilter" invalid_utf8_topic
  fail_if (any_rune (λ r. r == 0) (runes topic_filter)) "ValidateTopicFilter"
      null_character_in_topic
  fail_if (has_empty_levels topic_filter) "ValidateTopicFilter" empty_topic_level
  validate_wildcards topic_filter

unfoldable pub validate_topic_name : Bytes → Result (Unit {0})
validate_topic_name topic_name = do
  fail_if (is_empty topic_name) "ValidateTopicName" empty_topic
  fail_if (not (valid_string topic_name)) "ValidateTopicName" invalid_utf8_topic
  fail_if (any_rune (λ r. r == 0) (runes topic_name)) "ValidateTopicName" null_character_in_topic
  fail_if (any_rune is_control (runes topic_name)) "ValidateTopicName" control_character_in_topic
  fail_if (contains_wildcards topic_name) "ValidateTopicName" wildcards_not_allowed_in_publish
  fail_if (has_empty_levels topic_name) "ValidateTopicName" empty_topic_level
