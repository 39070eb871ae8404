-- ===== src/Packet/Filter/Safe.antt =====
-- The filter validators of the packet parsers return on every string.
use goqtt.Base.{ℕ, List, [], ◌∷◌, Bytes, Option, some, ◌==◌}
use goqtt.Er.{Ensures, done, Ensures-bind, Ensures-fail_if, Ensures-if, fail_if-Ensures}
use goqtt.Packet.Filter.{
  validate_rune, validate_runes, validate_wildcards, validate_topic_filter,
  validate_unsubscribe_topic_filter,
}

validate_rune-Ensures :
    (before : Option ℕ) (r : ℕ) (behind : List ℕ)
    → Ensures (λ _. Unit {0}) (validate_rune before r behind)
unfolding validate_rune
validate_rune-Ensures before r behind =
    Ensures-if (r == b'#') (λ _. Ensures-fail_if _ _ _ _ λ _. fail_if-Ensures _ _ _)
      λ _.
        Ensures-if (r == b'+') (λ _. Ensures-fail_if _ _ _ _ λ _. fail_if-Ensures _ _ _)
          λ _. done tt

validate_runes-Ensures :
    (before : Option ℕ) (rs : List ℕ) → Ensures (λ _. Unit {0}) (validate_runes before rs)
unfolding validate_runes
validate_runes-Ensures before [] = done tt
validate_runes-Ensures before (r ∷ rs) =
    Ensures-bind _ _ (validate_rune-Ensures before r rs) λ _ _ _. validate_runes-Ensures (some r) rs

pub validate_topic_filter-Ensures : (f : Bytes) → Ensures (λ _. Unit {0}) (validate_topic_filter f)
unfolding validate_topic_filter validate_wildcards
validate_topic_filter-Ensures f =
    Ensures-fail_if _ _ _ _
      λ _. Ensures-fail_if _ _ _ _ λ _. Ensures-fail_if _ _ _ _ λ _. validate_runes-Ensures _ _

pub validate_unsubscribe_topic_filter-Ensures :
    (f : Bytes) → Ensures (λ _. Unit {0}) (validate_unsubscribe_topic_filter f)
unfolding validate_unsubscribe_topic_filter validate_wildcards
validate_unsubscribe_topic_filter-Ensures f =
    Ensures-fail_if _ _ _ _
      λ _. Ensures-fail_if _ _ _ _ λ _. Ensures-fail_if _ _ _ _ λ _. validate_runes-Ensures _ _
