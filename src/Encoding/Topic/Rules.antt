-- ===== src/Encoding/Topic/Rules.antt =====
-- What the validators of topic names and topic filters accept, told of the levels between
-- slashes.
use goqtt.Base.{
  ℕ, List, [], ◌∷◌, ◌≡◌, ◌≢◌, ◌↔◌, ◌⊎◌, refl, ◌∙◌, arith, ◌==◌, Bytes, Bool, true, false, ◌&&◌,
  ◌||◌, Bool-cases, inl, inr, All,
}
use goqtt.Encoding.Topic.{
  consecutive_slashes, trailing_slash, has_empty_levels, contains_wildcards,
  contains_single_level_wildcard, contains_multi_level_wildcard, validate_level, validate_levels,
  validate_wildcards, validate_topic_filter, validate_topic_name, is_control,
}
use goqtt.Encoding.Topic.Levels.{split_topic_levels-split}
use goqtt.Er.{fail_if, ok}
use goqtt.Text.{bytes_eq_iff, has_byte}
use goqtt.Text.Split.{split, put_front}
use goqtt.Text.Utf8.{any_rune, runes, any_rune-has_byte, valid_string}

abbrev pub IsPlain : Bytes → Type 0
IsPlain level = (has_byte b'+' level ≡ false) × (has_byte b'#' level ≡ false)

-- A wildcard stands alone in its level, and `#` in the last one.
abbrev pub IsLevel : Bytes → Bool → Type 0
IsLevel level last = (level ≡ b'+' ∷ []) ⊎ ((level ≡ b'#' ∷ []) × (last ≡ true)) ⊎ IsPlain level

abbrev pub AreLevels : List Bytes → Type 0
AreLevels [] = Unit
AreLevels (level ∷ []) = IsLevel level true
AreLevels (level ∷ next ∷ levels) = IsLevel level false × AreLevels (next ∷ levels)

single-has_byte : (level : Bytes) → contains_single_level_wildcard level ≡ has_byte b'+' level
unfolding contains_single_level_wildcard
single-has_byte level = any_rune-has_byte b'+' 0 level (omega arith) tt

multi-has_byte : (level : Bytes) → contains_multi_level_wildcard level ≡ has_byte b'#' level
unfolding contains_multi_level_wildcard
multi-has_byte level = any_rune-has_byte b'#' 0 level (omega arith) tt

has_byte_plus : (has_byte b'+' (b'+' ∷ []) ≡ true) × (has_byte b'#' (b'+' ∷ []) ≡ false)
unfolding has_byte
has_byte_plus = (refl, refl)

pub has_byte_hash : (has_byte b'+' (b'#' ∷ []) ≡ false) × (has_byte b'#' (b'#' ∷ []) ≡ true)
unfolding has_byte
has_byte_hash = (refl, refl)

validate_level_iff :
    (level : Bytes) (last : Bool) → (validate_level level last ≡ ok tt) ↔ IsLevel level last
unfolding validate_level fail_if
validate_level_iff level last = ground (
  arith,
  single-has_byte level,
  multi-has_byte level,
  bytes_eq_iff level (b'+' ∷ []),
  bytes_eq_iff level (b'#' ∷ []),
  has_byte_plus,
  has_byte_hash,
)

validate_levels_iff : (levels : List Bytes) → (validate_levels levels ≡ ok tt) ↔ AreLevels levels
unfolding validate_levels
validate_levels_iff [] = ((λ _. tt), (λ _. refl))
validate_levels_iff (level ∷ []) = validate_level_iff level true
validate_levels_iff (level ∷ next ∷ levels) =
    ground (arith, validate_level_iff level false, validate_levels_iff (next ∷ levels))

abbrev pub Nonempty : Bytes → Type 0
Nonempty [] = ⊥
Nonempty (_ ∷ _) = Unit

-- Only the first level may be empty.
abbrev pub LaterNonempty : List Bytes → Type 0
LaterNonempty [] = Unit
LaterNonempty (_ ∷ levels) = All Nonempty levels

LaterNonempty-put_front :
    (a : ℕ) (xs : List Bytes) → (LaterNonempty (put_front (a ∷ []) xs) ↔ LaterNonempty xs)
LaterNonempty-put_front a [] = ((λ _. tt), (λ _. tt))
LaterNonempty-put_front a (x ∷ xs) = ((λ h. h), (λ h. h))

All-put_front : (a : ℕ) (xs : List Bytes) → All Nonempty (put_front (a ∷ []) xs) ↔ LaterNonempty xs
All-put_front a [] = ((λ _. tt), (λ _. (tt, tt)))
All-put_front a (x ∷ xs) = ((λ h. h.1), (λ h. (tt, h)))

-- All levels of `b ∷ bs` are nonempty if it starts with none that is empty.
All-split :
    (b : ℕ) (bs : Bytes)
    → All Nonempty (split (b ∷ bs)) ↔ ((b == b'/') ≡ false) × LaterNonempty (split (b ∷ bs))
unfolding split
All-split b bs = elim (Bool-cases (b == b'/')) [
  | inl slash ↦ rw slash ((λ h. absurd h.0), (λ h. cc (h.0)))
  | inr other ↦ rw other (
    (λ h. (refl, (LaterNonempty-put_front b (split bs)).1 ((All-put_front b (split bs)).0 h))),
    (λ h. (All-put_front b (split bs)).1 ((LaterNonempty-put_front b (split bs)).0 h.1)),
  )
]

has_empty_levels_cons :
    (a b : ℕ) (bs : Bytes)
    → has_empty_levels (a ∷ b ∷ bs) ≡ ((a == b'/' && b == b'/') || has_empty_levels (b ∷ bs))
unfolding has_empty_levels consecutive_slashes trailing_slash
has_empty_levels_cons a b bs = ground arith

split_slash : (a : ℕ) (s : Bytes) → (a == b'/') ≡ true → split (a ∷ s) ≡ [] ∷ split s
unfolding split
split_slash a s h = rw h

split_other :
    (a : ℕ) (s : Bytes) → (a == b'/') ≡ false → split (a ∷ s) ≡ put_front (a ∷ []) (split s)
unfolding split
split_other a s h = rw h

-- A topic has an empty level, in the sense of the source, exactly if a level but the first is
-- empty.
pub has_empty_levels_iff : (s : Bytes) → (has_empty_levels s ≡ false) ↔ LaterNonempty (split s)
has_empty_levels_iff [] =
    unfold has_empty_levels consecutive_slashes trailing_slash split in ((λ _. tt), (λ _. refl))
has_empty_levels_iff (a ∷ []) = elim (Bool-cases (a == b'/')) [
  | inl slash ↦
      unfold has_empty_levels consecutive_slashes trailing_slash split in
      rw slash ((λ h. cc h), (λ h. absurd h.0))
  | inr other ↦
      unfold has_empty_levels consecutive_slashes trailing_slash split in
      rw other ((λ _. tt), (λ _. refl))
]
has_empty_levels_iff (a ∷ b ∷ bs) = elim (Bool-cases (a == b'/')) [
  | inl slash ↦
      rw (has_empty_levels_cons a b bs, slash)
        (rw (split_slash a (b ∷ bs) slash)
          (ground (arith, All-split b bs, has_empty_levels_iff (b ∷ bs))))
  | inr other ↦
      rw (has_empty_levels_cons a b bs, other)
        (rw (split_other a (b ∷ bs) other) (
          ground
            (arith, LaterNonempty-put_front a (split (b ∷ bs)), has_empty_levels_iff (b ∷ bs))))
]

any_rune-or :
    (p q : ℕ → Bool) (rs : List ℕ)
    → any_rune (λ r. p r || q r) rs ≡ (any_rune p rs || any_rune q rs)
unfolding any_rune
any_rune-or p q [] = refl
any_rune-or p q (r ∷ rs) = ground (arith, any_rune-or p q rs)

contains_wildcards-has_byte :
    (topic : Bytes) → contains_wildcards topic ≡ (has_byte b'+' topic || has_byte b'#' topic)
unfolding contains_wildcards
contains_wildcards-has_byte topic =
    any_rune-or (λ r. r == b'+') (λ r. r == b'#') (runes topic)
    ∙ rw (
      any_rune-has_byte b'+' 0 topic (omega arith) tt,
      any_rune-has_byte b'#' 0 topic (omega arith) tt,
    )

validate_wildcards_iff :
    (b : ℕ) (bs : Bytes) → (validate_wildcards (b ∷ bs) ≡ ok tt) ↔ AreLevels (split (b ∷ bs))
unfolding validate_wildcards
validate_wildcards_iff b bs =
    rw (split_topic_levels-split b bs) (validate_levels_iff (split (b ∷ bs)))

-- A topic filter is accepted exactly if it is not empty, is UTF-8, holds no null character, has
-- no empty level but perhaps the first, and has its wildcards alone in their levels, `#` in the
-- last.
pub validate_topic_filter_iff :
    (f : Bytes)
    → (validate_topic_filter f ≡ ok tt)
      ↔ (f ≢ [])
        × (valid_string f ≡ true)
        × (has_byte 0 f ≡ false)
        × LaterNonempty (split f)
        × AreLevels (split f)
unfolding validate_topic_filter fail_if
validate_topic_filter_iff [] = ground arith
validate_topic_filter_iff (b ∷ bs) = ground (
  arith,
  any_rune-has_byte 0 0 (b ∷ bs),
  has_empty_levels_iff (b ∷ bs),
  validate_wildcards_iff b bs,
)

-- A topic name is accepted exactly if it is not empty, is UTF-8, holds no null or control
-- character and no wildcard, and has no empty level but perhaps the first.
pub validate_topic_name_iff :
    (name : Bytes)
    → (validate_topic_name name ≡ ok tt)
      ↔ (name ≢ [])
        × (valid_string name ≡ true)
        × (has_byte 0 name ≡ false)
        × (any_rune is_control (runes name) ≡ false)
        × IsPlain name
        × LaterNonempty (split name)
unfolding validate_topic_name fail_if
validate_topic_name_iff [] = ground arith
validate_topic_name_iff (b ∷ bs) = ground (
  arith,
  any_rune-has_byte 0 0 (b ∷ bs),
  has_empty_levels_iff (b ∷ bs),
  contains_wildcards-has_byte (b ∷ bs),
)

IsPlain-put_front :
    (b : ℕ) (xs : List Bytes)
    → ((b == b'+') ≡ false)
    → ((b == b'#') ≡ false)
    → All IsPlain xs
    → All IsPlain (put_front (b ∷ []) xs)
unfolding has_byte
IsPlain-put_front b [] p h a = ground arith
IsPlain-put_front b (x ∷ xs) p h a = ground arith

-- Between the slashes of a name with no wildcard there is none.
pub All-IsPlain-split : (name : Bytes) → IsPlain name → All IsPlain (split name)
unfolding has_byte split
All-IsPlain-split [] h = ground arith
All-IsPlain-split (b ∷ bs) h = ground (arith, All-IsPlain-split bs, IsPlain-put_front b (split bs))
