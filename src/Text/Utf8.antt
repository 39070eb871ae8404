-- ===== src/Text/Utf8.antt =====
-- `utf8.DecodeRuneInString`, `utf8.ValidString` and `for i, r := range s`.
use goqtt.Base.{
  ℕ, zero, suc, ◌+◌, ◌-◌, ◌*◌, ◌%◌, ◌≤◌, ◌<◌, Bool, true, false, not, ◌&&◌, ◌||◌, [], ◌∷◌, ◌≡◌,
  arith, leb, ltb, ◌==◌, if◌then◌else◌, List, Bytes, refl,
}
use goqtt.Text.{has_byte}

abbrev within : ℕ → ℕ → ℕ → Bool
within low high b = leb low b && leb b high

-- The rune and the width of a broken sequence.
abbrev broken : ℕ × ℕ
broken = (0xFFFD, 1)

-- The range of the second byte, which depends on the first.
abbrev second_low : ℕ → ℕ
second_low a = if a == 0xE0 then 0xA0 else if a == 0xF0 then 0x90 else 0x80

abbrev second_high : ℕ → ℕ
second_high a = if a == 0xED then 0x9F else if a == 0xF4 then 0x8F else 0xBF

two_bytes : ℕ → Bytes → ℕ × ℕ
two_bytes a (b ∷ _) = if within 0x80 0xBF b then (a % 32 * 64 + b % 64, 2) else broken
two_bytes a _ = broken

three_bytes : ℕ → Bytes → ℕ × ℕ
three_bytes a (b ∷ c ∷ _) =
    if within (second_low a) (second_high a) b && within 0x80 0xBF c
    then (a % 16 * 4096 + b % 64 * 64 + c % 64, 3)
    else broken
three_bytes a _ = broken

four_bytes : ℕ → Bytes → ℕ × ℕ
four_bytes a (b ∷ c ∷ d ∷ _) =
    if within (second_low a) (second_high a) b && within 0x80 0xBF c && within 0x80 0xBF d
    then (a % 8 * 262144 + b % 64 * 4096 + c % 64 * 64 + d % 64, 4)
    else broken
four_bytes a _ = broken

-- The rune at the front of `a ∷ rest`, and its width in bytes.
unfoldable pub decode_rune : ℕ → Bytes → ℕ × ℕ
unfolding two_bytes three_bytes four_bytes
decode_rune a rest =
    if ltb a 0x80
    then (a, 1)
    else if ltb a 0xC2
    then broken
    else if ltb a 0xE0
    then two_bytes a rest
    else if ltb a 0xF0
    then three_bytes a rest
    else if ltb a 0xF5
    then four_bytes a rest
    else broken

-- The pairs that `range` goes through; `skip` bytes still belong to the last rune.
unfoldable pub range_from : ℕ → ℕ → Bytes → List (ℕ × ℕ)
range_from skip i [] = []
range_from zero i (b ∷ bs) =
    (i, (decode_rune b bs).0) ∷ range_from ((decode_rune b bs).1 - 1) (i + 1) bs
range_from (suc skip) i (b ∷ bs) = range_from skip (i + 1) bs

abbrev pub range : Bytes → List (ℕ × ℕ)
range s = range_from 0 0 s

-- `[]rune(s)`
unfoldable pub runes_from : ℕ → Bytes → List ℕ
runes_from skip [] = []
runes_from zero (b ∷ bs) = (decode_rune b bs).0 ∷ runes_from ((decode_rune b bs).1 - 1) bs
runes_from (suc skip) (b ∷ bs) = runes_from skip bs

abbrev pub runes : Bytes → List ℕ
runes s = runes_from 0 s

unfoldable pub valid_from : ℕ → Bytes → Bool
valid_from skip [] = true
valid_from zero (b ∷ bs) =
    not ((decode_rune b bs).0 == 0xFFFD && (decode_rune b bs).1 == 1)
    && valid_from ((decode_rune b bs).1 - 1) bs
valid_from (suc skip) (b ∷ bs) = valid_from skip bs

-- `utf8.ValidString`
unfoldable pub valid_string : Bytes → Bool
valid_string s = valid_from 0 s

-- A loop over the runes that looks for one: `for _, r := range s { if p(r) { return true } }`.
unfoldable pub any_rune : (ℕ → Bool) → List ℕ → Bool
any_rune p [] = false
any_rune p (r ∷ rs) = p r || any_rune p rs

-- The next `k` bytes exist and are no ASCII characters.
abbrev pub Skips : ℕ → Bytes → Type 0
Skips zero bs = Unit
Skips (suc k) [] = ⊥
Skips (suc k) (b ∷ bs) = (0x80 ≤ b) × Skips k bs

-- An ASCII character is a rune of its own; any other rune is none, and takes no ASCII byte along.
pub decode_rune_ascii :
    (b : ℕ) (bs : Bytes)
    → (b < 0x80 → ((decode_rune b bs).0 ≡ b) × ((decode_rune b bs).1 ≡ 1))
      × (0x80 ≤ b → 0x80 ≤ (decode_rune b bs).0)
      × Skips ((decode_rune b bs).1 - 1) bs
unfolding decode_rune
decode_rune_ascii b [] = ground arith
decode_rune_ascii b (c ∷ []) = ground arith
decode_rune_ascii b (c ∷ d ∷ []) = ground arith
decode_rune_ascii b (c ∷ d ∷ e ∷ bs) = ground arith

-- A loop over the runes finds an ASCII character exactly if the byte is in the string.
pub any_rune-has_byte :
    (c skip : ℕ) (s : Bytes)
    → c < 0x80
    → Skips skip s
    → any_rune (λ r. r == c) (runes_from skip s) ≡ has_byte c s
unfolding any_rune runes_from has_byte
any_rune-has_byte c skip [] h k = refl
any_rune-has_byte c zero (b ∷ bs) h k = ground (
  arith,
  decode_rune_ascii b bs,
  any_rune-has_byte c ((decode_rune b bs).1 - 1) bs h (decode_rune_ascii b bs).2,
)
any_rune-has_byte c (suc skip) (b ∷ bs) h k = ground (arith, any_rune-has_byte c skip bs h k.1)
