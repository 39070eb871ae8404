-- ===== src/Encoding/Length/Field.antt =====
-- The remaining-length field as the standard describes it, and `ParseRemainingLength` as its
-- decision procedure; what the encoder does with a length that does not fit.
use goqtt.Base.{
  ◌==◌, ltb, leb, ℕ, zero, suc, ◌+◌, ◌*◌, ◌/◌, ◌%◌, ◌≤◌, ◌<◌, [], ◌∷◌, ◌++◌, ◌≡◌, refl, ap, ◌∙◌,
  arith, length, take, drop, All, All-take, take-append-drop, length-take, ◌↔◌, Bytes, IsByte,
  bit_and,
}
use goqtt.Base.Bits.{and_0x7f, and_0x80, or_0x80}
use goqtt.Base.Int.{pos}
use goqtt.Encoding.Length.{
  max_remaining_length, encode_loop, encode_remaining_length, parse_loop, parse_remaining_length,
}
use goqtt.Encoding.Length.Decode.{parse_loop-inner}
use native.Mathlib.Nat.{zero-add}
use goqtt.Er.{
  Ensures-if, Ensures, Ensures-facts, done, failed, ok, fail, short_buffer,
  remaining_length_exceeded,
}

-- A field: every byte but the last has its top bit set.
abbrev pub IsField : Bytes → Type 0
IsField [] = ⊥
IsField (b ∷ []) = b < 128
IsField (b ∷ c ∷ bs) = (128 ≤ b) × IsField (c ∷ bs)

-- Its value, seven bits to a byte, lowest first.
abbrev pub value : Bytes → ℕ
value [] = 0
value (b ∷ bs) = b % 128 + 128 * value bs

IsField-cons : (b : ℕ) (bs : Bytes) → 128 ≤ b → IsField bs → IsField (b ∷ bs)
IsField-cons b [] h f = absurd f
IsField-cons b (c ∷ bs) h f = (h, f)

pub parse_loop_takes :
    (bytes : Bytes) (offset total multiplier n k : ℕ)
    → parse_loop bytes offset total multiplier ≡ ok (n, k)
    → offset < k
unfolding parse_loop
parse_loop_takes [] offset total multiplier n k e = cc
parse_loop_takes (b ∷ bs) offset total multiplier n k e = ground (
  arith,
  parse_loop_takes bs (offset + 1) (total + bit_and b 0x7F * multiplier) (multiplier * 128) n k,
)

parse_loop_sound :
    (bytes : Bytes) (w offset total multiplier n : ℕ)
    → All IsByte bytes
    → parse_loop bytes offset total multiplier ≡ ok (n, offset + w)
    → IsField (take w bytes)
      × (w ≤ length bytes)
      × (offset + w ≤ 4)
      × (n ≡ total + value (take w bytes) * multiplier)
unfolding parse_loop
parse_loop_sound [] w offset total multiplier n hb e = cc
parse_loop_sound (b ∷ bs) zero offset total multiplier n hb e =
    absurd (omega (arith, parse_loop_takes (b ∷ bs) offset total multiplier n (offset + 0) e))
parse_loop_sound (b ∷ bs) (suc zero) offset total multiplier n hb e =
    let total' = total + bit_and b 0x7F * multiplier in
    ground (
      arith,
      and_0x7f b,
      and_0x80 b,
      parse_loop_takes bs (offset + 1) total' (multiplier * 128) n (offset + 1),
    )
parse_loop_sound (b ∷ bs) (suc (suc w)) offset total multiplier n hb e =
    let total' = total + bit_and b 0x7F * multiplier in
    ground (
      arith,
      and_0x7f b,
      and_0x80 b,
      parse_loop_sound bs (suc w) (offset + 1) total' (multiplier * 128) n hb.1,
      IsField-cons b (take (suc w) bs),
    )

parse_loop_complete :
    (field rest : Bytes) (offset total multiplier : ℕ)
    → All IsByte field
    → IsField field
    → offset + length field ≤ 4
    → total + value field * multiplier ≤ max_remaining_length
    → parse_loop (field ++ rest) offset total multiplier
      ≡ ok (total + value field * multiplier, offset + length field)
unfolding parse_loop
parse_loop_complete [] rest offset total multiplier hb f room fits = absurd f
parse_loop_complete (b ∷ []) rest offset total multiplier hb f room fits =
    ground (arith, and_0x7f b, and_0x80 b)
parse_loop_complete (b ∷ c ∷ bs) rest offset total multiplier hb f room fits =
    let total' = total + b % 128 * multiplier in
    ground (
      arith,
      and_0x7f b,
      and_0x80 b,
      parse_loop_complete (c ∷ bs) rest (offset + 1) total' (multiplier * 128) hb.1 f.1,
    )

-- The greatest value of `k` bytes.
abbrev greatest : ℕ → ℕ
greatest zero = 0
greatest (suc k) = 127 + 128 * greatest k

value-le-greatest : (k : ℕ) (field : Bytes) → length field ≤ k → value field ≤ greatest k
value-le-greatest k [] h = omega arith
value-le-greatest zero (b ∷ bs) h = elim h [ ]
value-le-greatest (suc k) (b ∷ bs) h = omega (arith, value-le-greatest k bs (omega arith))

-- `ParseRemainingLength` answers `(n, k)` exactly when the first `k` bytes, four at most, form a
-- field of value `n`: it accepts all fields and nothing else.
pub parse_remaining_length_iff :
    (bytes : Bytes) (n k : ℕ)
    → All IsByte bytes
    → (parse_remaining_length bytes ≡ ok (n, k))
      ↔ (IsField (take k bytes) × (k ≤ length bytes) × (k ≤ 4) × (n ≡ value (take k bytes)))
parse_remaining_length_iff bytes n k hb = (sound, complete)
  where
    sound :
        parse_remaining_length bytes ≡ ok (n, k)
        → IsField (take k bytes) × (k ≤ length bytes) × (k ≤ 4) × (n ≡ value (take k bytes))
    sound e =
        let (f, inside, four, same) =
          parse_loop_sound bytes k 0 0 1 n hb (unfold parse_remaining_length in (rw zero-add e)) in
        (f, inside, omega (arith, four), omega (arith, same))

    complete :
        IsField (take k bytes) × (k ≤ length bytes) × (k ≤ 4) × (n ≡ value (take k bytes))
        → parse_remaining_length bytes ≡ ok (n, k)
    complete (f, inside, four, same) =
        let width : length (take k bytes) ≡ k = length-take k bytes inside in
        let fits : value (take k bytes) ≤ max_remaining_length =
          value-le-greatest 4 (take k bytes) (omega arith) in
        let run : parse_loop (take k bytes ++ drop k bytes) 0 0 1
            ≡ ok (0 + value (take k bytes) * 1, 0 + length (take k bytes)) =
          parse_loop_complete (take k bytes) (drop k bytes) 0 0 1 (All-take IsByte k bytes hb) f
            (omega arith) (omega arith) in
        unfold parse_remaining_length in
        (rw take-append-drop at run
          ∙ ap ok (
              let a : 0 + value (take k bytes) * 1 ≡ n = omega arith in
              let b : 0 + length (take k bytes) ≡ k = omega arith in rw (a, b)))

-- The encoder's four bytes for a length above the maximum: all have the top bit set.
encode_oversized :
    (n : ℕ)
    → max_remaining_length < n
    → encode_remaining_length (pos n)
      ≡ (n % 128 + 128)
        ∷ (n / 128 % 128 + 128)
        ∷ (n / 128 / 128 % 128 + 128)
        ∷ (n / 128 / 128 / 128 % 128 + 128)
        ∷ []
unfolding encode_remaining_length encode_loop
encode_oversized n h = ground (
  arith,
  or_0x80 (n % 128),
  or_0x80 (n / 128 % 128),
  or_0x80 (n / 128 / 128 % 128),
  or_0x80 (n / 128 / 128 / 128 % 128),
)

-- A length above the maximum is cut to four bytes that no parser accepts: the parser runs out
-- of bytes, or refuses the fifth.
pub parse_remaining_length_oversized :
    (n : ℕ) (rest : Bytes)
    → max_remaining_length < n
    → (parse_remaining_length (encode_remaining_length (pos n))
        ≡ fail "ParseRemainingLength" short_buffer)
      × ((b : ℕ)
          → parse_remaining_length (encode_remaining_length (pos n) ++ b ∷ rest)
            ≡ fail "ParseRemainingLength" remaining_length_exceeded)
unfolding parse_remaining_length
parse_remaining_length_oversized n rest h =
    rw (encode_oversized n h)
      (run [] ∙ unfold parse_loop in refl, λ b. run (b ∷ rest) ∙ unfold parse_loop in refl)
  where
    run :
        (more : Bytes)
        → parse_loop
            ((n % 128 + 128)
              ∷ (n / 128 % 128 + 128)
              ∷ (n / 128 / 128 % 128 + 128)
              ∷ (n / 128 / 128 / 128 % 128 + 128)
              ∷ more)
            0
            0
            1
          ≡ parse_loop more 4
              (0
                + n % 128 * 1
                + n / 128 % 128 * 128
                + n / 128 / 128 % 128 * (128 * 128)
                + n / 128 / 128 / 128 % 128 * (128 * 128 * 128))
              (128 * 128 * 128 * 128)
    run more =
        parse_loop-inner _ _ _ _ _ (omega arith) (omega arith) (omega arith)
        ∙ parse_loop-inner _ _ _ _ _ (omega arith) (omega arith) (omega arith)
        ∙ parse_loop-inner _ _ _ _ _ (omega arith) (omega arith) (omega arith)
        ∙ parse_loop-inner _ _ _ _ _ (omega arith) (omega arith) (omega arith)

parse_loop-Ensures :
    (bytes : Bytes) (offset total multiplier : ℕ)
    → Ensures (λ _. Unit {0}) (parse_loop bytes offset total multiplier)
unfolding parse_loop
parse_loop-Ensures [] offset total multiplier = failed
parse_loop-Ensures (b ∷ bs) offset total multiplier =
    let total' = total + bit_and b 0x7F * multiplier in
    Ensures-if (leb 4 offset) (λ _. failed)
      λ _.
        Ensures-if (ltb max_remaining_length total') (λ _. failed)
          λ _.
            Ensures-if (bit_and b 0x80 == 0) (λ _. done tt)
              λ _. parse_loop-Ensures bs (offset + 1) total' (multiplier * 128)

parse_remaining_length-returns :
    (bytes : Bytes) → Ensures (λ _. Unit {0}) (parse_remaining_length bytes)
unfolding parse_remaining_length
parse_remaining_length-returns bytes = parse_loop-Ensures bytes 0 0 1

-- The parser always returns; a length that it reads is at most the maximum, and takes one to four
-- of the bytes given.
pub parse_remaining_length-Ensures :
    (bytes : Bytes)
    → All IsByte bytes
    → Ensures
        (λ p. (p.0 ≤ max_remaining_length) × (1 ≤ p.1) × (p.1 ≤ 4) × (p.1 ≤ length bytes))
        (parse_remaining_length bytes)
parse_remaining_length-Ensures bytes hb =
    Ensures-facts (parse_remaining_length bytes) (parse_remaining_length-returns bytes) facts
  where
    positive : (k : ℕ) → IsField (take k bytes) → 1 ≤ k
    positive zero f = absurd f
    positive (suc k) f = omega arith

    facts :
        (p : ℕ × ℕ)
        → parse_remaining_length bytes ≡ ok p
        → (p.0 ≤ max_remaining_length) × (1 ≤ p.1) × (p.1 ≤ 4) × (p.1 ≤ length bytes)
    facts (n, k) e =
        let (f, inside, four, same) = (parse_remaining_length_iff bytes n k hb).0 e in
        let width : length (take k bytes) ≡ k = length-take k bytes inside in
        (
          omega (arith, same, value-le-greatest 4 (take k bytes) (omega arith)),
          omega (arith, positive k f),
          four,
          inside,
        )
