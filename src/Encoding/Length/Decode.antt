-- ===== src/Encoding/Length/Decode.antt =====
-- `ParseRemainingLength` on what the encoder wrote, and on any input.
use goqtt.Base.{
  ℕ, zero, suc, ◌+◌, ◌*◌, ◌/◌, ◌%◌, ◌^◌, ◌≤◌, ◌<◌, ◌∷◌, ◌++◌, ◌≡◌, ap, arith, length, Bytes,
}
use goqtt.Base.Bits.{and_0x7f, and_0x80}
use goqtt.Base.Int.{pos}
use goqtt.Encoding.Length.{
  max_remaining_length, encode_remaining_length, parse_loop, parse_remaining_length,
}
use goqtt.Encoding.Length.Encode.{groups, encode_remaining_length-groups, length-groups}
use goqtt.Er.{ok}

pub parse_loop-last :
    (b offset total multiplier : ℕ) (rest : Bytes)
    → b < 128
    → offset < 4
    → total + b * multiplier ≤ max_remaining_length
    → parse_loop (b ∷ rest) offset total multiplier ≡ ok (total + b * multiplier, offset + 1)
unfolding parse_loop
parse_loop-last b offset total multiplier rest hb ho fits = ground (arith, and_0x7f b, and_0x80 b)

pub parse_loop-inner :
    (g offset total multiplier : ℕ) (rest : Bytes)
    → g < 128
    → offset < 4
    → total + g * multiplier ≤ max_remaining_length
    → parse_loop ((g + 128) ∷ rest) offset total multiplier
      ≡ parse_loop rest (offset + 1) (total + g * multiplier) (multiplier * 128)
unfolding parse_loop
parse_loop-inner g offset total multiplier rest hg ho fits =
    ground (arith, and_0x7f (g + 128), and_0x80 (g + 128))

split_group : (n m : ℕ) → n * m ≡ n % 128 * m + n / 128 * (m * 128)
split_group n m =
    let e : n ≡ n % 128 + n / 128 * 128 = omega arith in omega (arith, ap (λ (t : ℕ). t * m) e)

parse_loop-groups :
    (k n offset total multiplier : ℕ) (rest : Bytes)
    → n < 128 ^ suc k
    → offset + suc k ≤ 4
    → total + n * multiplier ≤ max_remaining_length
    → parse_loop (groups k n ++ rest) offset total multiplier
      ≡ ok (total + n * multiplier, offset + length (groups k n))
unfolding groups
parse_loop-groups zero n offset total multiplier rest h room fits =
    parse_loop-last n offset total multiplier rest (omega arith) (omega arith) fits
parse_loop-groups (suc k) n offset total multiplier rest h room fits = ground (
  arith,
  parse_loop-last n offset total multiplier rest,
  split_group n multiplier,
  parse_loop-inner (n % 128) offset total multiplier (groups k (n / 128) ++ rest),
  parse_loop-groups k (n / 128) (offset + 1) (total + n % 128 * multiplier) (multiplier * 128) rest,
)

-- Every length up to 268,435,455 is read back from what the encoder wrote, whatever follows it,
-- with the number of bytes written.
pub parse_remaining_length-encode :
    (n : ℕ) (rest : Bytes)
    → n ≤ max_remaining_length
    → parse_remaining_length (encode_remaining_length (pos n) ++ rest)
      ≡ ok (n, length (encode_remaining_length (pos n)))
unfolding parse_remaining_length
parse_remaining_length-encode n rest h =
    rw (encode_remaining_length-groups n h) (ground (arith, parse_loop-groups 3 n 0 0 1 rest))

pub length-encode_remaining_length :
    (n : ℕ)
    → n ≤ max_remaining_length
    → (1 ≤ length (encode_remaining_length (pos n)))
      × (length (encode_remaining_length (pos n)) ≤ 4)
length-encode_remaining_length n h = rw (encode_remaining_length-groups n h) (length-groups 3 n)
