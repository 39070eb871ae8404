-- ===== src/Encoding/Length/Encode.antt =====
-- The bytes that `EncodeRemainingLength` writes, in plain arithmetic.
use goqtt.Base.{
  ℕ, zero, suc, ◌+◌, ◌/◌, ◌%◌, ◌^◌, ◌≤◌, ◌<◌, [], ◌∷◌, ◌++◌, ◌≡◌, refl, arith, ◌==◌, if◌then◌else◌,
  length, length-append, Bytes, append_assoc,
}
use goqtt.Base.Bits.{or_0x80}
use goqtt.Base.Int.{pos}
use goqtt.Encoding.Length.{max_remaining_length, encode_loop, encode_remaining_length}

-- The groups of seven bits of `n`, lowest first, each but the last with its top bit set, in at
-- most `k + 1` bytes.
unfoldable pub groups : ℕ → ℕ → Bytes
groups zero n = n ∷ []
groups (suc k) n =
    let more = groups k (n / 128) in if n / 128 == 0 then n ∷ [] else (n % 128 + 128) ∷ more

encode_loop-groups :
    (k n : ℕ) (encoded : Bytes)
    → length encoded + suc k ≡ 4
    → n < 128 ^ suc k
    → encode_loop (suc k) n encoded ≡ encoded ++ groups k n
unfolding encode_loop groups
encode_loop-groups zero n encoded room h = ground arith
encode_loop-groups (suc k) n encoded room h = ground (
  arith,
  or_0x80 (n % 128),
  length-append encoded ((n % 128 + 128) ∷ []),
  encode_loop-groups k (n / 128) (encoded ++ (n % 128 + 128) ∷ []),
  append_assoc encoded ((n % 128 + 128) ∷ []) (groups k (n / 128)),
)

pub encode_remaining_length-groups :
    (n : ℕ) → n ≤ max_remaining_length → encode_remaining_length (pos n) ≡ groups 3 n
unfolding encode_remaining_length
encode_remaining_length-groups n h = encode_loop-groups 3 n [] refl (omega arith)

pub length-groups : (k n : ℕ) → (1 ≤ length (groups k n)) × (length (groups k n) ≤ k + 1)
unfolding groups
length-groups zero n = omega arith
length-groups (suc k) n = ground (arith, length-groups k (n / 128))
