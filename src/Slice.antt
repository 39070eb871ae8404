-- ===== src/Slice.antt =====
-- What Go does on an index, a slice expression and `binary.BigEndian`, panics included. The
-- buffers are made by `make([]byte, n)`, so a capacity is the length.
pub mod Safe
use goqtt.Base.{
  take_all, ℕ, ◌+◌, ◌-◌, ◌*◌, ◌/◌, ◌%◌, ◌≤◌, [], ◌∷◌, ◌++◌, ◌≡◌, refl, sym, ap, ◌∙◌, arith, leb,
  le→leb, if◌then◌else◌, ◌&&◌, length, take, drop, Bytes, IsU16, drop-drop, length-append,
  drop-append, take-append,
}
use goqtt.Er.{◌>>=◌, Result, ok, panic}

first : Bytes → Result ℕ
first [] = panic
first (b ∷ _) = ok b

-- `raw[i]`
unfoldable pub index : Bytes → ℕ → Result ℕ
unfolding first
index raw i = first (drop i raw)

-- `raw[low:high]`
unfoldable pub slice : Bytes → ℕ → ℕ → Result Bytes
slice raw low high =
    if leb low high && leb high (length raw) then ok (take (high - low) (drop low raw)) else panic

-- `binary.BigEndian.Uint16(b)`
unfoldable pub uint16 : Bytes → Result ℕ
uint16 [] = panic
uint16 (_ ∷ []) = panic
uint16 (high ∷ low ∷ _) = ok (high * 256 + low)

-- `binary.BigEndian.Uint16(raw[offset : offset+2])`
abbrev pub read_uint16 : Bytes → ℕ → Result ℕ
read_uint16 raw offset = do two ← slice raw offset (offset + 2); uint16 two

-- `binary.BigEndian.PutUint16` into a fresh slice of two bytes.
abbrev pub put_uint16 : ℕ → Bytes
put_uint16 n = (n / 256 % 256) ∷ (n % 256) ∷ []

-- `rest` is what stands in `raw` from `offset` on.
pub record At (raw : Bytes) (offset : ℕ) (rest : Bytes) : Type 0 where
  pub dropped : drop offset raw ≡ rest
  pub counted : offset + length rest ≡ length raw

pub At-front : (front rest : Bytes) → At (front ++ rest) (length front) rest
At-front front rest = record {
  dropped = drop-append front rest;
  counted = sym (length-append front rest);
}

pub At-whole : (raw : Bytes) → At raw 0 raw
At-whole raw = record { dropped = refl; counted = omega arith }

-- After a part of known length the cursor stands behind it.
pub At-next :
    (raw part rest : Bytes) (offset n : ℕ)
    → length part ≡ n
    → At raw offset (part ++ rest)
    → At raw (offset + n) rest
At-next raw part rest offset n e at = record {
  dropped =
      sym (drop-drop offset n raw)
      ∙ ap (drop n) at.dropped
      ∙ ap (λ (k : ℕ). drop k (part ++ rest)) (sym e)
      ∙ drop-append part rest;
  counted = omega (arith, at.counted, length-append part rest);
}

pub index-At :
    (raw rest : Bytes) (offset b : ℕ) → At raw offset (b ∷ rest) → index raw offset ≡ ok b
unfolding index
index-At raw rest offset b at = ap first at.dropped

pub slice-At :
    (raw part rest : Bytes) (offset n : ℕ)
    → length part ≡ n
    → At raw offset (part ++ rest)
    → slice raw offset (offset + n) ≡ ok part
unfolding slice
slice-At raw part rest offset n e at =
    let bound : offset + n ≤ length raw = omega (arith, at.counted, length-append part rest) in
    let width : offset + n - offset ≡ length part = omega arith in
    rw (le→leb offset (offset + n) (omega arith), le→leb _ _ bound, width, at.dropped)
      (ap ok (take-append part rest))

pub uint16-put_uint16 : (n : ℕ) → IsU16 n → uint16 (put_uint16 n) ≡ ok n
unfolding uint16
uint16-put_uint16 n h = ap ok (omega arith)

pub read_uint16-At :
    (raw rest : Bytes) (offset n : ℕ)
    → IsU16 n
    → At raw offset (put_uint16 n ++ rest)
    → read_uint16 raw offset ≡ ok n
read_uint16-At raw rest offset n h at =
    rw (slice-At raw (put_uint16 n) rest offset 2 refl at) (uint16-put_uint16 n h)

-- The cursor stands inside the buffer.
pub slice_rest-At :
    (raw rest : Bytes) (offset : ℕ) → At raw offset rest → slice raw offset (length raw) ≡ ok rest
unfolding slice
slice_rest-At raw rest offset at =
    let width : length raw - offset ≡ length rest = omega (arith, at.counted) in
    rw
      (
        le→leb offset (length raw) (omega (arith, at.counted)),
        le→leb (length raw) (length raw) (omega arith),
        width,
        at.dropped,
      )
      (ap ok (take_all rest))
