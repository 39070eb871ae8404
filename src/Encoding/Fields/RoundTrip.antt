-- ===== src/Encoding/Fields/RoundTrip.antt =====
-- internal/packet/utils/encoding.go, `ParseString`: what it reads back, and where it panics.
use goqtt.Base.{
  ℕ, ◌+◌, ◌-◌, ◌%◌, ◌^◌, ◌≤◌, ◌<◌, ◌++◌, ◌≡◌, true, refl, arith, length, length-append, Bytes,
}
use goqtt.Encoding.Fields.{parse_string}
use goqtt.Er.{ok, panic, fail_if-step, bind-step}
use goqtt.Slice.{At, At-next, At-whole, slice-At, uint16-put_uint16, put_uint16, slice}
use goqtt.Text.Utf8.{valid_string}

-- A UTF-8 string of up to 65533 bytes is read back from its length and its bytes, whatever
-- follows, with the number of bytes read.
pub parse_string_of :
    (s rest : Bytes)
    → length s ≤ 65533
    → valid_string s ≡ true
    → parse_string (put_uint16 (length s) ++ (s ++ rest)) ≡ ok (s, 2 + length s)
unfolding parse_string
parse_string_of s rest short valid =
    let raw = put_uint16 (length s) ++ (s ++ rest) in
    let whole : At raw 0 (put_uint16 (length s) ++ (s ++ rest)) = At-whole raw in
    let behind = At-next raw (put_uint16 (length s)) (s ++ rest) 0 2 refl whole in
    let no_wrap : (2 + length s) % 2 ^ 16 ≡ 2 + length s = omega arith in
    fail_if-step _ _ _ _ (ground arith) λ _.
      bind-step _ _ (slice-At raw (put_uint16 (length s)) (s ++ rest) 0 2 refl whole) λ _.
        bind-step _ _ (uint16-put_uint16 (length s) (ground arith)) λ _. rw no_wrap (
          fail_if-step _ _ _ _ (ground (arith, length-append s rest)) λ _.
            bind-step _ _ (slice-At raw s rest 2 (length s) refl behind)
              λ _. fail_if-step _ _ _ _ (ground arith) λ _. refl)

slice_empty : (raw : Bytes) (high : ℕ) → high < 2 → slice raw 2 high ≡ panic
unfolding slice
slice_empty raw high h = ground arith

-- Where the length field is 65534 or 65535 the sum of the length and 2 wraps to 0 or 1, the check
-- of the size passes, and the parser panics.
pub parse_string-panic :
    (n : ℕ) (rest : Bytes) → 65534 ≤ n → n < 65536 → parse_string (put_uint16 n ++ rest) ≡ panic
unfolding parse_string
parse_string-panic n rest low high =
    let raw = put_uint16 n ++ rest in
    let wraps : (2 + n) % 2 ^ 16 ≡ n - 65534 = omega arith in
    fail_if-step _ _ _ _ (ground arith) λ _.
      bind-step _ _ (slice-At raw (put_uint16 n) rest 0 2 refl (At-whole raw)) λ _.
        bind-step _ _ (uint16-put_uint16 n (ground arith)) λ _.
          rw wraps (
            fail_if-step _ _ _ _ (ground arith) λ _. rw (slice_empty raw (n - 65534) (omega arith)))
