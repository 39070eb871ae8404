-- ===== src/Transport/Frame/Stream.antt =====
-- internal/transport/tcp.go: the handler's own reader of the remaining length against
-- `ParseRemainingLength`, and the packets of a stream.
use goqtt.Base.{
  false, All, ap, inr, inl, Bool-cases, ◌∙◌, ℕ, zero, suc, ◌+◌, ◌*◌, ◌≤◌, ◌<◌, List, [], ◌∷◌, ◌++◌,
  concat, Bytes, ◌==◌, ltb, bit_and, length, take, drop, ◌≡◌, refl, arith, append_assoc,
  length-append, take-append, drop-append,
}
use goqtt.Base.Int.{pos}
use goqtt.Encoding.Length.{
  max_remaining_length, encode_remaining_length, parse_loop, parse_remaining_length,
}
use goqtt.Encoding.Length.Decode.{parse_remaining_length-encode}
use goqtt.Encoding.Length.Field.{parse_loop_takes}
use native.Mathlib.Nat.{zero-add}
use goqtt.Er.{ok}
use goqtt.Transport.Frame.{
  closed, oversized, packet, length_read, read_length, read_body, read_frame,
}

-- Where `ParseRemainingLength` accepts a field, the handler reads the same field.
read_length-parse_loop :
    (rounds : ℕ) (stream buf : Bytes) (w offset total multiplier n : ℕ)
    → offset + rounds ≡ 4
    → parse_loop stream offset total multiplier ≡ ok (n, offset + w)
    → read_length rounds stream buf total multiplier
      ≡ length_read (buf ++ take w stream) n (drop w stream)
unfolding parse_loop read_length
read_length-parse_loop zero [] buf w offset total multiplier n four e = ground arith
read_length-parse_loop zero (b ∷ bs) buf w offset total multiplier n four e = ground arith
read_length-parse_loop (suc rounds) [] buf w offset total multiplier n four e = ground arith
read_length-parse_loop (suc rounds) (b ∷ bs) buf zero offset total multiplier n four e =
    absurd (omega (arith, parse_loop_takes (b ∷ bs) offset total multiplier n (offset + 0) e))
read_length-parse_loop (suc rounds) (b ∷ bs) buf (suc w) offset total multiplier n four e =
    let total' : ℕ = total + bit_and b 0x7F * multiplier in
    elim (Bool-cases (bit_and b 0x80 == 0)) [
      | inl last ↦
          let (here, behind) : (n ≡ total') × (w ≡ 0) = ground arith in rw (last, here, behind) refl
      | inr more ↦
          let next : parse_loop bs (offset + 1) total' (multiplier * 128) ≡ ok (n, offset + 1 + w) =
            ground arith in
          rw more (
            read_length-parse_loop rounds bs (buf ++ b ∷ []) w (offset + 1) total'
              (multiplier * 128) n (omega arith) next
            ∙ ap (λ front. length_read front n (drop w bs)) (append_assoc buf (b ∷ []) (take w bs)))
    ]

-- A packet as the standard frames it: a first byte, the length of the body, and the body.
pub record IsFrame (raw : Bytes) : Type 0 where
  pub header : ℕ
  pub body : Bytes
  pub size_le : length body ≤ max_remaining_length
  pub framed : raw ≡ header ∷ (encode_remaining_length (pos (length body)) ++ body)

-- The handler cuts off a framed packet, whatever follows it.
pub read_frame-append :
    (raw rest : Bytes) → IsFrame raw → read_frame (raw ++ rest) ≡ packet raw rest
unfolding read_frame read_body parse_remaining_length
read_frame-append raw rest f =
    let body = f.body in
    let field = encode_remaining_length (pos (length body)) in
    let parsed = parse_remaining_length-encode (length body) (body ++ rest) f.size_le in
    let whole : (field ++ body) ++ rest ≡ field ++ (body ++ rest) = append_assoc field body rest in
    let read : read_length 4 ((field ++ body) ++ rest) [] 0 1
        ≡ length_read field (length body) (body ++ rest) =
      rw whole (
        read_length-parse_loop 4 (field ++ (body ++ rest)) [] (length field) 0 0 1 (length body)
          refl (rw zero-add parsed)
        ∙ rw (take-append field (body ++ rest), drop-append field (body ++ rest)) refl) in
    let room : ltb (length (body ++ rest)) (length body) ≡ false =
      ground (arith, length-append body rest) in
    rw (f.framed, read, room, take-append body rest, drop-append body rest) refl

-- The frames of a stream, one behind the other, until one is not whole: a reader of the stream that
-- does nothing with them.
unfoldable pub packets_of : ℕ → Bytes → List Bytes
packets_of zero stream = []
packets_of (suc fuel) stream = elim (read_frame stream) [
  | closed ↦ []
  | oversized ↦ []
  | packet raw rest ↦ raw ∷ packets_of fuel rest
]

packets_of-concat_enough :
    (fuel : ℕ) (raws : List Bytes)
    → All IsFrame raws
    → length raws < fuel
    → packets_of fuel (concat raws) ≡ raws
unfolding packets_of read_frame
packets_of-concat_enough zero raws h f = ground arith
packets_of-concat_enough (suc fuel) [] h f = refl
packets_of-concat_enough (suc fuel) (raw ∷ raws) h f =
    rw (packets_of, read_frame-append raw (concat raws) h.0)
      (ap (λ more. raw ∷ more) (packets_of-concat_enough fuel raws h.1 (omega arith)))

-- A frame has a first byte at least.
pub frames_length : (raws : List Bytes) → All IsFrame raws → length raws ≤ length (concat raws)
frames_length [] h = omega arith
frames_length (raw ∷ raws) h =
    omega (arith, length-append raw (concat raws), ap length h.0.framed, frames_length raws h.1)

-- Of a stream that consists of framed packets these are its frames, in their order; fuel for each
-- byte, and one more, is enough.
pub packets_of-concat :
    (raws : List Bytes)
    → All IsFrame raws
    → packets_of (length (concat raws) + 1) (concat raws) ≡ raws
packets_of-concat raws h =
    packets_of-concat_enough (length (concat raws) + 1) raws h (omega (arith, frames_length raws h))
