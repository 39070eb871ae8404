-- ===== src/Slice/Safe.antt =====
-- Where an index or a slice expression cannot panic, and what it returns.
use goqtt.Base.{
  ℕ, zero, suc, ◌+◌, ◌-◌, ◌≤◌, ◌<◌, [], ◌∷◌, ◌≡◌, arith, le→leb, length, length-take, length-drop,
  drop, All, All-take, Bytes, IsByte, IsU16,
}
use goqtt.Er.{Ensures-bind, Ensures, done}
use goqtt.Slice.{read_uint16, first, index, slice, uint16}

pub All-drop : (n : ℕ) (bs : Bytes) → All IsByte bs → All IsByte (drop n bs)
All-drop zero bs h = h
All-drop (suc n) [] h = tt
All-drop (suc n) (b ∷ bs) h = All-drop n bs h.1

first-Ensures : (bs : Bytes) → 0 < length bs → All IsByte bs → Ensures IsByte (first bs)
unfolding first
first-Ensures [] h hb = elim h [ ]
first-Ensures (b ∷ bs) h hb = done hb.0

pub index-Ensures :
    (raw : Bytes) (i : ℕ) → All IsByte raw → i < length raw → Ensures IsByte (index raw i)
unfolding index
index-Ensures raw i hb h =
    first-Ensures (drop i raw) (omega (arith, length-drop i raw)) (All-drop i raw hb)

pub slice-Ensures :
    (raw : Bytes) (low high : ℕ)
    → All IsByte raw
    → low ≤ high
    → high ≤ length raw
    → Ensures (λ s. All IsByte s × (length s ≡ high - low)) (slice raw low high)
unfolding slice
slice-Ensures raw low high hb h k =
    rw (le→leb low high h, le→leb high (length raw) k)
      (done (
        All-take IsByte (high - low) (drop low raw) (All-drop low raw hb),
        length-take (high - low) (drop low raw) (omega (arith, length-drop low raw)),
      ))

uint16-Ensures : (bs : Bytes) → All IsByte bs → 2 ≤ length bs → Ensures IsU16 (uint16 bs)
unfolding uint16
uint16-Ensures [] hb h = elim h [ ]
uint16-Ensures (a ∷ []) hb h = absurd (omega arith)
uint16-Ensures (a ∷ b ∷ bs) hb h = done (omega arith)

pub read_uint16-Ensures :
    (raw : Bytes) (offset : ℕ)
    → All IsByte raw
    → offset + 2 ≤ length raw
    → Ensures IsU16 (read_uint16 raw offset)
read_uint16-Ensures raw offset hb h =
    Ensures-bind _ _ (slice-Ensures raw offset (offset + 2) hb (omega arith) h)
      λ s _ q. uint16-Ensures s q.0 (omega (arith, q.1))
