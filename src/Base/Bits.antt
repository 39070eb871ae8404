-- ===== src/Base/Bits.antt =====
-- The masks that the source applies to a byte, as arithmetic. Each lemma is a table that is
-- checked by evaluation.
use Prim.Native.Nat.{ℕ, zero, suc, ◌+◌, ◌*◌, ◌/◌, ◌%◌, ◌<◌, bit_and, bit_or}
use goqtt.Base.Tests.{◌==◌, ==_iff}
use mathlib.Core.Bool.{Bool, true, ◌&&◌}
use mathlib.Core.Path.{◌≡◌, refl}
use native.Mathlib.Omega.{arith}

-- `p` holds of every number below `n`.
holds_below : ℕ → (ℕ → Bool) → Bool
holds_below zero p = true
holds_below (suc n) p = p n && holds_below n p

holds_below-at : (n : ℕ) (p : ℕ → Bool) (b : ℕ) → holds_below n p ≡ true → b < n → p b ≡ true
unfolding holds_below
holds_below-at zero p b h lt = absurd (omega arith)
holds_below-at (suc n) p b h lt = ground (arith, holds_below-at n p b)

-- Two functions that agree in a table of `n` entries.
module _ (n : ℕ) (f g : ℕ → ℕ) (table : holds_below n (λ b. f b == g b) ≡ true) where
  table-eq : (b : ℕ) → b < n → f b ≡ g b
  table-eq b h = (==_iff (f b) (g b)).0 (holds_below-at n (λ b. f b == g b) b table h)

pub and_0x7f : (b : ℕ) → b < 256 → bit_and b 0x7f ≡ b % 128
unfolding holds_below
and_0x7f = table-eq 256 _ (λ b. b % 128) refl

pub and_0x80 : (b : ℕ) → b < 256 → bit_and b 0x80 ≡ b / 128 * 128
unfolding holds_below
and_0x80 = table-eq 256 _ (λ b. b / 128 * 128) refl

pub or_0x80 : (b : ℕ) → b < 128 → bit_or b 128 ≡ b + 128
unfolding holds_below
or_0x80 = table-eq 128 _ (λ b. b + 128) refl

pub and_0xf0 : (b : ℕ) → b < 256 → bit_and b 0xf0 ≡ b / 16 * 16
unfolding holds_below
and_0xf0 = table-eq 256 _ (λ b. b / 16 * 16) refl

pub and_0x0f : (b : ℕ) → b < 256 → bit_and b 0x0f ≡ b % 16
unfolding holds_below
and_0x0f = table-eq 256 _ (λ b. b % 16) refl

pub and_0xfc : (b : ℕ) → b < 256 → bit_and b 0xfc ≡ b / 4 * 4
unfolding holds_below
and_0xfc = table-eq 256 _ (λ b. b / 4 * 4) refl

pub and_0x03 : (b : ℕ) → b < 256 → bit_and b 0x03 ≡ b % 4
unfolding holds_below
and_0x03 = table-eq 256 _ (λ b. b % 4) refl
