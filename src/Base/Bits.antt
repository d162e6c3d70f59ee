-- ===== src/Base/Bits.antt =====
-- The masks of the packet headers as arithmetic; each is a table over one byte.
use Prim.Native.Nat.{
  ℕ, zero, suc, ◌+◌, ◌*◌, ◌/◌, ◌%◌, ◌^◌, ◌≤◌, ◌<◌, max, bit_and, bit_or, digits, bit_or-bitwise,
}
use mathlib.Core.Bool.{Bool, true, ◌&&◌}
use mathlib.Core.Path.{◌≡◌, refl, ap, ◌∙◌}
use native.Mathlib.Omega.{arith, pow_step}
use discord_ext_voice_recv.Base.Tests.{◌==◌}

module _ (f g : ℕ → ℕ) where
  same_below : ℕ → Bool
  same_below zero = true
  same_below (suc n) = f n == g n && same_below n

  same_below-eq : (n : ℕ) → same_below n ≡ true → (i : ℕ) → i < n → f i ≡ g i
  unfolding same_below
  same_below-eq zero e i h = absurd (omega arith)
  same_below-eq (suc n) e i h = ground (arith, same_below-eq n (ground arith) i)

pub and_0x20 : (b : ℕ) → b < 256 → bit_and b 0x20 ≡ b / 32 % 2 * 32
unfolding same_below
and_0x20 = same_below-eq _ _ 256 refl

pub and_0x10 : (b : ℕ) → b < 256 → bit_and b 0x10 ≡ b / 16 % 2 * 16
unfolding same_below
and_0x10 = same_below-eq _ _ 256 refl

pub and_0x80 : (b : ℕ) → b < 256 → bit_and b 0x80 ≡ b / 128 * 128
unfolding same_below
and_0x80 = same_below-eq _ _ 256 refl

pub and_0x0f : (b : ℕ) → b < 256 → bit_and b 0xf ≡ b % 16
unfolding same_below
and_0x0f = same_below-eq _ _ 256 refl

pub and_0x1f : (b : ℕ) → b < 256 → bit_and b 0x1f ≡ b % 32
unfolding same_below
and_0x1f = same_below-eq _ _ 256 refl

pub and_0x7f : (b : ℕ) → b < 256 → bit_and b 0x7f ≡ b % 128
unfolding same_below
and_0x7f = same_below-eq _ _ 256 refl

abbrev or_digits : ℕ → ℕ → ℕ → ℕ
or_digits n a b = digits (λ b. b) max n a b

or_digits_above : (n s a c m : ℕ) → a ≤ n → a < 2 ^ s → m ≡ c * 2 ^ s → or_digits n a m ≡ a + m
or_digits_above zero s zero c m h lt e = omega arith
or_digits_above zero s (suc a) c m h lt e = absurd (omega arith)
or_digits_above (suc n) s zero c m h lt e = omega arith
or_digits_above (suc n) zero (suc a) c m h lt e = absurd (omega arith)
or_digits_above (suc n) (suc s) (suc a) c m h lt e =
    let twice : 2 ^ suc s ≡ 2 * 2 ^ s = pow_step 2 s in
    let even : m ≡ 2 * (c * 2 ^ s) = omega (arith, ap (◌*◌ c) twice, e) in
    let half : m / 2 ≡ c * 2 ^ s = omega (arith, even) in
    omega (
      arith,
      even,
      half,
      or_digits_above n s (suc a / 2) c (m / 2) (omega arith) (omega (arith, twice)) half,
    )

-- `a | c << s` where all the bits of a lie below s.
pub bit_or_above : (s a c : ℕ) → a < 2 ^ s → bit_or a (c * 2 ^ s) ≡ a + c * 2 ^ s
bit_or_above s a c h =
    bit_or-bitwise a (c * 2 ^ s) ∙ or_digits_above a s a c (c * 2 ^ s) (omega arith) h refl
