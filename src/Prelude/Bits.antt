-- ===== src/Prelude/Bits.antt =====
-- Laws of `bit_and` and `bit_or` at variables: the step on the lowest digit, a mask of low ones, and
-- the join of a multiple of 2 ^ k with a number below 2 ^ k. Small ranges are checked by evaluation.
use Prim.Native.Nat.{
  ℕ, zero, suc, ◌+◌, ◌*◌, ◌/◌, ◌%◌, ◌^◌, ◌<◌, min, max, bit_and, bit_or, bit_or-bitwise,
  bit_and-bitwise,
}
use mathlib.Core.Path.{◌≡◌}
use mathlib.Core.Bool.{Bool, true, ◌&&◌}
use native.Mathlib.Omega.{arith}
use native.Mathlib.Nat.{pow-suc}
use gubos.Prelude.Digits.{by_halves, lowest_digit}

unfoldable pub all_below : ℕ → (ℕ → Bool) → Bool
all_below zero test = true
all_below (suc bound) test = test bound && all_below bound test

-- A test that holds on a range, evaluated, holds of each number of the range.
pub all_below_sound :
    (bound : ℕ) (test : ℕ → Bool) (k : ℕ) → all_below bound test ≡ true → k < bound → test k ≡ true
unfolding all_below
all_below_sound zero test k all small = absurd (omega arith)
all_below_sound (suc bound) test k all small = ground (arith, all_below_sound bound test k)

or_left : (y : ℕ) → y ≡ y / 2 * 2 + max 0 (y % 2)
or_left y = omega arith

pub bit_or_step : (a b : ℕ) → bit_or a b ≡ bit_or (a / 2) (b / 2) * 2 + max (a % 2) (b % 2)
bit_or_step a b = omega (
  arith,
  bit_or-bitwise a b,
  bit_or-bitwise (a / 2) (b / 2),
  lowest_digit (λ y. y) max or_left a b,
)

zero-bit_or : (b : ℕ) → bit_or 0 b ≡ b
zero-bit_or b = bit_or-bitwise 0 b

bit_or-zero : (a : ℕ) → bit_or a 0 ≡ a
bit_or-zero a =
    by_halves (λ x. bit_or x 0 ≡ x) (zero-bit_or 0)
      (λ x half. omega (arith, bit_or_step (suc x) 0, half)) a a (omega arith)

and_left : (y : ℕ) → 0 ≡ 0 * 2 + min 0 (y % 2)
and_left y = omega arith

pub bit_and_step : (a b : ℕ) → bit_and a b ≡ bit_and (a / 2) (b / 2) * 2 + min (a % 2) (b % 2)
bit_and_step a b = omega (
  arith,
  bit_and-bitwise a b,
  bit_and-bitwise (a / 2) (b / 2),
  lowest_digit (λ y. 0) min and_left a b,
)

bit_and-zero : (a : ℕ) → bit_and a 0 ≡ 0
bit_and-zero a =
    by_halves (λ x. bit_and x 0 ≡ 0) (bit_and-bitwise 0 0)
      (λ x half. omega (arith, bit_and_step (suc x) 0, half)) a a (omega arith)

-- `a << 12 | f` for a flag word `f` of fewer than 12 bits is their sum; so for every width.
pub bit_or_aligned : (k a f : ℕ) → f < 2 ^ k → bit_or (a * 2 ^ k) f ≡ a * 2 ^ k + f
bit_or_aligned zero a f h =
    let e : f ≡ 0 = omega arith in rw e (omega (arith, bit_or-zero (a * 2 ^ 0)))
bit_or_aligned (suc k) a f h =
    let half : a * (2 ^ k * 2) / 2 ≡ a * 2 ^ k = omega arith in
    let joined : bit_or (a * (2 ^ k * 2) / 2) (f / 2) ≡ a * 2 ^ k + f / 2 =
      rw half (bit_or_aligned k a (f / 2) (omega (arith, pow-suc 2 k))) in
    rw pow-suc (omega (arith, bit_or_step (a * (2 ^ k * 2)) f, joined))

-- The same with the low bits first.
pub bit_or_low : (k f a : ℕ) → f < 2 ^ k → bit_or f (a * 2 ^ k) ≡ f + a * 2 ^ k
bit_or_low zero f a h = let e : f ≡ 0 = omega arith in rw e (omega (arith, zero-bit_or (a * 2 ^ 0)))
bit_or_low (suc k) f a h =
    let half : a * (2 ^ k * 2) / 2 ≡ a * 2 ^ k = omega arith in
    let joined : bit_or (f / 2) (a * (2 ^ k * 2) / 2) ≡ f / 2 + a * 2 ^ k =
      rw half (bit_or_low k (f / 2) a (omega (arith, pow-suc 2 k))) in
    rw pow-suc (omega (arith, bit_or_step f (a * (2 ^ k * 2)), joined))

-- Flags of fewer than `k` digits leave the digits above alone.
pub bit_or_above :
    (k a f g : ℕ) → f < 2 ^ k → g < 2 ^ k → bit_or (a * 2 ^ k + f) g ≡ a * 2 ^ k + bit_or f g
bit_or_above zero a f g hf hg =
    let e : f ≡ 0 = omega arith in
    let d : g ≡ 0 = omega arith in
    rw (e, d) (omega (arith, bit_or-zero (a * 2 ^ 0 + 0), bit_or-zero 0))
bit_or_above (suc k) a f g hf hg =
    let half : (a * (2 ^ k * 2) + f) / 2 ≡ a * 2 ^ k + f / 2 = omega arith in
    let odd : (a * (2 ^ k * 2) + f) % 2 ≡ f % 2 = omega arith in
    let joined : bit_or ((a * (2 ^ k * 2) + f) / 2) (g / 2) ≡ a * 2 ^ k + bit_or (f / 2) (g / 2) =
      rw half (
        bit_or_above k a (f / 2) (g / 2) (omega (arith, pow-suc 2 k))
          (omega (arith, pow-suc 2 k))) in
    rw pow-suc (omega (arith, bit_or_step (a * (2 ^ k * 2) + f) g, bit_or_step f g, joined, odd))

-- A mask of `k` ones keeps the last `k` digits.
pub low : ℕ → ℕ → ℕ
low zero a = 0
low (suc k) a = low k (a / 2) * 2 + a % 2

pub ones : ℕ → ℕ
ones zero = 0
ones (suc k) = ones k * 2 + 1

pub bit_and-ones : (k a : ℕ) → bit_and a (ones k) ≡ low k a
unfolding low ones
bit_and-ones zero a = bit_and-zero a
bit_and-ones (suc k) a =
    let half : (ones k * 2 + 1) / 2 ≡ ones k = omega arith in
    let rest : bit_and (a / 2) ((ones k * 2 + 1) / 2) ≡ low k (a / 2) =
      rw half (bit_and-ones k (a / 2)) in
    omega (arith, bit_and_step a (ones k * 2 + 1), rest)

pub bit_and_page : (a : ℕ) → bit_and a 4095 ≡ a % 4096
unfolding low ones
bit_and_page a = omega (arith, bit_and-ones 12 a)

pub bit_and_byte : (a : ℕ) → bit_and a 255 ≡ a % 256
unfolding low ones
bit_and_byte a = omega (arith, bit_and-ones 8 a)

pub bit_and_half : (a : ℕ) → bit_and a 65535 ≡ a % 65536
unfolding low ones
bit_and_half a = omega (arith, bit_and-ones 16 a)

pub bit_and_nibble : (a : ℕ) → bit_and a 15 ≡ a % 16
unfolding low ones
bit_and_nibble a = omega (arith, bit_and-ones 4 a)

pub bit_and_table : (a : ℕ) → bit_and a 1023 ≡ a % 1024
unfolding low ones
bit_and_table a = omega (arith, bit_and-ones 10 a)
