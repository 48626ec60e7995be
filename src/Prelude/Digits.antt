-- ===== src/Prelude/Digits.antt =====
-- The native bit operations are one recursion on binary digits, `digits`, with an operation on two digits and
-- a rule for what is left of the second number. Its law on the lowest digit, once for all of them, and
-- induction by halves.
use Prim.Native.Nat.{ℕ, zero, suc, ◌+◌, ◌*◌, ◌/◌, ◌%◌, ◌≤◌, digits, bitwise}
use mathlib.Core.Path.{◌≡◌, refl, ap}
use native.Mathlib.Omega.{arith}

-- What holds of 0, and of a number when it holds of its half, holds of all.
pub by_halves {ℓ} :
    (P : ℕ → Type ℓ) → P 0 → ((x : ℕ) → P (suc x / 2) → P (suc x)) → (bound x : ℕ) → x ≤ bound → P x
by_halves P base half bound zero small = base
by_halves P base half zero (suc x) small = absurd (omega arith)
by_halves P base half (suc bound) (suc x) small =
    half x (by_halves P base half bound (suc x / 2) (omega arith))

module _ (left : ℕ → ℕ) (on_digits : ℕ → ℕ → ℕ) where
  -- Any count that is not below the first number gives the same digits.
  count_lem :
      (k l x y : ℕ) → x ≤ k → x ≤ l → digits left on_digits k x y ≡ digits left on_digits l x y
  count_lem zero zero x y hk hl = refl
  count_lem zero (suc l) zero y hk hl = refl
  count_lem (suc k) zero zero y hk hl = refl
  count_lem (suc k) (suc l) zero y hk hl = refl
  count_lem (suc k) (suc l) (suc x) y hk hl =
      ap (λ high. high * 2 + on_digits (suc x % 2) (y % 2))
        (count_lem k l (suc x / 2) (y / 2) (omega arith) (omega arith))
  count_lem k l x y hk hl = absurd (omega arith)

  -- If what is left of the second number goes digit by digit too, so does the whole operation.
  pub lowest_digit :
      ((y : ℕ) → left y ≡ left (y / 2) * 2 + on_digits 0 (y % 2))
      → (x y : ℕ)
      → bitwise left on_digits x y
        ≡ bitwise left on_digits (x / 2) (y / 2) * 2 + on_digits (x % 2) (y % 2)
  lowest_digit rest zero y = rest y
  lowest_digit rest (suc x) y =
      ap (λ high. high * 2 + on_digits (suc x % 2) (y % 2))
        (count_lem x (suc x / 2) (suc x / 2) (y / 2) (omega arith) (omega arith))
