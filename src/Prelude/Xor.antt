-- ===== src/Prelude/Xor.antt =====
-- Laws of `bit_xor` at variables.
use Prim.Native.Nat.{ℕ, zero, suc, ◌+◌, ◌*◌, ◌/◌, ◌%◌, ◌≤◌, ◌<◌, bit_xor, differ, bit_xor-bitwise}
use mathlib.Core.Path.{◌≡◌, refl, sym, ap, ◌∙◌}
use mathlib.Core.Logic.{◌⊎◌, inl, inr}
use native.Mathlib.Omega.{arith}
use gubos.Prelude.Digits.{lowest_digit}

zero-differ : (y : ℕ) → differ 0 y ≡ y
zero-differ y = refl

xor_left : (y : ℕ) → y ≡ y / 2 * 2 + differ 0 (y % 2)
xor_left y = omega (arith, zero-differ (y % 2))

zero-bit_xor : (b : ℕ) → bit_xor 0 b ≡ b
zero-bit_xor b = bit_xor-bitwise 0 b

bit_xor_step : (a b : ℕ) → bit_xor a b ≡ bit_xor (a / 2) (b / 2) * 2 + differ (a % 2) (b % 2)
bit_xor_step a b = omega (
  arith,
  bit_xor-bitwise a b,
  bit_xor-bitwise (a / 2) (b / 2),
  lowest_digit (λ y. y) differ xor_left a b,
)

-- on two binary digits
digit-cases : (a : ℕ) → (a % 2 ≡ 0) ⊎ (a % 2 ≡ 1)
digit-cases a = ground arith

differ_lem :
    (x y : ℕ)
    → (x ≡ 0) ⊎ (x ≡ 1)
    → (y ≡ 0) ⊎ (y ≡ 1)
    → (differ x y < 2) × (differ (differ x y) y ≡ x) × (differ x y ≡ differ y x)
differ_lem x y (inl p) (inl q) = rw (p, q) (omega arith, refl, refl)
differ_lem x y (inl p) (inr q) = rw (p, q) (omega arith, refl, refl)
differ_lem x y (inr p) (inl q) = rw (p, q) (omega arith, refl, refl)
differ_lem x y (inr p) (inr q) = rw (p, q) (omega arith, refl, refl)

comm_fuel : (n a b : ℕ) → a ≤ n → b ≤ n → bit_xor a b ≡ bit_xor b a
comm_fuel zero a b p q = let same : a ≡ b = omega arith in rw same refl
comm_fuel (suc n) a b p q =
    let (small, back, swap) = differ_lem (a % 2) (b % 2) (digit-cases a) (digit-cases b) in
    let rest = comm_fuel n (a / 2) (b / 2) (omega arith) (omega arith) in
    bit_xor_step a b
    ∙ ap (λ x. x * 2 + differ (a % 2) (b % 2)) rest
    ∙ ap (λ x. bit_xor (b / 2) (a / 2) * 2 + x) swap
    ∙ sym (bit_xor_step b a)

cancel_fuel : (n a b : ℕ) → a ≤ n → b ≤ n → bit_xor (bit_xor a b) b ≡ a
cancel_fuel zero a b p q =
    let a₀ : a ≡ 0 = omega arith in let b₀ : b ≡ 0 = omega arith in rw (a₀, b₀, zero-bit_xor) refl
cancel_fuel (suc n) a b p q =
    let (small, back, swap) = differ_lem (a % 2) (b % 2) (digit-cases a) (digit-cases b) in
    let c = bit_xor (a / 2) (b / 2) in
    let d = differ (a % 2) (b % 2) in
    let half : bit_xor a b / 2 ≡ c = omega (arith, bit_xor_step a b, small) in
    let digit : bit_xor a b % 2 ≡ d = omega (arith, bit_xor_step a b, small) in
    let rest = cancel_fuel n (a / 2) (b / 2) (omega arith) (omega arith) in
    let whole : a / 2 * 2 + a % 2 ≡ a = omega arith in
    bit_xor_step (bit_xor a b) b
    ∙ ap (λ x. bit_xor x (b / 2) * 2 + differ (bit_xor a b % 2) (b % 2)) half
    ∙ ap (λ x. bit_xor c (b / 2) * 2 + differ x (b % 2)) digit
    ∙ ap (λ x. x * 2 + differ d (b % 2)) rest
    ∙ ap (λ x. a / 2 * 2 + x) back
    ∙ whole

pub bit_xor_comm : (a b : ℕ) → bit_xor a b ≡ bit_xor b a
bit_xor_comm a b = comm_fuel (a + b) a b (omega arith) (omega arith)

pub bit_xor_cancel : (a b : ℕ) → bit_xor (bit_xor a b) b ≡ a
bit_xor_cancel a b = cancel_fuel (a + b) a b (omega arith) (omega arith)
