-- ===== src/Text/Digits.antt =====
-- The digits that the loops of kernel/itoa.c write, and the number that a run of digits stands for.
use gubos.Prelude.{
  ℕ, zero, suc, ◌+◌, ◌-◌, ◌*◌, ◌/◌, ◌%◌, ◌^◌, ◌≤◌, ◌<◌, ◌≡◌, ◌≢◌, refl, sym, ap, ◌∙◌, ◌==◌, ltb,
  if◌then◌else◌, Bool-cases, inl, inr, done, arith,
}
use native.Mathlib.Nat.{pow-suc, div-add-mod, mod-lt, mul_comm, mul-le-mul_right}
use gubos.Text.{Buffer, set, digits_loop}

-- the value of a digit's character
abbrev pub digit_value : ℕ → ℕ
digit_value c = if ltb c 58 then c - 48 else c - 87

-- `n` characters from `i` on, the lowest digit first
abbrev pub low_first : (base : ℕ) → Buffer → (i n : ℕ) → ℕ
low_first base s i zero = 0
low_first base s i (suc n) = digit_value (s i) + base * low_first base s (i + 1) n

-- the first `n` characters, the highest digit first
abbrev pub high_first : (base : ℕ) → Buffer → (n : ℕ) → ℕ
high_first base s zero = 0
high_first base s (suc n) = high_first base s n * base + digit_value (s n)

low_first-same :
    (base : ℕ) (s t : Buffer) (i n : ℕ)
    → ((k : ℕ) → i ≤ k → s k ≡ t k)
    → low_first base s i n ≡ low_first base t i n
low_first-same base s t i zero same = refl
low_first-same base s t i (suc n) same =
    let head = ap digit_value (same i (omega arith)) in
    let rest = low_first-same base s t (i + 1) n (λ k h. same k (omega arith)) in
    ap (λ x. x + base * low_first base s (i + 1) n) head
    ∙ ap (λ x. digit_value (t i) + base * x) rest

-- Read from the other end a run of digits is the same number.
pub high_first-reversed :
    (base : ℕ) (s t : Buffer) (i n : ℕ)
    → ((k : ℕ) → k < n → t k ≡ s (i + n - 1 - k))
    → high_first base t n ≡ low_first base s i n
high_first-reversed base s t i zero across = refl
high_first-reversed base s t i (suc n) across =
    let here : t n ≡ s i = across n (omega arith) ∙ ap s (omega arith) in
    let rest =
      high_first-reversed base s t (i + 1) n (λ k h. across k (omega arith) ∙ ap s (omega arith)) in
    ap (λ x. x * base + digit_value (t n)) rest
    ∙ ap (λ c. low_first base s (i + 1) n * base + digit_value c) here
    ∙ omega (arith, mul_comm (low_first base s (i + 1) n) base)

-- How the loop ends: after `n` digits that stand for the number, none of them 0, and with the bytes
-- before them as they were.
pub record Written (base value i : ℕ) (s : Buffer) (n : ℕ) (s' : Buffer) : Type 0 where
  pub number : low_first base s' i n ≡ value
  pub chars : (k : ℕ) → i ≤ k → k < i + n → s' k ≢ 0
  pub kept : (k : ℕ) → k < i → s' k ≡ s k

module _ (base : ℕ) (digit : ℕ → ℕ) (wide : 2 ≤ base)
    (readable : (d : ℕ) → d < base → (digit_value (digit d) ≡ d) × (digit d ≢ 0)) where
  half : (value y : ℕ) → value < y * 2 → value / base < y
  half value y h =
      let e = div-add-mod value base in
      let more : 2 * (value / base) ≤ base * (value / base) =
        mul-le-mul_right (value / base) wide in
      omega arith

  digits_loop_stop :
      (fuel i : ℕ) (s : Buffer) → digits_loop base digit (suc fuel) 0 i s ≡ done (i, s)
  unfolding digits_loop
  digits_loop_stop fuel i s = refl

  pub digits_loop_step :
      (fuel v i : ℕ) (s : Buffer)
      → digits_loop base digit (suc fuel) (suc v) i s
        ≡ digits_loop base digit fuel (suc v / base) (i + 1) (set i (digit (suc v % base)) s)
  unfolding digits_loop
  digits_loop_step fuel v i s = ground arith

  -- With more rounds than binary digits the loop ends, and it has written the number.
  pub digits_loop-Written :
      (fuel value i : ℕ) (s : Buffer)
      → value < 2 ^ fuel
      → (n : ℕ) × (s' : Buffer) × (digits_loop base digit (suc fuel) value i s ≡ done (i + n, s'))
        × (n ≤ fuel)
        × Written base value i s n s'
  digits_loop-Written fuel zero i s small =
      let none : Written base 0 i s 0 s = record {
        number = refl;
        chars = λ k low high. absurd (omega arith);
        kept = λ k low. refl;
      } in
      let same : i ≡ i + 0 = omega arith in
      (0, s, digits_loop_stop fuel i s ∙ ap (λ x. done (x, s)) same, omega arith, none)
  digits_loop-Written zero (suc v) i s small = absurd (omega arith)
  digits_loop-Written (suc fuel) (suc v) i s small =
      let value = suc v in
      let d = digit (value % base) in
      let (n, s', run, short, w) =
        digits_loop-Written fuel (value / base) (i + 1) (set i d s)
          (half value (2 ^ fuel) (omega (arith, pow-suc 2 fuel))) in
      let (reads, nonzero) = readable (value % base) (mod-lt value (omega arith)) in
      let here : s' i ≡ d = w.kept i (omega arith) ∙ ground arith in
      let first : digit_value (s' i) ≡ value % base = ap (λ c. digit_value c) here ∙ reads in
      let whole = div-add-mod value base in
      let all : Written base value i s (suc n) s' = record {
        number =
            ap (λ x. x + base * low_first base s' (i + 1) n) first
            ∙ ap (λ x. value % base + base * x) w.number
            ∙ omega (arith, whole);
        chars = λ k low high. elim (Bool-cases (k == i)) [
          | inl e ↦ let at : k ≡ i = ground arith in λ z. nonzero (sym here ∙ ap s' (sym at) ∙ z)
          | inr e ↦ w.chars k (ground arith) (omega arith)
        ];
        kept = λ k low. w.kept k (omega arith) ∙ ground arith;
      } in
      (
        suc n,
        s',
        digits_loop_step (suc fuel) v i s ∙ run ∙ ap (λ x. done (x, s')) (omega arith),
        omega arith,
        all,
      )
