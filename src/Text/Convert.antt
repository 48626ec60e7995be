-- ===== src/Text/Convert.antt =====
-- What uitoa_hex, uitoa and itoa of kernel/itoa.c leave in the buffer.
use gubos.Prelude.{
  ℕ, zero, suc, ◌+◌, ◌-◌, ◌*◌, ◌^◌, ◌≤◌, ◌<◌, ◌≡◌, ◌≢◌, refl, sym, ap, ◌∙◌, ◌==◌, ltb, lt→ltb, leb,
  true, false, if◌then◌else◌, done, ◌>>=◌, arith,
}
use gubos.Text.{
  Buffer, set, write_number, strrev, uitoa, uitoa_hex, itoa, itoa_negative, decimal_digit,
  hex_digit, tail, with_tail,
}
use gubos.Text.Reverse.{Ends, strrev_lem}
use gubos.Text.Digits.{
  digit_value, low_first, high_first, high_first-reversed, Written, digits_loop-Written,
}

decimal-readable : (d : ℕ) → d < 10 → (digit_value (decimal_digit d) ≡ d) × (decimal_digit d ≢ 0)
decimal-readable d h = (ground arith, omega arith)

hex-readable : (d : ℕ) → d < 16 → (digit_value (hex_digit d) ≡ d) × (hex_digit d ≢ 0)
hex-readable d h = (ground arith, ground arith)

-- `n` characters from `i` on and then a terminator: the digits of the number, the lowest first
pub record Digits (base value i : ℕ) (s : Buffer) (n : ℕ) (s' : Buffer) : Type 0 where
  pub number : low_first base s' i n ≡ value
  pub chars : (k : ℕ) → i ≤ k → k < i + n → s' k ≢ 0
  pub kept : (k : ℕ) → k < i → s' k ≡ s k
  pub stop : s' (i + n) ≡ 0
  pub short : n < 65

low_first-set :
    (base n i at : ℕ) (s : Buffer)
    → i + n ≤ at
    → low_first base (set at 0 s) i n ≡ low_first base s i n
low_first-set base zero i at s h = refl
low_first-set base (suc n) i at s h =
    let here : set at 0 s i ≡ s i = ground arith in
    let rest = low_first-set base n (i + 1) at s (omega arith) in
    ap (λ c. digit_value c + base * low_first base (set at 0 s) (i + 1) n) here
    ∙ ap (λ x. digit_value (s i) + base * x) rest

Written-Digits :
    (base value i n : ℕ) (s s' : Buffer)
    → n < 65
    → Written base value i s n s'
    → Digits base value i s n (set (i + n) 0 s')
Written-Digits base value i n s s' short w =
    let stop : set (i + n) 0 s' (i + n) ≡ 0 = ground arith in
    let same : (k : ℕ) → k < i + n → set (i + n) 0 s' k ≡ s' k = λ k h. ground arith in
    record {
      number = low_first-set base n i (i + n) s' (omega arith) ∙ w.number;
      chars = λ k low high z. w.chars k low high (sym (same k high) ∙ z);
      kept = λ k low. same k (omega arith) ∙ w.kept k low;
      stop = stop;
      short = short;
    }

zero-Written : (base i : ℕ) (s : Buffer) → Written base 0 i s 1 (set i 48 s)
zero-Written base i s =
    let here : set i 48 s i ≡ 48 = ground arith in
    let at : (k : ℕ) → i ≤ k → k < i + 1 → k ≡ i = λ k low high. omega arith in
    record {
      number = ap (λ c. digit_value c + base * 0) here ∙ omega arith;
      chars = λ k low high z.
          absurd (omega (arith, sym here ∙ ap (set i 48 s) (sym (at k low high)) ∙ z));
      kept = λ k low. ground arith;
    }

module _ (base : ℕ) (digit : ℕ → ℕ) (wide : 2 ≤ base)
    (readable : (d : ℕ) → d < base → (digit_value (digit d) ≡ d) × (digit d ≢ 0)) where
  pub write_number-Digits :
      (value i : ℕ) (s : Buffer)
      → value < 2 ^ 64
      → (n : ℕ) × (s' : Buffer) × (write_number base digit value i s ≡ done s')
        × Digits base value i s n s'
  unfolding write_number
  write_number-Digits zero i s small = (
    1,
    set (i + 1) 0 (set i 48 s),
    refl,
    Written-Digits base 0 i 1 s (set i 48 s) (omega arith) (zero-Written base i s),
  )
  write_number-Digits (suc v) i s small =
      let (n, s', run, short, w) =
        digits_loop-Written base digit wide readable 64 (suc v) i s small in
      let go : write_number base digit (suc v) i s ≡ done (set (i + n) 0 s') =
        let off : (suc v == 0) ≡ false = ground arith in rw (off, run) refl in
      (n, set (i + n) 0 s', go, Written-Digits base (suc v) i n s s' (omega arith) w)

Digits-Ends :
    (base value : ℕ) (s : Buffer) (n : ℕ) (s' : Buffer) → Digits base value 0 s n s' → Ends s' n
Digits-Ends base value s n s' d = record {
  stop = ap s' (omega arith) ∙ d.stop;
  before = λ k h. d.chars k (omega arith) (omega arith);
}

low_first-tail :
    (base n i : ℕ) (s : Buffer) → low_first base (tail s) i n ≡ low_first base s (i + 1) n
low_first-tail base zero i s = refl
low_first-tail base (suc n) i s =
    ap (λ x. digit_value (s (i + 1)) + base * x) (low_first-tail base n (i + 1) s)

with_tail-suc : (c : ℕ) (t : Buffer) (k : ℕ) → with_tail c t (k + 1) ≡ t k
with_tail-suc c t k = let e : k + 1 ≡ suc k = omega arith in ap (with_tail c t) e

high_first-with_tail :
    (base c : ℕ) (t : Buffer) (n : ℕ)
    → high_first base (tail (with_tail c t)) n ≡ high_first base t n
high_first-with_tail base c t zero = refl
high_first-with_tail base c t (suc n) =
    ap (λ x. x * base + digit_value (tail (with_tail c t) n)) (high_first-with_tail base c t n)
    ∙ ap (λ d. high_first base t n * base + digit_value d) (with_tail-suc c t n)

reversed :
    (base n : ℕ) (s t : Buffer)
    → ((k : ℕ) → t k ≡ (if ltb k n then s (n - 1 - k) else s k))
    → (t n ≡ s n) × (high_first base t n ≡ low_first base s 0 n)
reversed base n s t turned =
    let across : (k : ℕ) → k < n → t k ≡ s (0 + n - 1 - k) =
      λ k h. let hit = lt→ltb k n h in turned k ∙ rw hit (ap s (omega arith)) in
    let last : ltb n n ≡ false = ground arith in
    (turned n ∙ rw last refl, high_first-reversed base s t 0 n across)

-- A number written and then turned round.
print_lem :
    (base : ℕ) (digit : ℕ → ℕ) (value : ℕ) (s : Buffer)
    → 2 ≤ base
    → ((d : ℕ) → d < base → (digit_value (digit d) ≡ d) × (digit d ≢ 0))
    → value < 2 ^ 64
    → (n : ℕ) × (s' : Buffer) × ((write_number base digit value 0 s >>= strrev) ≡ done s')
      × (s' n ≡ 0)
      × (high_first base s' n ≡ value)
print_lem base digit value s wide readable small =
    let (n, s₁, run₁, d) = write_number-Digits base digit wide readable value 0 s small in
    let (s₂, run₂, turned) =
      strrev_lem n s₁ (Digits-Ends base value s n s₁ d) (omega (arith, d.short)) in
    let (stop, number) = reversed base n s₁ s₂ turned in
    (
      n,
      s₂,
      ap (λ o. o >>= strrev) run₁ ∙ run₂,
      stop ∙ ap s₁ (omega arith) ∙ d.stop,
      number ∙ d.number,
    )

-- uitoa_hex of a 64-bit number returns, and the buffer holds characters and then a terminator: they are the hexadecimal digits of the
-- number, the highest first.
pub uitoa_hex_lem :
    (value : ℕ) (s : Buffer)
    → value < 2 ^ 64
    → (n : ℕ) × (s' : Buffer) × (uitoa_hex value s ≡ done s')
      × (s' n ≡ 0)
      × (high_first 16 s' n ≡ value)
unfolding uitoa_hex
uitoa_hex_lem value s small = print_lem 16 hex_digit value s (omega arith) hex-readable small

-- uitoa of a 64-bit number returns, and the buffer holds a string whose characters are the decimal digits of the number, the
-- lowest first.
pub uitoa_lem :
    (value : ℕ) (s : Buffer)
    → value < 2 ^ 64
    → (n : ℕ) × (s' : Buffer) × (uitoa value s ≡ done s')
      × Ends s' n
      × (low_first 10 s' 0 n ≡ value)
unfolding uitoa
uitoa_lem value s small =
    let (n, s₁, run, d) =
      write_number-Digits 10 decimal_digit (omega arith) decimal-readable value 0 s small in
    (n, s₁, run, Digits-Ends 10 value s n s₁ d, d.number)

-- itoa of a number that is not negative returns, and the buffer holds its decimal digits, the highest first, and
-- then a terminator.
pub itoa_lem :
    (value : ℕ) (s : Buffer)
    → value < 2 ^ 63
    → (n : ℕ) × (s' : Buffer) × (itoa value s ≡ done s') × (s' n ≡ 0) × (high_first 10 s' n ≡ value)
unfolding itoa
itoa_lem value s small =
    let (n, s', run, stop, number) =
      print_lem 10 decimal_digit value s (omega arith) decimal-readable (omega arith) in
    let plus : leb (2 ^ 63) value ≡ false = ground arith in
    let go : itoa value s ≡ done s' = rw plus run in (n, s', go, stop, number)

-- itoa of a negative number returns, and the buffer holds a minus sign and then the decimal digits of the number's
-- negation, the highest first, and a terminator.
pub itoa_negative_lem :
    (value : ℕ) (s : Buffer)
    → 2 ^ 63 < value
    → value < 2 ^ 64
    → (n : ℕ) × (s' : Buffer) × (itoa value s ≡ done s')
      × (s' 0 ≡ 45)
      × (s' (n + 1) ≡ 0)
      × (high_first 10 (tail s') n ≡ 2 ^ 64 - value)
unfolding itoa itoa_negative
itoa_negative_lem value s low small =
    let v = 2 ^ 64 - value in
    let (n, s₁, run₁, d) =
      write_number-Digits 10 decimal_digit (omega arith) decimal-readable v 1 (set 0 45 s)
        (omega arith) in
    let ends : Ends (tail s₁) n = record {
      stop = ap s₁ (omega arith) ∙ d.stop;
      before = λ k h. d.chars (k + 1) (omega arith) (omega arith);
    } in
    let (t, run₂, turned) = strrev_lem n (tail s₁) ends (omega (arith, d.short)) in
    let (stop, number) = reversed 10 n (tail s₁) t turned in
    let minus : leb (2 ^ 63) value ≡ true = ground arith in
    let go : itoa value s ≡ done (with_tail (s₁ 0) t) = rw (minus, run₁, run₂) refl in
    let at : with_tail (s₁ 0) t (n + 1) ≡ t n = with_tail-suc (s₁ 0) t n in
    (
      n,
      with_tail (s₁ 0) t,
      go,
      d.kept 0 (omega arith),
      at ∙ stop ∙ ends.stop,
      high_first-with_tail 10 (s₁ 0) t n ∙ number ∙ low_first-tail 10 n 0 s₁ ∙ d.number,
    )
