-- ===== src/Text/Spelling.antt =====
-- The exact strings that itoa, uitoa and uitoa_hex of kernel/itoa.c and strupper make.
use gubos.Prelude.{
  ℕ, zero, suc, ◌+◌, ◌-◌, ◌^◌, ◌≤◌, ◌<◌, ◌≡◌, ◌≢◌, refl, ap, ◌∙◌, ◌==◌, ltb, lt→ltb, leb, false,
  if◌then◌else◌, List, [], ◌∷◌, length, Bool-cases, inl, inr, done, ◌>>=◌, arith,
}
use gubos.Text.{
  Buffer, set, write_number, strrev, uitoa, uitoa_hex, itoa, itoa_negative, decimal_digit,
  hex_digit, tail, with_tail,
}
use gubos.Text.Reverse.{strrev_lem}
use gubos.Text.Numeral.{
  At, At-same, At-turned, NonZero, NonZero-low_digits, NonZero-high_digits, Holds, Holds-Ends,
  low_digits, low_text, high_text, Readable, digits_loop-Wrote, length-high_digits,
  length-low_digits,
}

-- the characters from offset `i` on and the terminator, with the bytes before them as they were
record Filled (i : ℕ) (cs : List ℕ) (s s' : Buffer) : Type 0 where
  pub chars : At s' i cs
  pub stop : s' (i + length cs) ≡ 0
  pub kept : (k : ℕ) → k < i → s' k ≡ s k

module _ (base : ℕ) (digit : ℕ → ℕ) (wide : 2 ≤ base) (readable : Readable base digit) where
  write_number-Filled :
      (value i : ℕ) (s : Buffer)
      → value < 2 ^ 64
      → (s' : Buffer) × (write_number base digit value i s ≡ done s')
        × Filled i (low_text base digit value) s s'
  unfolding write_number low_text
  write_number-Filled zero i s small = (
    set (i + 1) 0 (set i 48 s),
    refl,
    record { chars = (ground arith, tt); stop = ground arith; kept = λ k h. ground arith },
  )
  write_number-Filled (suc v) i s small =
      let cs = low_digits base digit 64 (suc v) in
      let (s', run, w) = digits_loop-Wrote base digit 64 (suc v) i s wide readable small in
      let off : (suc v == 0) ≡ false = ground arith in
      (
        set (i + length cs) 0 s',
        (rw (off, run) refl),
        record {
          chars = At-same s' (set (i + length cs) 0 s') i cs (λ k a b. ground arith) w.chars;
          stop = ground arith;
          kept = λ k low. (ground arith) ∙ w.kept k low;
        },
      )

  low_text-NonZero : (value : ℕ) → NonZero (low_text base digit value)
  unfolding low_text
  low_text-NonZero zero = (omega arith, tt)
  low_text-NonZero (suc v) = NonZero-low_digits base digit wide (λ d h. (readable d h).1) 64 (suc v)

  high_text-NonZero : (value : ℕ) → NonZero (high_text base digit value)
  unfolding high_text
  high_text-NonZero zero = (omega arith, tt)
  high_text-NonZero (suc v) =
      NonZero-high_digits base digit wide (λ d h. (readable d h).1) 64 (suc v)

  length-low_text : (value : ℕ) → length (low_text base digit value) < 65
  unfolding low_text
  length-low_text zero = omega arith
  length-low_text (suc v) = omega (arith, length-low_digits base digit 64 (suc v))

  length-high_text :
      (value : ℕ) → length (high_text base digit value) ≡ length (low_text base digit value)
  unfolding low_text high_text
  length-high_text zero = refl
  length-high_text (suc v) = length-high_digits base digit 64 (suc v)

  At-high_text :
      (value : ℕ) (s t : Buffer)
      → At s 0 (low_text base digit value)
      → ((k : ℕ)
          → k < length (low_text base digit value)
          → t k ≡ s (length (low_text base digit value) - 1 - k))
      → At t 0 (high_text base digit value)
  unfolding low_text high_text
  At-high_text zero s t (h, _) across = (across 0 (omega arith) ∙ h, tt)
  At-high_text (suc v) s t h across =
      At-turned base digit 64 (suc v) s t 0 0 h
        (λ k small. ap t (omega arith) ∙ across k small ∙ ap s (omega arith))

  -- A string of digits turned round.
  strrev-Holds :
      (value : ℕ) (s : Buffer)
      → Holds s (low_text base digit value)
      → (t : Buffer) × (strrev s ≡ done t) × Holds t (high_text base digit value)
  strrev-Holds value s h =
      let n = length (low_text base digit value) in
      let same = length-high_text value in
      let (t, run, turned) = strrev_lem n s (Holds-Ends s _ h) h.short in
      let last : ltb n n ≡ false = ground arith in
      (
        t,
        run,
        record {
          chars =
              At-high_text value s t h.chars (λ k small. turned k ∙ (rw (lt→ltb k n small) refl));
          nonzero = high_text-NonZero value;
          stop = ap t same ∙ turned n ∙ (rw last h.stop);
          short = omega (arith, same, h.short);
        },
      )

  Filled-Holds :
      (value : ℕ) (s s' : Buffer)
      → Filled 0 (low_text base digit value) s s'
      → Holds s' (low_text base digit value)
  Filled-Holds value s s' f = record {
    chars = f.chars;
    nonzero = low_text-NonZero value;
    stop = ap s' (omega arith) ∙ f.stop;
    short = omega (arith, length-low_text value);
  }

  print-Holds :
      (value : ℕ) (s : Buffer)
      → value < 2 ^ 64
      → (t : Buffer) × ((write_number base digit value 0 s >>= strrev) ≡ done t)
        × Holds t (high_text base digit value)
  print-Holds value s small =
      let (s₁, run₁, f) = write_number-Filled value 0 s small in
      let (t, run₂, h) = strrev-Holds value s₁ (Filled-Holds value s s₁ f) in
      (t, ap (λ o. o >>= strrev) run₁ ∙ run₂, h)

decimal-Readable : Readable 10 decimal_digit
decimal-Readable d h = (ground arith, omega arith)

hex-Readable : Readable 16 hex_digit
hex-Readable d h = (ground arith, ground arith)

abbrev pub decimal : ℕ → List ℕ
decimal value = high_text 10 decimal_digit value

abbrev pub hexadecimal : ℕ → List ℕ
hexadecimal value = high_text 16 hex_digit value

-- what uitoa leaves, which does not turn the digits round
abbrev pub decimal_reversed : ℕ → List ℕ
decimal_reversed value = low_text 10 decimal_digit value

-- a number of 64 bits in two's complement
abbrev pub signed_decimal : ℕ → List ℕ
signed_decimal value = if leb (2 ^ 63) value then 45 ∷ decimal (2 ^ 64 - value) else decimal value

pub uitoa_hex-Holds :
    (value : ℕ) (s : Buffer)
    → value < 2 ^ 64
    → (t : Buffer) × (uitoa_hex value s ≡ done t) × Holds t (hexadecimal value)
unfolding uitoa_hex
uitoa_hex-Holds value s small = print-Holds 16 hex_digit (omega arith) hex-Readable value s small

pub uitoa-Holds :
    (value : ℕ) (s : Buffer)
    → value < 2 ^ 64
    → (t : Buffer) × (uitoa value s ≡ done t) × Holds t (decimal_reversed value)
unfolding uitoa
uitoa-Holds value s small =
    let (t, run, f) =
      write_number-Filled 10 decimal_digit (omega arith) decimal-Readable value 0 s small in
    (t, run, Filled-Holds 10 decimal_digit (omega arith) decimal-Readable value s t f)

At-tail : (s : Buffer) (i : ℕ) (cs : List ℕ) → At s (i + 1) cs → At (tail s) i cs
At-tail s i [] h = tt
At-tail s i (c ∷ cs) (here, h) = (here, At-tail s (i + 1) cs h)

At-with_tail :
    (c : ℕ) (t : Buffer) (i : ℕ) (cs : List ℕ) → At t i cs → At (with_tail c t) (suc i) cs
At-with_tail c t i [] h = tt
At-with_tail c t i (d ∷ cs) (here, h) =
    let e : suc (i + 1) ≡ suc i + 1 = omega arith in (here, rw e at (At-with_tail c t (i + 1) cs h))

with_tail-Holds :
    (t : Buffer) (cs : List ℕ) → Holds t cs → length cs < 65 → Holds (with_tail 45 t) (45 ∷ cs)
with_tail-Holds t cs h small = record {
  chars = let e : ◌≡◌ {A = ℕ} 1 (0 + 1) = refl in (refl, At-with_tail 45 t 0 cs h.chars);
  nonzero = (omega arith, h.nonzero);
  stop = h.stop;
  short = omega arith;
}

itoa_negative-Holds :
    (value : ℕ) (s : Buffer)
    → value < 2 ^ 64
    → (t : Buffer) × (itoa_negative value s ≡ done t) × Holds t (45 ∷ decimal value)
unfolding itoa_negative
itoa_negative-Holds value s small =
    let wide : 2 ≤ 10 = omega arith in
    let (s₁, run₁, f) =
      write_number-Filled 10 decimal_digit wide decimal-Readable value 1 (set 0 45 s) small in
    let len = length-low_text 10 decimal_digit wide decimal-Readable value in
    let lens = length-high_text 10 decimal_digit wide decimal-Readable value in
    let text : Holds (tail s₁) (decimal_reversed value) = record {
      chars = At-tail s₁ 0 (decimal_reversed value) f.chars;
      nonzero = low_text-NonZero 10 decimal_digit wide decimal-Readable value;
      stop = ap s₁ (omega arith) ∙ f.stop;
      short = omega (arith, len);
    } in
    let (t, run₂, h) = strrev-Holds 10 decimal_digit wide decimal-Readable value (tail s₁) text in
    let sign : s₁ 0 ≡ 45 = f.kept 0 (omega arith) in
    let go : itoa_negative value s ≡ done (with_tail (s₁ 0) t) = rw (run₁, run₂) refl in
    (
      with_tail 45 t,
      go ∙ ap (λ c. done (with_tail c t)) sign,
      with_tail-Holds t (decimal value) h (omega (arith, len, lens)),
    )

-- For any `long long` but the least one itoa returns, and the buffer holds the number in decimal
-- notation: its digits, the highest first and with none in front that is not needed, behind a minus
-- sign if it is negative.
pub itoa-Holds :
    (value : ℕ) (s : Buffer)
    → value < 2 ^ 64
    → value ≢ 2 ^ 63
    → (t : Buffer) × (itoa value s ≡ done t) × Holds t (signed_decimal value)
unfolding itoa
itoa-Holds value s small ne = elim (Bool-cases (leb (2 ^ 63) value)) [
  | inl minus ↦ rw minus (itoa_negative-Holds (2 ^ 64 - value) s (ground arith))
  | inr plus ↦
      rw plus (print-Holds 10 decimal_digit (omega arith) decimal-Readable value s (omega arith))
]
