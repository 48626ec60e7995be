-- ===== src/Text/Numeral.antt =====
-- The strings that kernel/itoa.c and kernel/string/string.c make, as lists of characters.
use gubos.Prelude.{
  ℕ, zero, suc, ◌+◌, ◌-◌, ◌*◌, ◌/◌, ◌%◌, ◌^◌, ◌≤◌, ◌<◌, ◌≡◌, ◌≢◌, refl, sym, ap, ◌∙◌, List, [], ◌∷◌,
  ◌++◌, length, length-append, done, arith,
}
use native.Mathlib.Nat.{pow-suc, div-add-mod, mod-lt, mul-le-mul_right}
use gubos.Text.{Buffer, set, digits_loop}
use gubos.Text.Reverse.{Ends}
use gubos.Text.Digits.{digit_value, digits_loop_step}

-- the characters stand from offset `i` on
abbrev pub At : Buffer → (i : ℕ) → List ℕ → Type 0
At s i [] = Unit {0}
At s i (c ∷ cs) = (s i ≡ c) × At s (i + 1) cs

abbrev pub NonZero : List ℕ → Type 0
NonZero [] = Unit {0}
NonZero (c ∷ cs) = (c ≢ 0) × NonZero cs

-- the buffer holds the string, with its terminator
pub record Holds (s : Buffer) (cs : List ℕ) : Type 0 where
  pub chars : At s 0 cs
  pub nonzero : NonZero cs
  pub stop : s (length cs) ≡ 0
  pub short : length cs < 2 ^ 32

pub At-same :
    (s t : Buffer) (i : ℕ) (cs : List ℕ)
    → ((k : ℕ) → i ≤ k → k < i + length cs → t k ≡ s k)
    → At s i cs
    → At t i cs
At-same s t i [] same h = tt
At-same s t i (c ∷ cs) same (here, more) = (
  same i (omega arith) (omega arith) ∙ here,
  At-same s t (i + 1) cs (λ k a b. same k (omega arith) (omega arith)) more,
)

pub At-append :
    (s : Buffer) (i : ℕ) (cs ds : List ℕ) → At s i cs → At s (i + length cs) ds → At s i (cs ++ ds)
At-append s i [] ds h more = let e : i + 0 ≡ i = omega arith in rw e at more
At-append s i (c ∷ cs) ds (here, h) more =
    let e : i + length (c ∷ cs) ≡ i + 1 + length cs = omega arith in
    (here, At-append s (i + 1) cs ds h (rw e at more))

pub NonZero-append : (cs ds : List ℕ) → NonZero cs → NonZero ds → NonZero (cs ++ ds)
NonZero-append [] ds h k = k
NonZero-append (c ∷ cs) ds (here, h) k = (here, NonZero-append cs ds h k)

inside_text :
    (s : Buffer) (i : ℕ) (cs : List ℕ) (k : ℕ)
    → At s i cs
    → NonZero cs
    → k < length cs
    → s (i + k) ≢ 0
inside_text s i [] k h nz small = elim small [ ]
inside_text s i (c ∷ cs) zero (here, h) (n, nz) small =
    let e : i + 0 ≡ i = omega arith in λ z. n (sym here ∙ ap s (sym e) ∙ z)
inside_text s i (c ∷ cs) (suc k) (here, h) (n, nz) small =
    let e : i + suc k ≡ i + 1 + k = omega arith in
    λ z. inside_text s (i + 1) cs k h nz (omega arith) (ap s (sym e) ∙ z)

pub Holds-Ends : (s : Buffer) (cs : List ℕ) → Holds s cs → Ends s (length cs)
Holds-Ends s cs h = record {
  stop = h.stop;
  before = λ k small z. inside_text s 0 cs k h.chars h.nonzero small (ap s (omega arith) ∙ z);
}

-- the digits of a number, the lowest first and the highest first; none for 0
unfoldable pub low_digits : (base : ℕ) (digit : ℕ → ℕ) (fuel value : ℕ) → List ℕ
low_digits base digit zero value = []
low_digits base digit (suc fuel) zero = []
low_digits base digit (suc fuel) (suc v) =
    digit (suc v % base) ∷ low_digits base digit fuel (suc v / base)

unfoldable pub high_digits : (base : ℕ) (digit : ℕ → ℕ) (fuel value : ℕ) → List ℕ
high_digits base digit zero value = []
high_digits base digit (suc fuel) zero = []
high_digits base digit (suc fuel) (suc v) =
    high_digits base digit fuel (suc v / base) ++ (digit (suc v % base) ∷ [])

pub length-high_digits :
    (base : ℕ) (digit : ℕ → ℕ) (fuel value : ℕ)
    → length (high_digits base digit fuel value) ≡ length (low_digits base digit fuel value)
unfolding low_digits high_digits
length-high_digits base digit zero value = refl
length-high_digits base digit (suc fuel) zero = refl
length-high_digits base digit (suc fuel) (suc v) =
    let ih = length-high_digits base digit fuel (suc v / base) in
    let both =
      length-append (high_digits base digit fuel (suc v / base)) (digit (suc v % base) ∷ []) in
    both ∙ omega (arith, ih)

-- The same digits turned round.
pub At-turned :
    (base : ℕ) (digit : ℕ → ℕ) (fuel value : ℕ) (s t : Buffer) (i j : ℕ)
    → At s i (low_digits base digit fuel value)
    → ((k : ℕ)
        → k < length (low_digits base digit fuel value)
        → t (j + k) ≡ s (i + length (low_digits base digit fuel value) - 1 - k))
    → At t j (high_digits base digit fuel value)
unfolding low_digits high_digits
At-turned base digit zero value s t i j h across = tt
At-turned base digit (suc fuel) zero s t i j h across = tt
At-turned base digit (suc fuel) (suc v) s t i j (here, h) across =
    let low = low_digits base digit fuel (suc v / base) in
    let high = high_digits base digit fuel (suc v / base) in
    let len = length-high_digits base digit fuel (suc v / base) in
    let front =
      At-turned base digit fuel (suc v / base) s t (i + 1) j h
        (λ k small. across k (omega arith) ∙ ap s (omega arith)) in
    let last : t (j + length high) ≡ digit (suc v % base) =
      ap t (omega (arith, len)) ∙ across (length low) (omega arith) ∙ ap s (omega arith) ∙ here in
    At-append t j high (digit (suc v % base) ∷ []) front (last, tt)

module _ (base : ℕ) (digit : ℕ → ℕ) (wide : 2 ≤ base)
    (readable : (d : ℕ) → d < base → digit d ≢ 0) where
  pub NonZero-low_digits : (fuel value : ℕ) → NonZero (low_digits base digit fuel value)
  unfolding low_digits
  NonZero-low_digits zero value = tt
  NonZero-low_digits (suc fuel) zero = tt
  NonZero-low_digits (suc fuel) (suc v) = (
    readable (suc v % base) (mod-lt (suc v) (omega arith)),
    NonZero-low_digits fuel (suc v / base),
  )

  pub NonZero-high_digits : (fuel value : ℕ) → NonZero (high_digits base digit fuel value)
  unfolding high_digits
  NonZero-high_digits zero value = tt
  NonZero-high_digits (suc fuel) zero = tt
  NonZero-high_digits (suc fuel) (suc v) =
      NonZero-append (high_digits base digit fuel (suc v / base)) (digit (suc v % base) ∷ [])
        (NonZero-high_digits fuel (suc v / base))
        (readable (suc v % base) (mod-lt (suc v) (omega arith)), tt)

pub length-low_digits :
    (base : ℕ) (digit : ℕ → ℕ) (fuel value : ℕ) → length (low_digits base digit fuel value) ≤ fuel
unfolding low_digits
length-low_digits base digit zero value = omega arith
length-low_digits base digit (suc fuel) zero = omega arith
length-low_digits base digit (suc fuel) (suc v) =
    omega (arith, length-low_digits base digit fuel (suc v / base))

half : (base value y : ℕ) → 2 ≤ base → value < y * 2 → value / base < y
half base value y wide h =
    let e = div-add-mod value base in
    let more : 2 * (value / base) ≤ base * (value / base) = mul-le-mul_right (value / base) wide in
    omega arith

-- digits that can be told apart, and from the terminator
abbrev pub Readable : (base : ℕ) (digit : ℕ → ℕ) → Type 0
Readable base digit = (d : ℕ) → d < base → (digit_value (digit d) ≡ d) × (digit d ≢ 0)

-- what the loop leaves from offset `i` on
pub record Wrote (i : ℕ) (cs : List ℕ) (s s' : Buffer) : Type 0 where
  pub chars : At s' i cs
  pub kept : (k : ℕ) → k < i → s' k ≡ s k

pub digits_loop-Wrote :
    (base : ℕ) (digit : ℕ → ℕ) (fuel value i : ℕ) (s : Buffer)
    → 2 ≤ base
    → Readable base digit
    → value < 2 ^ fuel
    → (s' : Buffer) × (digits_loop base digit (suc fuel) value i s
        ≡ done (i + length (low_digits base digit fuel value), s'))
      × Wrote i (low_digits base digit fuel value) s s'
unfolding digits_loop low_digits
digits_loop-Wrote base digit zero zero i s wide readable small =
    (s, ap (λ n. done (n, s)) (omega arith), record { chars = tt; kept = λ k h. refl })
digits_loop-Wrote base digit (suc fuel) zero i s wide readable small =
    (s, ap (λ n. done (n, s)) (omega arith), record { chars = tt; kept = λ k h. refl })
digits_loop-Wrote base digit zero (suc v) i s wide readable small = absurd (omega arith)
digits_loop-Wrote base digit (suc fuel) (suc v) i s wide readable small =
    let d = digit (suc v % base) in
    let (s', run, w) =
      digits_loop-Wrote base digit fuel (suc v / base) (i + 1) (set i d s) wide readable
        (half base (suc v) (2 ^ fuel) wide (omega (arith, pow-suc 2 fuel))) in
    (
      s',
      digits_loop_step base digit wide readable (suc fuel) v i s
          ∙ run
          ∙ ap (λ n. done (n, s')) (omega arith),
      record {
        chars = (w.kept i (omega arith) ∙ ground arith, w.chars);
        kept = λ k low. w.kept k (omega arith) ∙ ground arith;
      },
    )

-- a number as its digits, the lowest first and the highest first; 0 is "0"
unfoldable pub low_text : (base : ℕ) (digit : ℕ → ℕ) (value : ℕ) → List ℕ
low_text base digit zero = 48 ∷ []
low_text base digit (suc v) = low_digits base digit 64 (suc v)

unfoldable pub high_text : (base : ℕ) (digit : ℕ → ℕ) (value : ℕ) → List ℕ
high_text base digit zero = 48 ∷ []
high_text base digit (suc v) = high_digits base digit 64 (suc v)
