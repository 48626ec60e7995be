-- ===== src/Printk/Switch.antt =====
-- A directive of a format of vprintk (kernel/printk.c): its flag and the switch over its letter.
use gubos.Prelude.{
  ℕ, ◌+◌, ◌^◌, ◌≤◌, ◌<◌, ◌≡◌, refl, ap, ◌∙◌, ◌==◌, true, false, if◌then◌else◌, Bool, List, [], ◌∷◌,
  ◌++◌, length, Outcome, done, ◌>>=◌, arith,
}
use gubos.Text.{Buffer}
use gubos.Text.Reverse.{strlen_lem}
use gubos.Text.Numeral.{At, Holds-Ends}
use gubos.Printk.{Log, Step, next, Arg, convert, directive, ignored_flag, putchar, shift, and_then}
use gubos.Printk.Output.{put_list, print_or_ret-next}
use gubos.Printk.Conversion.{
  Conversion, percent, signed, unsigned, hex, long_signed, long_unsigned, long_hex, char, text,
  letters, args, Fits, shown, printed_log,
}
use gubos.Printk.Directive.{
  Converts, int-Converts, hex-Converts, long_signed-Converts, long_unsigned-Converts,
  long_hex-Converts,
}

-- the offset of a conversion's last letter
abbrev last : ℕ → Conversion → ℕ
last i (long_signed alt v) = i + 2
last i (long_unsigned v) = i + 2
last i (long_hex upper v) = i + 2
last i _ = i

-- The switch prints what the conversion shows.
module _ (color len : ℕ) (fmt : Buffer) (hash : Bool) (i : ℕ) (rest : List Arg) (s : Log)
    (fits : len < 2 ^ 32) where
  convert-Converts :
      (c : Conversion)
      → At fmt i (letters c)
      → i + length (letters c) ≤ len
      → s.params ≡ args c ++ rest
      → Fits c
      → Converts color (convert color len fmt hash i s) (last i c) (shown hash c) rest s
  unfolding convert put_list
  convert-Converts percent (h, _) room params ok =
      let at : i + 0 ≡ i = omega arith in
      (
        s.formatted_arg,
        (rw h (
            ap done (
              print_or_ret-next color (b'%' ∷ []) (shift i fmt) i s (ap fmt at ∙ h, tt)
                (omega arith, tt))
            ∙ ap (λ p. done (next i (record s { tty = putchar color b'%' s.tty; params = p })))
                params)),
      )
  convert-Converts (signed false v) (h, _) room params ok =
      rw h (int-Converts color v i true rest s params ok)
  convert-Converts (signed true v) (h, _) room params ok =
      rw h (int-Converts color v i true rest s params ok)
  convert-Converts (unsigned v) (h, _) room params ok =
      rw h (int-Converts color v i false rest s params ok)
  convert-Converts (hex false v) (h, _) room params ok =
      rw h (hex-Converts color v i hash false rest s params ok)
  convert-Converts (hex true v) (h, _) room params ok =
      rw h (hex-Converts color v i hash true rest s params ok)
  convert-Converts (long_signed false v) (h, (l, (k, _))) room params (ok, ne) =
      let second : fmt (i + 2) ≡ b'd' = ap fmt (omega arith) ∙ k in
      rw h (
        long_signed-Converts color len fmt hash i rest s (omega arith) fits b'd' v refl l second
          params ok ne)
  convert-Converts (long_signed true v) (h, (l, (k, _))) room params (ok, ne) =
      let second : fmt (i + 2) ≡ b'i' = ap fmt (omega arith) ∙ k in
      rw h (
        long_signed-Converts color len fmt hash i rest s (omega arith) fits b'i' v refl l second
          params ok ne)
  convert-Converts (long_unsigned v) (h, (l, (k, _))) room params ok =
      let second : fmt (i + 2) ≡ b'u' = ap fmt (omega arith) ∙ k in
      rw h
        (long_unsigned-Converts color len fmt hash i rest s (omega arith) fits v l second params ok)
  convert-Converts (long_hex false v) (h, (l, (k, _))) room params ok =
      let second : fmt (i + 2) ≡ b'x' = ap fmt (omega arith) ∙ k in
      rw h (
        long_hex-Converts color len fmt hash i rest s (omega arith) fits b'x' v refl refl refl h l
          second params ok)
  convert-Converts (long_hex true v) (h, (l, (k, _))) room params ok =
      let second : fmt (i + 2) ≡ b'X' = ap fmt (omega arith) ∙ k in
      rw h (
        long_hex-Converts color len fmt hash i rest s (omega arith) fits b'X' v refl refl refl h l
          second params ok)
  convert-Converts (char v) (h, _) room params ok = (s.formatted_arg, (rw h (rw params refl)))
  convert-Converts (text b cs) (h, _) room params ok =
      let len_lem = strlen_lem (length cs) b (Holds-Ends b cs ok) ok.short in
      (
        s.formatted_arg,
        (rw h (
            rw (params, len_lem)
              (ap done (
                print_or_ret-next color cs b i (record s { params = rest }) ok.chars ok.nonzero)))),
      )

pub data Flag : Type 0 where
  none hash : Flag
  ignored : ℕ → Flag

abbrev pub flag_chars : Flag → List ℕ
flag_chars none = []
flag_chars hash = b'#' ∷ []
flag_chars (ignored c) = c ∷ []

abbrev pub is_hash : Flag → Bool
is_hash hash = true
is_hash _ = false

abbrev pub IsFlag : Flag → Type 0
IsFlag (ignored c) = ignored_flag c ≡ true
IsFlag _ = Unit {0}

-- the first letter of a conversion
abbrev head : Conversion → ℕ
head percent = b'%'
head (signed i v) = if i then b'i' else b'd'
head (unsigned v) = b'u'
head (hex upper v) = if upper then b'X' else b'x'
head (long_signed i v) = b'l'
head (long_unsigned v) = b'l'
head (long_hex upper v) = b'l'
head (char v) = b'c'
head (text b cs) = b's'

head-At : (fmt : Buffer) (i : ℕ) (c : Conversion) → At fmt i (letters c) → fmt i ≡ head c
head-At fmt i percent h = h.0
head-At fmt i (signed alt v) h = h.0
head-At fmt i (unsigned v) h = h.0
head-At fmt i (hex upper v) h = h.0
head-At fmt i (long_signed alt v) h = h.0
head-At fmt i (long_unsigned v) h = h.0
head-At fmt i (long_hex upper v) h = h.0
head-At fmt i (char v) h = h.0
head-At fmt i (text b cs) h = h.0

-- No conversion begins with a flag.
head_no_flag : (c : Conversion) → ((head c == b'#') ≡ false) × (ignored_flag (head c) ≡ false)
head_no_flag percent = (refl, refl)
head_no_flag (signed false v) = (refl, refl)
head_no_flag (signed true v) = (refl, refl)
head_no_flag (unsigned v) = (refl, refl)
head_no_flag (hex false v) = (refl, refl)
head_no_flag (hex true v) = (refl, refl)
head_no_flag (long_signed alt v) = (refl, refl)
head_no_flag (long_unsigned v) = (refl, refl)
head_no_flag (long_hex upper v) = (refl, refl)
head_no_flag (char v) = (refl, refl)
head_no_flag (text b cs) = (refl, refl)

last-length : (i : ℕ) (c : Conversion) → last i c + 1 ≡ i + length (letters c)
last-length i percent = refl
last-length i (signed alt v) = refl
last-length i (unsigned v) = refl
last-length i (hex upper v) = refl
last-length i (long_signed alt v) = omega arith
last-length i (long_unsigned v) = omega arith
last-length i (long_hex upper v) = omega arith
last-length i (char v) = refl
last-length i (text b cs) = refl

-- how a directive at `i` goes on: behind its letters, with its text on the screen
abbrev pub Directs :
    (color : ℕ) → Outcome Step → (i : ℕ) → Flag → Conversion → List Arg → Log → Type 0
Directs color run i f c rest s =
    (b : Buffer) × (run
      ≡ done (
          next (i + 1 + length (flag_chars f) + length (letters c))
            (printed_log color (shown (is_hash f) c) rest b s)))

module _ (color len : ℕ) (fmt : Buffer) (i : ℕ) (rest : List Arg) (s : Log)
    (fits : len < 2 ^ 32) where
  -- with the flag read up to `i₁`
  converted :
      (i₁ : ℕ) (with_hash : Bool) (c : Conversion)
      → At fmt (i₁ + 1) (letters c)
      → i₁ + 1 + length (letters c) ≤ len
      → s.params ≡ args c ++ rest
      → Fits c
      → (b : Buffer) × ((convert color len fmt with_hash (i₁ + 1) s >>= λ st.
            and_then st (λ i₂ s'. done (next (i₂ + 1) s')))
          ≡ done
              (next (i₁ + 1 + length (letters c)) (printed_log color (shown with_hash c) rest b s)))
  converted i₁ with_hash c h room params ok =
      let (b, run) =
        convert-Converts color len fmt with_hash (i₁ + 1) rest s fits c h room params ok in
      let log = printed_log color (shown with_hash c) rest b s in
      (
        b,
        ap (λ o. o >>= λ st. and_then st (λ i₂ s'. done (next (i₂ + 1) s'))) run
            ∙ ap (λ n. done (next n log)) (last-length (i₁ + 1) c),
      )

  pub directive-Directs :
      (f : Flag) (c : Conversion)
      → At fmt (i + 1) (flag_chars f ++ letters c)
      → i + 1 + length (flag_chars f) + length (letters c) ≤ len
      → s.params ≡ args c ++ rest
      → IsFlag f
      → Fits c
      → Directs color (directive color len fmt i s) i f c rest s
  unfolding directive
  directive-Directs none c h room params flag ok =
      let first = head-At fmt (i + 1) c h in
      let (not_hash, not_ignored) = head_no_flag c in
      let inside : (i == len) ≡ false = ground arith in
      let (b, run) = converted i false c h (omega arith) params ok in
      (
        b,
        (rw (first, not_hash, not_ignored, inside)
            (run
              ∙ ap (λ n. done (next n (printed_log color (shown false c) rest b s)))
                  (omega arith))),
      )
  directive-Directs hash c (first, h) room params flag ok =
      let inside : (i == len) ≡ false = ground arith in
      let more : (i + 1 == len) ≡ false = ground arith in
      let (b, run) = converted (i + 1) true c h (omega arith) params ok in
      (
        b,
        (rw (first, inside, more)
            (run
              ∙ ap (λ n. done (next n (printed_log color (shown true c) rest b s))) (omega arith))),
      )
  directive-Directs (ignored d) c (first, h) room params flag ok =
      let inside : (i == len) ≡ false = ground arith in
      let more : (i + 1 == len) ≡ false = ground arith in
      let not_hash : (d == b'#') ≡ false = ground arith in
      let (b, run) = converted (i + 1) false c h (omega arith) params ok in
      (
        b,
        (rw (first, not_hash, flag, inside, more)
            (run
              ∙ ap (λ n. done (next n (printed_log color (shown false c) rest b s)))
                  (omega arith))),
      )
