-- ===== src/Printk/Directive.antt =====
-- What the directives of a format of vprintk (kernel/printk.c) print.
use gubos.Prelude.{
  ℕ, ◌+◌, ◌^◌, ◌<◌, ◌≡◌, ◌≢◌, sym, ap, ◌∙◌, ◌==◌, ltb, true, false, if◌then◌else◌, Bool, ◌&&◌, ◌||◌,
  List, ◌∷◌, ◌++◌, map, Outcome, done, sub32, arith,
}
use gubos.Text.{Buffer, toupper}
use gubos.Text.Upper.{strupper-Holds}
use gubos.Text.Spelling.{
  decimal_reversed, hexadecimal, signed_decimal, itoa-Holds, uitoa-Holds, uitoa_hex-Holds,
}
use gubos.Printk.Conversion.{printed_log}
use gubos.Printk.{
  Log, Step, next, Arg, int32, int64, extend, convert_int, convert_hex, convert_long, print_long,
}
use gubos.Printk.Output.{put_list-append, after, print_arg-next, prefix, print_prefix-next}

-- the conversion leaves its last letter at `i` and the log behind its text
abbrev pub Converts : (color : ℕ) → Outcome Step → (i : ℕ) → List ℕ → List Arg → Log → Type 0
Converts color run i cs rest s =
    (b : Buffer) × (run ≡ done (next i (printed_log color cs rest b s)))

pub int-Converts :
    (color v i : ℕ) (is_signed : Bool) (rest : List Arg) (s : Log)
    → s.params ≡ int32 v ∷ rest
    → v < 2 ^ 32
    → Converts color
        (convert_int color is_signed i s)
        i
        (signed_decimal (if is_signed then extend v else v))
        rest
        s
unfolding convert_int
int-Converts color v i true rest s params small =
    let (b, run, h) = itoa-Holds (extend v) s.formatted_arg (ground arith) (ground arith) in
    (
      b,
      (rw (params, run)
          (print_arg-next color (signed_decimal (extend v)) b i (record s { params = rest }) h)),
    )
int-Converts color v i false rest s params small =
    let (b, run, h) = itoa-Holds v s.formatted_arg (omega arith) (omega arith) in
    (
      b,
      (rw (params, run)
          (print_arg-next color (signed_decimal v) b i (record s { params = rest }) h)),
    )

-- Printing a string behind a prefix that is printed.
behind_prefix :
    (color i : ℕ) (pre cs : List ℕ) (rest : List Arg) (b : Buffer) (s : Log)
    → ◌≡◌ {A = Outcome Step}
        (done (
          next i
            (after color cs (record (after color pre s) { params = rest; formatted_arg = b }))))
        (done (next i (printed_log color (pre ++ cs) rest b s)))
behind_prefix color i pre cs rest b s =
    ap (λ t. done (next i (record s { tty = t; params = rest; formatted_arg = b })))
      (sym (put_list-append color pre cs s.tty))

pub hex-Converts :
    (color v i : ℕ) (hash upper : Bool) (rest : List Arg) (s : Log)
    → s.params ≡ int32 v ∷ rest
    → v < 2 ^ 32
    → Converts color
        (convert_hex color hash upper i s)
        i
        (prefix hash ++ (if upper then map toupper (hexadecimal v) else hexadecimal v))
        rest
        s
unfolding convert_hex
hex-Converts color v i hash false rest s params small =
    let s₁ = after color (prefix hash) s in
    let (b, run, h) = uitoa_hex-Holds v s₁.formatted_arg (omega arith) in
    (
      b,
      (rw (print_prefix-next color hash s) (
            rw (params, run)
              (print_arg-next color (hexadecimal v) b i (record s₁ { params = rest }) h)))
          ∙ behind_prefix color i (prefix hash) (hexadecimal v) rest b s,
    )
hex-Converts color v i hash true rest s params small =
    let s₁ = after color (prefix hash) s in
    let cs = map toupper (hexadecimal v) in
    let (b₁, run₁, h₁) = uitoa_hex-Holds v s₁.formatted_arg (omega arith) in
    let (b, run, h) = strupper-Holds b₁ (hexadecimal v) h₁ in
    (
      b,
      (rw (print_prefix-next color hash s)
            (rw (params, run₁, run) (print_arg-next color cs b i (record s₁ { params = rest }) h)))
          ∙ behind_prefix color i (prefix hash) cs rest b s,
    )

-- The cases of the ll-prefix, at a format that goes on behind it.
module _ (color len : ℕ) (fmt : Buffer) (hash : Bool) (i : ℕ) (rest : List Arg) (s : Log)
    (room : i + 2 < len) (fits : len < 2 ^ 32) where
  ll : fmt (i + 1) ≡ b'l' → (ltb i (sub32 len 2) && fmt (i + 1) == b'l') ≡ true
  ll here = ground arith

  pub long_signed-Converts :
      (letter v : ℕ)
      → (letter == b'd' || letter == b'i') ≡ true
      → fmt (i + 1) ≡ b'l'
      → fmt (i + 2) ≡ letter
      → s.params ≡ int64 v ∷ rest
      → v < 2 ^ 64
      → v ≢ 2 ^ 63
      → Converts color (convert_long color len fmt hash i s) (i + 2) (signed_decimal v) rest s
  unfolding convert_long print_long
  long_signed-Converts letter v kind l here params small ne =
      let (b, run, h) = itoa-Holds v s.formatted_arg small ne in
      (
        b,
        (rw (ll l, here, kind)
            (rw (params, run)
              (print_arg-next color (signed_decimal v) b (i + 2) (record s { params = rest }) h))),
      )

  pub long_unsigned-Converts :
      (v : ℕ)
      → fmt (i + 1) ≡ b'l'
      → fmt (i + 2) ≡ b'u'
      → s.params ≡ int64 v ∷ rest
      → v < 2 ^ 64
      → Converts color (convert_long color len fmt hash i s) (i + 2) (decimal_reversed v) rest s
  unfolding convert_long print_long
  long_unsigned-Converts v l here params small =
      let (b, run, h) = uitoa-Holds v s.formatted_arg small in
      (
        b,
        (rw (ll l, here)
            (rw (params, run)
              (print_arg-next color (decimal_reversed v) b (i + 2) (record s { params = rest })
                h))),
      )

  pub long_hex-Converts :
      (letter v : ℕ)
      → (letter == b'd' || letter == b'i') ≡ false
      → (letter == b'u') ≡ false
      → (letter == b'x' || letter == b'X') ≡ true
      → fmt i ≡ b'l'
      → fmt (i + 1) ≡ b'l'
      → fmt (i + 2) ≡ letter
      → s.params ≡ int64 v ∷ rest
      → v < 2 ^ 64
      → Converts color
          (convert_long color len fmt hash i s)
          (i + 2)
          (prefix hash ++ hexadecimal v)
          rest
          s
  unfolding convert_long print_long
  long_hex-Converts letter v not_d not_u kind first l here params small =
      let s₁ = after color (prefix hash) s in
      let (b, run, h) = uitoa_hex-Holds v s₁.formatted_arg small in
      (
        b,
        (rw (ll l, here, not_d, not_u, kind)
              (rw (print_prefix-next color hash s, first)
                (rw (params, run)
                  (print_arg-next color (hexadecimal v) b (i + 2) (record s₁ { params = rest })
                    h))))
            ∙ behind_prefix color (i + 2) (prefix hash) (hexadecimal v) rest b s,
      )
