-- ===== src/Printk/Errors.antt =====
-- Formats that vprintk (kernel/printk.c) refuses.
use gubos.Prelude.{
  ℕ, suc, ◌+◌, ◌-◌, ◌^◌, ◌<◌, ◌≡◌, refl, ap, ◌∙◌, ◌==◌, ltb, true, false, Bool, Bool-cases, inl,
  inr, ◌||◌, List, length, done, arith,
}
use gubos.Text.{Buffer}
use gubos.Text.Reverse.{Ends, strlen_lem}
use gubos.Text.Numeral.{At}
use gubos.Printk.{
  Log, invalid, einval, ignored_flag, convert, directive, round, vprintk_loop, vprintk,
  log_level_to_vga_color,
}
use gubos.Printk.Output.{after}
use gubos.Printk.Format.{Plain, skip_text-stop, text_printed}

-- the letters of the switch
abbrev pub known : ℕ → Bool
known c =
    c == b'%'
    || c == b'd'
    || c == b'i'
    || c == b'u'
    || c == b'x'
    || c == b'X'
    || c == b'l'
    || c == b'c'
    || c == b's'

abbrev pub Unknown : ℕ → Type 0
Unknown c = (known c ≡ false) × ((c == b'#') ≡ false) × (ignored_flag c ≡ false)

-- each test of the switch fails
record Tests (c : ℕ) : Type 0 where
  pub percent : (c == b'%') ≡ false
  pub int : (c == b'd' || c == b'i') ≡ false
  pub unsigned : (c == b'u') ≡ false
  pub hex : (c == b'x' || c == b'X') ≡ false
  pub long : (c == b'l') ≡ false
  pub char : (c == b'c') ≡ false
  pub text : (c == b's') ≡ false

known-Tests : (c : ℕ) → known c ≡ false → Tests c
known-Tests c h = ground arith

convert-invalid :
    (color len : ℕ) (fmt : Buffer) (hash : Bool) (i : ℕ) (s : Log)
    → known (fmt i) ≡ false
    → convert color len fmt hash i s ≡ done (invalid s)
unfolding convert
convert-invalid color len fmt hash i s h =
    let t = known-Tests (fmt i) h in
    rw (t.percent, t.int, t.unsigned, t.hex, t.long, t.char, t.text) refl

directive-invalid :
    (color len : ℕ) (fmt : Buffer) (i : ℕ) (s : Log)
    → Unknown (fmt (i + 1))
    → directive color len fmt i s ≡ done (invalid s)
unfolding directive
directive-invalid color len fmt i s (letter, hash, flag) =
    let refused = convert-invalid color len fmt false (i + 1) s letter in
    rw (hash, flag)
      (elim (Bool-cases (i == len)) [
        | inl end ↦ rw end refl
        | inr inside ↦ rw (inside, refused) refl
      ])

loop-einval :
    (color len : ℕ) (fmt : Buffer) (fuel i : ℕ) (s s' : Log)
    → i < len
    → round color len fmt i s ≡ done (invalid s')
    → vprintk_loop color len fmt (suc fuel) i s ≡ done (einval, s')
unfolding vprintk_loop
loop-einval color len fmt fuel i s s' inside run =
    let go : ltb i len ≡ true = ground arith in rw (go, run) refl

round-invalid :
    (color len : ℕ) (before : List ℕ) (fmt : Buffer) (s : Log)
    → At fmt 0 before
    → Plain before
    → fmt (length before) ≡ b'%'
    → length before < len
    → Unknown (fmt (length before + 1))
    → round color len fmt 0 s ≡ done (invalid (after color before s))
unfolding round
round-invalid color len before fmt s h plain percent inside unknown =
    let n = length before in
    let there : 0 + n ≡ n = omega arith in
    let stop : fmt (0 + n) ≡ b'%' = ap fmt there ∙ percent in
    let skip = skip_text-stop before (len - 0) 0 fmt h plain (omega arith) stop in
    let at : (fmt (0 + n) == b'%') ≡ true = ground arith in
    let text = text_printed color before fmt 0 s h plain in
    let refused =
      directive-invalid color len fmt (0 + n) (after color before s) (rw there unknown) in
    rw skip (rw (at, text) refused)

-- If a format begins with text without '%' and then has a '%' that is followed by no flag and by a
-- character that is no conversion, or by the end, vprintk puts out the text and returns -EINVAL.
pub vprintk-einval :
    (log_level len : ℕ) (before : List ℕ) (fmt : Buffer) (s : Log)
    → Ends fmt len
    → len < 2 ^ 32
    → At fmt 0 before
    → Plain before
    → fmt (length before) ≡ b'%'
    → length before < len
    → Unknown (fmt (length before + 1))
    → vprintk log_level fmt s ≡ done (einval, after (log_level_to_vga_color log_level) before s)
unfolding vprintk
vprintk-einval log_level len before fmt s ends fits h plain percent inside unknown =
    let color = log_level_to_vga_color log_level in
    let run = round-invalid color len before fmt s h plain percent inside unknown in
    let fuel : len + 1 ≡ suc len = omega arith in
    rw (strlen_lem len fmt ends fits)
      (rw fuel (loop-einval color len fmt len 0 s (after color before s) (omega arith) run))
