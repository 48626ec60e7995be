-- ===== src/Printk/Loop.antt =====
-- The loop of vprintk (kernel/printk.c) over a format of text and directives.
use gubos.Prelude.{
  ℕ, zero, suc, ◌+◌, ◌-◌, ◌^◌, ◌≤◌, ◌<◌, ◌≡◌, refl, sym, ap, ◌∙◌, ◌==◌, ltb, true, false, List, [],
  ◌∷◌, ◌++◌, length, length-append, done, arith,
}
use mathlib.Core.List.{append_assoc}
use gubos.Text.{Buffer}
use gubos.Tty.{Tty}
use gubos.Text.Reverse.{strlen_lem}
use gubos.Text.Numeral.{At, Holds, Holds-Ends}
use gubos.Printk.{
  Log, next, Arg, printed, directive, round, vprintk_loop, vprintk, log_level_to_vga_color,
}
use gubos.Printk.Output.{put_list, put_list-append, after}
use gubos.Printk.Conversion.{letters, args, shown, printed_log}
use gubos.Printk.Switch.{flag_chars, is_hash, directive-Directs}
use gubos.Printk.Format.{
  Part, Plain, format, arguments, rendered, Parts, At-split, skip_text-stop, skip_text-end,
  text_printed,
}

-- the characters of a part, and what it shows
abbrev size : Part → ℕ
size p = length p.before + (1 + length (flag_chars p.flag) + length (letters p.conversion))

abbrev part_shown : Part → List ℕ
part_shown p = p.before ++ shown (is_hash p.flag) p.conversion

abbrev source : Part → List ℕ
source p = p.before ++ (b'%' ∷ (flag_chars p.flag ++ letters p.conversion))

length-source : (p : Part) → length (source p) ≡ size p
length-source p =
    let outer = length-append p.before (b'%' ∷ (flag_chars p.flag ++ letters p.conversion)) in
    let inner = length-append (flag_chars p.flag) (letters p.conversion) in omega arith

format-cons :
    (p : Part) (ps : List Part) (final : List ℕ)
    → format (p ∷ ps) final ≡ source p ++ format ps final
format-cons p ps final =
    sym
      (append_assoc p.before (b'%' ∷ (flag_chars p.flag ++ letters p.conversion)) (format ps final))

rendered-cons :
    (p : Part) (ps : List Part) (final : List ℕ)
    → rendered (p ∷ ps) final ≡ part_shown p ++ rendered ps final
rendered-cons p ps final =
    sym (append_assoc p.before (shown (is_hash p.flag) p.conversion) (rendered ps final))

module _ (color len : ℕ) (fmt : Buffer) (fits : len < 2 ^ 32) where
  round-final :
      (cs : List ℕ) (start : ℕ) (s : Log)
      → At fmt start cs
      → Plain cs
      → start + length cs ≡ len
      → fmt len ≡ 0
      → round color len fmt start s ≡ done (next len (after color cs s))
  unfolding round
  round-final cs start s h plain end stop =
      let rounds : len - start ≡ length cs = omega (arith, end) in
      let skip = skip_text-end cs start fmt h plain in
      let last : (fmt (start + length cs) == b'%') ≡ false = ground (arith, ap fmt end) in
      let text = text_printed color cs fmt start s h plain in
      rw (rounds, skip) (rw (last, text) (ap (λ n. done (next n (after color cs s))) end))

  round-part :
      (p : Part) (start : ℕ) (rest : List Arg) (s : Log)
      → At fmt start (p.before ++ (b'%' ∷ (flag_chars p.flag ++ letters p.conversion)))
      → Parts (p ∷ [])
      → start + size p ≤ len
      → s.params ≡ args p.conversion ++ rest
      → (b : Buffer) × (round color len fmt start s
          ≡ done (next (start + size p) (printed_log color (part_shown p) rest b s)))
  unfolding round
  round-part p start rest s h (plain, flag, ok, _) room params =
      let n = length p.before in
      let (front, (percent, back)) =
        At-split fmt start p.before (b'%' ∷ (flag_chars p.flag ++ letters p.conversion)) h in
      let skip =
        skip_text-stop p.before (len - start) start fmt front plain (omega (arith, room)) percent in
      let at : (fmt (start + n) == b'%') ≡ true = ground arith in
      let text = text_printed color p.before fmt start s front plain in
      let s₁ = after color p.before s in
      let go : round color len fmt start s ≡ directive color len fmt (start + n) s₁ =
        rw skip (rw (at, text) refl) in
      let (b, run) =
        directive-Directs color len fmt (start + n) rest s₁ fits p.flag p.conversion back
          (omega (arith, room)) params flag ok in
      let joined = put_list-append color p.before (shown (is_hash p.flag) p.conversion) s.tty in
      let log = λ (t : Tty). record s { tty = t; params = rest; formatted_arg = b } in
      let at_end = start + n + 1 + length (flag_chars p.flag) + length (letters p.conversion) in
      (
        b,
        go
            ∙ run
            ∙ ap (λ t. done (next at_end (log t))) (sym joined)
            ∙ ap (λ i. done (next i (printed_log color (part_shown p) rest b s))) (omega arith),
      )

  loop_end :
      (fuel i : ℕ) (s : Log)
      → i ≡ len
      → vprintk_loop color len fmt (suc fuel) i s ≡ done (printed len, s)
  unfolding vprintk_loop
  loop_end fuel i s e = let stop : ltb i len ≡ false = ground arith in rw stop refl

  loop_round :
      (fuel i i' : ℕ) (s s' : Log)
      → i < len
      → round color len fmt i s ≡ done (next i' s')
      → vprintk_loop color len fmt (suc fuel) i s ≡ vprintk_loop color len fmt fuel i' s'
  unfolding vprintk_loop
  loop_round fuel i i' s s' more run =
      let go : ltb i len ≡ true = ground arith in rw go (rw run refl)

  loop-rendered :
      (ps : List Part) (final : List ℕ) (fuel i : ℕ) (rest : List Arg) (s : Log)
      → At fmt i (format ps final)
      → Parts ps
      → Plain final
      → i + length (format ps final) ≡ len
      → fmt len ≡ 0
      → len < fuel + i
      → s.params ≡ arguments ps rest
      → (b : Buffer) × (vprintk_loop color len fmt fuel i s
          ≡ done (printed len, printed_log color (rendered ps final) rest b s))
  unfolding put_list
  loop-rendered [] [] zero i rest s h parts plain end stop enough params = absurd (omega arith)
  loop-rendered [] [] (suc fuel) i rest s h parts plain end stop enough params = (
    s.formatted_arg,
    loop_end fuel i s (omega (arith, end))
        ∙ ap (λ q. done (printed len, record s { params = q })) params,
  )
  loop-rendered [] (c ∷ cs) zero i rest s h parts plain end stop enough params =
      absurd (omega (arith, end))
  loop-rendered [] (c ∷ cs) (suc zero) i rest s h parts plain end stop enough params =
      absurd (omega (arith, end))
  loop-rendered [] (c ∷ cs) (suc (suc fuel)) i rest s h parts plain end stop enough params = (
    s.formatted_arg,
    loop_round (suc fuel) i len s (after color (c ∷ cs) s) (omega (arith, end))
          (round-final (c ∷ cs) i s h plain end stop)
        ∙ loop_end fuel len (after color (c ∷ cs) s) refl
        ∙ ap (λ q. done (printed len, record (after color (c ∷ cs) s) { params = q })) params,
  )
  loop-rendered (p ∷ ps) final zero i rest s h parts plain end stop enough params =
      absurd (omega (arith, end))
  loop-rendered (p ∷ ps) final (suc fuel) i rest s h (before, flag, ok, parts) plain end stop enough
        params =
      let whole = format-cons p ps final in
      let count = length-append (source p) (format ps final) in
      let own = length-source p in
      let total = ap length whole in
      let (front, back) = At-split fmt i (source p) (format ps final) (rw (sym whole) h) in
      let (b₁, run) =
        round-part p i (arguments ps rest) s front (before, flag, ok, tt) (omega arith) params in
      let s₁ = printed_log color (part_shown p) (arguments ps rest) b₁ s in
      let next_at : i + length (source p) ≡ i + size p = omega arith in
      let (b, go) =
        loop-rendered ps final fuel (i + size p) rest s₁ (rw (sym next_at) back) parts plain
          (omega arith) stop (omega arith) refl in
      let text = rendered-cons p ps final in
      let joined = put_list-append color (part_shown p) (rendered ps final) s.tty in
      let log = λ (t : Tty). record s { tty = t; params = rest; formatted_arg = b } in
      (
        b,
        loop_round fuel i (i + size p) s s₁ (omega arith) run
            ∙ go
            ∙ ap (λ t. done (printed len, log t))
                (sym joined ∙ ap (λ cs. put_list color cs s.tty) (sym text)),
      )

-- If a format is text without '%' and directives, each with at most one flag and a known conversion,
-- and the arguments in order have the types of the conversions (no least `long long`), vprintk returns
-- the length of the format and puts out its text with, in place of each directive, what its conversion
-- shows: numbers in their notation, characters, strings, and 0x for the flag '#'. With the prefix ll,
-- 'X' shows lower-case digits and 'u' shows the lowest digit first.
pub vprintk-rendered :
    (log_level : ℕ) (ps : List Part) (final : List ℕ) (fmt : Buffer) (rest : List Arg) (s : Log)
    → Holds fmt (format ps final)
    → Parts ps
    → Plain final
    → s.params ≡ arguments ps rest
    → (b : Buffer) × (vprintk log_level fmt s
        ≡ done (
          printed (length (format ps final)),
          printed_log (log_level_to_vga_color log_level) (rendered ps final) rest b s,
        ))
unfolding vprintk
vprintk-rendered log_level ps final fmt rest s h parts plain params =
    let len = length (format ps final) in
    let color = log_level_to_vga_color log_level in
    let (b, run) =
      loop-rendered color len fmt h.short ps final (len + 1) 0 rest s h.chars parts plain
        (omega arith) h.stop (omega arith) params in
    (b, (rw (strlen_lem len fmt (Holds-Ends fmt (format ps final) h) h.short) run))
