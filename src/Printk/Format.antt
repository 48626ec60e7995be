-- ===== src/Printk/Format.antt =====
-- A format of vprintk (kernel/printk.c) as text and directives, and what the loop over it prints.
use gubos.Prelude.{
  ℕ, zero, suc, ◌+◌, ◌-◌, ◌<◌, ◌≡◌, ◌≢◌, refl, ap, ◌∙◌, ◌==◌, ltb, true, false, if◌then◌else◌, List,
  [], ◌∷◌, ◌++◌, length, arith,
}
use gubos.Text.{Buffer}
use gubos.Text.Numeral.{At, NonZero}
use gubos.Printk.{Log, Arg, print, shift, skip_text}
use gubos.Printk.Output.{put_list, print-put_list}
use gubos.Printk.Conversion.{Conversion, letters, args, Fits, shown}
use gubos.Printk.Switch.{Flag, flag_chars, is_hash, IsFlag}

-- a directive and the text before it
pub record Part : Type 0 where
  pub before : List ℕ
  pub flag : Flag
  pub conversion : Conversion

-- text without '%' and 0
abbrev pub Plain : List ℕ → Type 0
Plain [] = Unit {0}
Plain (c ∷ cs) = (c ≢ b'%') × (c ≢ 0) × Plain cs

abbrev pub format : List Part → (final : List ℕ) → List ℕ
format [] final = final
format (p ∷ ps) final =
    p.before ++ (b'%' ∷ (flag_chars p.flag ++ letters p.conversion) ++ format ps final)

abbrev pub arguments : List Part → List Arg → List Arg
arguments [] rest = rest
arguments (p ∷ ps) rest = args p.conversion ++ arguments ps rest

-- the text with what the conversions show in place of the directives
abbrev pub rendered : List Part → (final : List ℕ) → List ℕ
rendered [] final = final
rendered (p ∷ ps) final = p.before ++ (shown (is_hash p.flag) p.conversion ++ rendered ps final)

abbrev pub Parts : List Part → Type 0
Parts [] = Unit {0}
Parts (p ∷ ps) = Plain p.before × IsFlag p.flag × Fits p.conversion × Parts ps

Plain-NonZero : (cs : List ℕ) → Plain cs → NonZero cs
Plain-NonZero [] h = tt
Plain-NonZero (c ∷ cs) h = (h.1, Plain-NonZero cs h.2)

pub At-split :
    (s : Buffer) (i : ℕ) (cs ds : List ℕ) → At s i (cs ++ ds) → At s i cs × At s (i + length cs) ds
At-split s i [] ds h = let e : i ≡ i + 0 = omega arith in (tt, (rw e at h))
At-split s i (c ∷ cs) ds (here, h) =
    let (front, back) = At-split s (i + 1) cs ds h in
    let e : i + 1 + length cs ≡ i + length (c ∷ cs) = omega arith in ((here, front), (rw e at back))

At-shift : (s : Buffer) (start j : ℕ) (cs : List ℕ) → At s (start + j) cs → At (shift start s) j cs
At-shift s start j [] h = tt
At-shift s start j (c ∷ cs) (here, h) =
    let e : start + j + 1 ≡ start + (j + 1) = omega arith in
    (here, At-shift s start (j + 1) cs (rw e at h))

pub skip_text-stop :
    (cs : List ℕ) (rounds i : ℕ) (fmt : Buffer)
    → At fmt i cs
    → Plain cs
    → length cs < rounds
    → fmt (i + length cs) ≡ b'%'
    → skip_text rounds i fmt ≡ i + length cs
unfolding skip_text
skip_text-stop cs zero i fmt h plain more stop = absurd (omega arith)
skip_text-stop [] (suc rounds) i fmt h plain more stop =
    let e : i + 0 ≡ i = omega arith in
    let hit : (fmt i == b'%') ≡ true = ground (arith, ap fmt e) in rw hit (omega arith)
skip_text-stop (c ∷ cs) (suc rounds) i fmt (here, h) (off, _, plain) more stop =
    let e : i + 1 + length cs ≡ i + length (c ∷ cs) = omega arith in
    let miss : (fmt i == b'%') ≡ false = ground arith in
    rw miss (skip_text-stop cs rounds (i + 1) fmt h plain (omega arith) (ap fmt e ∙ stop) ∙ e)

pub skip_text-end :
    (cs : List ℕ) (i : ℕ) (fmt : Buffer)
    → At fmt i cs
    → Plain cs
    → skip_text (length cs) i fmt ≡ i + length cs
unfolding skip_text
skip_text-end [] i fmt h plain = omega arith
skip_text-end (c ∷ cs) i fmt (here, h) (off, _, plain) =
    let miss : (fmt i == b'%') ≡ false = ground arith in
    rw miss (skip_text-end cs (i + 1) fmt h plain ∙ omega arith)

-- the text of a round, which is printed if there is any
pub text_printed :
    (color : ℕ) (cs : List ℕ) (fmt : Buffer) (start : ℕ) (s : Log)
    → At fmt start cs
    → Plain cs
    → (if ltb start (start + length cs)
        then (print color (shift start fmt) (start + length cs - start) s.tty).1
        else s.tty)
      ≡ put_list color cs s.tty
unfolding put_list
text_printed color [] fmt start s h plain =
    let none : ltb start (start + 0) ≡ false = ground arith in rw none refl
text_printed color (c ∷ cs) fmt start s h plain =
    let n = length (c ∷ cs) in
    let some : ltb start (start + n) ≡ true = ground arith in
    let count : start + n - start ≡ n = omega arith in
    let e : start ≡ start + 0 = omega arith in
    let at = At-shift fmt start 0 (c ∷ cs) (rw e at h) in
    let run =
      print-put_list color (c ∷ cs) (shift start fmt) s.tty at (Plain-NonZero (c ∷ cs) plain) in
    rw (some, count) (ap (λ (r : ℕ × _). r.1) run)
