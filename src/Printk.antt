-- ===== src/Printk.antt =====
-- Kernel messages: kernel/printk.c.
pub mod Output
pub mod Conversion
pub mod Directive
pub mod Switch
pub mod Format
pub mod Loop
pub mod Errors
mod Tests
use gubos.Prelude.{
  ℕ, zero, suc, ◌+◌, ◌-◌, ◌%◌, ◌^◌, ◌==◌, ltb, leb, if◌then◌else◌, not, Bool, true, false, ◌&&◌,
  ◌||◌, List, [], ◌∷◌, Outcome, done, fault, hang, ◌>>=◌, sub32,
}
use gubos.Text.{Buffer, strlen, itoa, uitoa, uitoa_hex, strupper}
use gubos.Tty.{
  Tty, put_byte, vga_entry_color, vga_color_black, vga_color_red, vga_color_brown,
  vga_color_light_grey, vga_color_light_blue,
}

-- An argument behind the format: a 32-bit or a 64-bit number, or a string.
pub data Arg : Type 0 where
  int32 int64 : ℕ → Arg
  string : Buffer → Arg

-- va_arg: reading an argument as another type, or behind the last one, is undefined.
abbrev pub next_int32 : List Arg → Outcome (ℕ × List Arg)
next_int32 (int32 v ∷ args) = done (v, args)
next_int32 _ = fault

abbrev pub next_int64 : List Arg → Outcome (ℕ × List Arg)
next_int64 (int64 v ∷ args) = done (v, args)
next_int64 _ = fault

abbrev pub next_string : List Arg → Outcome (Buffer × List Arg)
next_string (string s ∷ args) = done (s, args)
next_string _ = fault

-- The variables that vprintk changes, but `i`: the screen, `params` and `formatted_arg`.
pub record Log : Type 0 where
  pub tty : Tty
  pub params : List Arg
  pub formatted_arg : Buffer

-- the format read up to offset `i`, or `return -EINVAL`
pub data Step : Type 0 where
  next : (i : ℕ) → Log → Step
  invalid : Log → Step

-- enum printk_log_level
abbrev pub printk_debug_level : ℕ
printk_debug_level = 0

abbrev pub printk_info_level : ℕ
printk_info_level = 1

abbrev pub printk_warn_level : ℕ
printk_warn_level = 2

abbrev pub printk_error_level : ℕ
printk_error_level = 3

unfoldable pub log_level_to_vga_color : ℕ → ℕ
unfolding vga_entry_color
log_level_to_vga_color log_level =
    if log_level == printk_debug_level
    then vga_entry_color vga_color_light_grey vga_color_light_blue
    else if log_level == printk_info_level
    then vga_entry_color vga_color_black vga_color_light_blue
    else if log_level == printk_warn_level
    then vga_entry_color vga_color_brown vga_color_light_blue
    else if log_level == printk_error_level
    then vga_entry_color vga_color_red vga_color_light_blue
    else vga_entry_color vga_color_black vga_color_light_blue

unfoldable pub putchar : (color ic : ℕ) → Tty → Tty
putchar color ic t = put_byte (ic % 256) color t

-- The loop of print from offset `i` on, with `rounds` bytes left; a 0 is put out and ends it.
unfoldable pub print_loop : (color : ℕ) → Buffer → (rounds i : ℕ) → Tty → ℕ × Tty
unfolding putchar
print_loop color bytes zero i t = (i, t)
print_loop color bytes (suc rounds) i t =
    let t' = putchar color (bytes i) t in
    let end : ℕ × Tty = (i, t') in
    let rest = print_loop color bytes rounds (i + 1) t' in if bytes i == 0 then end else rest

unfoldable pub print : (color : ℕ) → Buffer → (length : ℕ) → Tty → ℕ × Tty
unfolding print_loop
print color bytes length t = print_loop color bytes length 0 t

-- `s + i`
abbrev pub shift : ℕ → Buffer → Buffer
shift i s k = s (i + k)

-- PRINT_OR_RET
unfoldable pub print_or_ret : (color : ℕ) → Buffer → (length i : ℕ) → Log → Step
unfolding print
print_or_ret color bytes length i s =
    let (n, t) = print color bytes length s.tty in
    let s' = record s { tty = t } in if n == length then next i s' else invalid s'

-- `formatted_arg` is `b`; it is printed
unfoldable pub print_arg : (color : ℕ) → Buffer → (i : ℕ) → Log → Outcome Step
unfolding print_or_ret
print_arg color b i s = do
  n ← strlen b
  done (print_or_ret color b n i (record s { formatted_arg = b }))

-- "0x"
abbrev pub zero_x : Buffer
zero_x k = if k == 0 then 48 else if k == 1 then 120 else 0

-- the prefix of an alternate form
unfoldable pub print_prefix : (color : ℕ) (hash : Bool) → Log → Step
unfolding print_or_ret
print_prefix color hash s = if hash then print_or_ret color zero_x 2 0 s else next 0 s

-- what follows a PRINT_OR_RET
abbrev pub and_then : Step → (ℕ → Log → Outcome Step) → Outcome Step
and_then (next i s) k = k i s
and_then (invalid s) k = done (invalid s)

-- an `int` as a `long long`
abbrev pub extend : ℕ → ℕ
extend v = if leb (2 ^ 31) v then v + (2 ^ 64 - 2 ^ 32) else v

-- cases 'd' and 'i', and case 'u'
unfoldable pub convert_int : (color : ℕ) (signed : Bool) (i : ℕ) → Log → Outcome Step
unfolding itoa print_arg
convert_int color signed i s = do
  (v, args) ← next_int32 s.params
  b ← itoa (if signed then extend v else v) s.formatted_arg
  print_arg color b i (record s { params = args })

-- cases 'x' and 'X'
unfoldable pub convert_hex : (color : ℕ) (hash upper : Bool) (i : ℕ) → Log → Outcome Step
unfolding uitoa_hex strupper print_prefix print_arg
convert_hex color hash upper i s = and_then (print_prefix color hash s) (λ _ s₁. do
  (v, args) ← next_int32 s₁.params
  b ← uitoa_hex v s₁.formatted_arg
  b' ← if upper then strupper b else done b
  print_arg color b' i (record s₁ { params = args }))

-- what the cases of the ll-prefix have in common: the string, printed, and `i += 2`
unfoldable pub print_long : (color : ℕ) → Outcome (Buffer × List Arg) → (i : ℕ) → Log → Outcome Step
unfolding print_arg
print_long color converted i s = do
  (b, args) ← converted
  print_arg color b (i + 2) (record s { params = args })

-- Case 'l'; `c` is `fmt[i]`, which is not 'X' here.
unfoldable pub convert_long : (color len : ℕ) → Buffer → (hash : Bool) (i : ℕ) → Log → Outcome Step
unfolding itoa uitoa uitoa_hex print_prefix print_long
convert_long color len fmt hash i s =
    let kind = fmt (i + 2) in
    let signed = (do (v, args) ← next_int64 s.params; b ← itoa v s.formatted_arg; done (b, args)) in
    let unsigned = (do
      (v, args) ← next_int64 s.params
      b ← uitoa v s.formatted_arg
      done (b, args)) in
    let hex = λ (s₁ : Log). (do
      (v, args) ← next_int64 s₁.params
      b ← uitoa_hex v s₁.formatted_arg
      b' ← if fmt i == b'X' then strupper b else done b
      done (b', args)) in
    if ltb i (sub32 len 2) && fmt (i + 1) == b'l'
    then (if kind == b'd' || kind == b'i'
        then print_long color signed i s
        else if kind == b'u'
        then print_long color unsigned i s
        else if kind == b'x' || kind == b'X'
        then and_then (print_prefix color hash s) (λ _ s₁. print_long color (hex s₁) i s₁)
        else done (invalid s))
    else done (invalid s)

-- the switch on `fmt[i]`
unfoldable pub convert : (color len : ℕ) → Buffer → (hash : Bool) (i : ℕ) → Log → Outcome Step
unfolding print_or_ret convert_int convert_hex putchar
convert color len fmt hash i s =
    let c = fmt i in
    let char = (do
      (v, args) ← next_int32 s.params
      done (next i (record s { tty = putchar color v s.tty; params = args }))) in
    let text = (do
      (b, args) ← next_string s.params
      n ← strlen b
      done (print_or_ret color b n i (record s { params = args }))) in
    if c == b'%'
    then done (print_or_ret color (shift i fmt) 1 i s)
    else if c == b'd' || c == b'i'
    then convert_int color true i s
    else if c == b'u'
    then convert_int color false i s
    else if c == b'x' || c == b'X'
    then convert_hex color hash (c == b'X') i s
    else if c == b'l'
    then convert_long color len fmt hash i s
    else if c == b'c'
    then char
    else if c == b's'
    then text
    else done (invalid s)

-- flags that are read and do nothing
abbrev pub ignored_flag : ℕ → Bool
ignored_flag c = c == b'-' || c == b'+' || c == b' ' || c == b'0'

-- The body of `if (fmt[i] == '%')`: the flag, the switch, `++i`.
unfoldable pub directive : (color len : ℕ) → Buffer → (i : ℕ) → Log → Outcome Step
directive color len fmt i s =
    let flag = fmt (i + 1) in
    let hash = flag == b'#' in
    let i₁ = if hash || ignored_flag flag then i + 1 else i in
    if i == len || i₁ == len
    then done (invalid s)
    else convert color len fmt hash (i₁ + 1) s >>= λ st.
        and_then st (λ i₂ s'. done (next (i₂ + 1) s'))

-- the inner while: the offset of the next '%', or `len`
unfoldable pub skip_text : (rounds i : ℕ) → Buffer → ℕ
skip_text zero i fmt = i
skip_text (suc rounds) i fmt =
    let rest = skip_text rounds (i + 1) fmt in if fmt i == b'%' then i else rest

-- what vprintk returns: `len` or `-EINVAL`
pub data Returned : Type 0 where
  printed : ℕ → Returned
  einval : Returned

-- a round of the outer while
unfoldable pub round : (color len : ℕ) → Buffer → (i : ℕ) → Log → Outcome Step
unfolding skip_text print directive
round color len fmt start s =
    let i = skip_text (len - start) start fmt in
    let (_, t) = print color (shift start fmt) (i - start) s.tty in
    let s₁ = record s { tty = if ltb start i then t else s.tty } in
    if fmt i == b'%' then directive color len fmt i s₁ else done (next i s₁)

-- the next round, or `return -EINVAL`
abbrev pub resume : Step → (ℕ → Log → Outcome (Returned × Log)) → Outcome (Returned × Log)
resume (next i s) k = k i s
resume (invalid s) k = done (einval, s)

unfoldable pub vprintk_loop :
    (color len : ℕ) → Buffer → (fuel i : ℕ) → Log → Outcome (Returned × Log)
vprintk_loop color len fmt zero i s = hang
vprintk_loop color len fmt (suc fuel) i s =
    let end : Returned × Log = (printed len, s) in
    let rest = round color len fmt i s >>= λ st. resume st (vprintk_loop color len fmt fuel) in
    if ltb i len then rest else done end

-- Each round goes on by a character at least.
unfoldable pub vprintk : (log_level : ℕ) → Buffer → Log → Outcome (Returned × Log)
unfolding strlen log_level_to_vga_color vprintk_loop
vprintk log_level fmt s = do
  len ← strlen fmt
  vprintk_loop (log_level_to_vga_color log_level) len fmt (len + 1) 0 s

-- the variadic wrappers
abbrev pub printk : (log_level : ℕ) → Buffer → Log → Outcome (Returned × Log)
printk log_level fmt s = vprintk log_level fmt s

abbrev pub printk_debug : Buffer → Log → Outcome (Returned × Log)
printk_debug fmt s = vprintk printk_debug_level fmt s

abbrev pub printk_info : Buffer → Log → Outcome (Returned × Log)
printk_info fmt s = vprintk printk_info_level fmt s

abbrev pub printk_warn : Buffer → Log → Outcome (Returned × Log)
printk_warn fmt s = vprintk printk_warn_level fmt s

abbrev pub printk_err : Buffer → Log → Outcome (Returned × Log)
printk_err fmt s = vprintk printk_error_level fmt s
