-- ===== src/Printk/Output.antt =====
-- What the printing steps of kernel/printk.c put on the screen.
use gubos.Prelude.{
  ℕ, ◌+◌, ◌≡◌, refl, ap, ◌∙◌, ◌==◌, true, false, if◌then◌else◌, Bool, List, [], ◌∷◌, ◌++◌, length,
  done, arith,
}
use gubos.Text.{Buffer}
use gubos.Text.Reverse.{strlen_lem}
use gubos.Text.Numeral.{At, NonZero, Holds, Holds-Ends}
use gubos.Tty.{Tty}
use gubos.Printk.{
  Log, next, putchar, print_loop, print, print_or_ret, print_arg, print_prefix, zero_x,
}

-- the screen behind the characters
unfoldable pub put_list : (color : ℕ) → List ℕ → Tty → Tty
put_list color [] t = t
put_list color (c ∷ cs) t = put_list color cs (putchar color c t)

pub put_list-append :
    (color : ℕ) (cs ds : List ℕ) (t : Tty)
    → put_list color (cs ++ ds) t ≡ put_list color ds (put_list color cs t)
unfolding put_list
put_list-append color [] ds t = refl
put_list-append color (c ∷ cs) ds t = put_list-append color cs ds (putchar color c t)

print_loop-put_list :
    (color : ℕ) (cs : List ℕ) (bytes : Buffer) (i : ℕ) (t : Tty)
    → At bytes i cs
    → NonZero cs
    → print_loop color bytes (length cs) i t ≡ (i + length cs, put_list color cs t)
unfolding print_loop put_list
print_loop-put_list color [] bytes i t h nz = ap (λ n. (n, t)) (omega arith)
print_loop-put_list color (c ∷ cs) bytes i t (here, h) (n, nz) =
    let off : (bytes i == 0) ≡ false = ground arith in
    rw off (
      print_loop-put_list color cs bytes (i + 1) (putchar color (bytes i) t) h nz
      ∙ ap (λ n. (n, put_list color cs (putchar color (bytes i) t))) (omega arith)
      ∙ ap (λ b. (i + length (c ∷ cs), put_list color cs (putchar color b t))) here)

pub print-put_list :
    (color : ℕ) (cs : List ℕ) (bytes : Buffer) (t : Tty)
    → At bytes 0 cs
    → NonZero cs
    → print color bytes (length cs) t ≡ (length cs, put_list color cs t)
unfolding print
print-put_list color cs bytes t h nz =
    print_loop-put_list color cs bytes 0 t h nz ∙ ap (λ n. (n, put_list color cs t)) (omega arith)

-- the screen of the log behind the characters
abbrev pub after : (color : ℕ) → List ℕ → Log → Log
after color cs s = record s { tty = put_list color cs s.tty }

pub print_or_ret-next :
    (color : ℕ) (cs : List ℕ) (bytes : Buffer) (i : ℕ) (s : Log)
    → At bytes 0 cs
    → NonZero cs
    → print_or_ret color bytes (length cs) i s ≡ next i (after color cs s)
unfolding print_or_ret
print_or_ret-next color cs bytes i s h nz =
    let run = print-put_list color cs bytes s.tty h nz in
    let whole : (length cs == length cs) ≡ true = ground arith in rw run (rw whole refl)

pub print_arg-next :
    (color : ℕ) (cs : List ℕ) (b : Buffer) (i : ℕ) (s : Log)
    → Holds b cs
    → print_arg color b i s ≡ done (next i (after color cs (record s { formatted_arg = b })))
unfolding print_arg
print_arg-next color cs b i s h =
    rw (strlen_lem (length cs) b (Holds-Ends b cs h) h.short)
      (ap done (print_or_ret-next color cs b i (record s { formatted_arg = b }) h.chars h.nonzero))

-- "0x" or nothing
abbrev pub prefix : Bool → List ℕ
prefix hash = if hash then 48 ∷ 120 ∷ [] else []

pub print_prefix-next :
    (color : ℕ) (hash : Bool) (s : Log)
    → print_prefix color hash s ≡ next 0 (after color (prefix hash) s)
unfolding print_prefix put_list
print_prefix-next color true s =
    print_or_ret-next color (48 ∷ 120 ∷ []) zero_x 0 s (refl, (refl, tt))
      (omega arith, (omega arith, tt))
print_prefix-next color false s = refl
