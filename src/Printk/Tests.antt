-- ===== src/Printk/Tests.antt =====
-- Messages at concrete inputs.
use gubos.Prelude.{ℕ, zero, suc, ◌≡◌, refl, List, [], ◌∷◌, false, true, done, arith}
use gubos.Text.{Buffer}
use gubos.Text.Reverse.{Ends}
use gubos.Text.Numeral.{Holds, Holds-Ends}
use gubos.Tty.{Tty}
use gubos.Printk.{
  Log, Arg, int32, int64, printed, einval, vprintk, log_level_to_vga_color, printk_debug_level,
}
use gubos.Printk.Output.{after}
use gubos.Printk.Conversion.{signed, hex, long_hex, printed_log}
use gubos.Printk.Switch.{none, hash}
use gubos.Printk.Format.{Part, format, rendered}
use gubos.Printk.Loop.{vprintk-rendered}
use gubos.Printk.Errors.{vprintk-einval}

abbrev bytes : List ℕ → Buffer
bytes [] k = 0
bytes (c ∷ cs) zero = c
bytes (c ∷ cs) (suc k) = bytes cs k

abbrev screen : Tty
screen = record {
  row = 0;
  column = 0;
  default_color = 0x97;
  address = 0;
  cells = λ k. 0;
  height = 25;
  width = 80;
}

abbrev log : List Arg → Log
log args = record { tty = screen; params = args; formatted_arg = λ k. 0 }

-- "a=%#x, %d %llX!"
abbrev message : List Part
message =
    record { before = 97 ∷ 61 ∷ []; flag = hash; conversion = hex false 0xbe }
    ∷ record { before = 44 ∷ 32 ∷ []; flag = none; conversion = signed false 0xffff_fff4 }
    ∷ record { before = 32 ∷ []; flag = none; conversion = long_hex true 0xbeef }
    ∷ []

abbrev params : List Arg
params = int32 0xbe ∷ int32 0xffff_fff4 ∷ int64 0xbeef ∷ []

message-Holds : Holds (bytes (format message (33 ∷ []))) (format message (33 ∷ []))
message-Holds = record {
  chars = omega arith;
  nonzero = omega arith;
  stop = refl;
  short = omega arith;
}

vprintk-rendered_example :
    (b : Buffer) × (vprintk printk_debug_level (bytes (format message (33 ∷ []))) (log params)
      ≡ done (
        printed 15,
        printed_log
            (log_level_to_vga_color printk_debug_level)
            (rendered message (33 ∷ []))
            []
            b
            (log params),
      ))
vprintk-rendered_example =
    vprintk-rendered printk_debug_level message (33 ∷ []) (bytes (format message (33 ∷ []))) []
      (log params) message-Holds (omega arith) (omega arith) refl

-- "ab%q"
abbrev unknown_letter : Buffer
unknown_letter = bytes (97 ∷ 98 ∷ 37 ∷ 113 ∷ [])

unknown_letter-Ends : Ends unknown_letter 4
unknown_letter-Ends =
    Holds-Ends unknown_letter (97 ∷ 98 ∷ 37 ∷ 113 ∷ [])
      (record { chars = omega arith; nonzero = omega arith; stop = refl; short = omega arith })

vprintk-einval_example :
    vprintk printk_debug_level unknown_letter (log [])
    ≡ done (einval, after (log_level_to_vga_color printk_debug_level) (97 ∷ 98 ∷ []) (log []))
vprintk-einval_example =
    vprintk-einval printk_debug_level 4 (97 ∷ 98 ∷ []) unknown_letter (log []) unknown_letter-Ends
      (omega arith) (omega arith) (omega arith) refl (omega arith) (refl, refl, refl)
