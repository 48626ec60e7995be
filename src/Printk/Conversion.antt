-- ===== src/Printk/Conversion.antt =====
-- The conversions of a format of vprintk (kernel/printk.c), and what they print.
use gubos.Prelude.{ℕ, ◌^◌, ◌<◌, ◌≢◌, if◌then◌else◌, Bool, List, [], ◌∷◌, ◌++◌, map}
use gubos.Text.{Buffer, toupper}
use gubos.Text.Numeral.{Holds}
use gubos.Text.Spelling.{decimal_reversed, hexadecimal, signed_decimal}
use gubos.Printk.{Log, Arg, int32, int64, string, extend}
use gubos.Printk.Output.{put_list, prefix}

-- A conversion with its argument. The Boolean of `signed` and `long_signed` tells 'i' from 'd', that of
-- the others 'X' from 'x'.
pub data Conversion : Type 0 where
  percent : Conversion
  signed : Bool → ℕ → Conversion
  unsigned : ℕ → Conversion
  hex : Bool → ℕ → Conversion
  long_signed : Bool → ℕ → Conversion
  long_unsigned : ℕ → Conversion
  long_hex : Bool → ℕ → Conversion
  char : ℕ → Conversion
  text : Buffer → List ℕ → Conversion

-- the characters behind the '%' and the flag
abbrev pub letters : Conversion → List ℕ
letters percent = b'%' ∷ []
letters (signed i v) = (if i then b'i' else b'd') ∷ []
letters (unsigned v) = b'u' ∷ []
letters (hex upper v) = (if upper then b'X' else b'x') ∷ []
letters (long_signed i v) = b'l' ∷ b'l' ∷ (if i then b'i' else b'd') ∷ []
letters (long_unsigned v) = b'l' ∷ b'l' ∷ b'u' ∷ []
letters (long_hex upper v) = b'l' ∷ b'l' ∷ (if upper then b'X' else b'x') ∷ []
letters (char v) = b'c' ∷ []
letters (text b cs) = b's' ∷ []

abbrev pub args : Conversion → List Arg
args percent = []
args (signed i v) = int32 v ∷ []
args (unsigned v) = int32 v ∷ []
args (hex upper v) = int32 v ∷ []
args (long_signed i v) = int64 v ∷ []
args (long_unsigned v) = int64 v ∷ []
args (long_hex upper v) = int64 v ∷ []
args (char v) = int32 v ∷ []
args (text b cs) = string b ∷ []

-- the argument is of its type; a string is what the buffer holds
abbrev pub Fits : Conversion → Type 0
Fits percent = Unit {0}
Fits (signed i v) = v < 2 ^ 32
Fits (unsigned v) = v < 2 ^ 32
Fits (hex upper v) = v < 2 ^ 32
Fits (long_signed i v) = (v < 2 ^ 64) × (v ≢ 2 ^ 63)
Fits (long_unsigned v) = v < 2 ^ 64
Fits (long_hex upper v) = v < 2 ^ 64
Fits (char v) = Unit {0}
Fits (text b cs) = Holds b cs

-- What is printed. With the ll-prefix 'X' prints lower-case digits, and 'u' the digits in the wrong order.
abbrev pub shown : (hash : Bool) → Conversion → List ℕ
shown hash percent = b'%' ∷ []
shown hash (signed i v) = signed_decimal (extend v)
shown hash (unsigned v) = signed_decimal v
shown hash (hex upper v) =
    prefix hash ++ (if upper then map toupper (hexadecimal v) else hexadecimal v)
shown hash (long_signed i v) = signed_decimal v
shown hash (long_unsigned v) = decimal_reversed v
shown hash (long_hex upper v) = prefix hash ++ hexadecimal v
shown hash (char v) = v ∷ []
shown hash (text b cs) = cs

-- the log behind a conversion
abbrev pub printed_log : (color : ℕ) → List ℕ → List Arg → Buffer → Log → Log
printed_log color cs rest b s = record s {
  tty = put_list color cs s.tty;
  params = rest;
  formatted_arg = b;
}
