-- ===== src/Text.antt =====
-- Strings and numbers: kernel/string and kernel/itoa.c, on a buffer of bytes that begins at the pointer.
pub mod Copy
pub mod Reverse
pub mod Digits
pub mod Convert
pub mod Numeral
pub mod Spelling
pub mod Upper
mod Tests
use gubos.Prelude.{
  ℕ, zero, suc, ◌+◌, ◌-◌, ◌*◌, ◌/◌, ◌%◌, ◌^◌, ◌==◌, ltb, leb, if◌then◌else◌, Bool, ◌&&◌, Outcome,
  done, hang, ◌>>=◌, bit_xor,
}

-- the byte at each offset
abbrev pub Buffer : Type 0
Buffer = ℕ → ℕ

abbrev pub set : ℕ → ℕ → Buffer → Buffer
set i v s k = if k == i then v else s k

-- for (i = 0; i < num; ++i) to[i] = from[i]; the two do not overlap
unfoldable pub memcpy : (to from : Buffer) (num : ℕ) → Buffer
memcpy to from zero = to
memcpy to from (suc num) = let copied = memcpy to from num in set num (from num) copied

unfoldable pub memset : (buf : Buffer) (value num : ℕ) → Buffer
memset buf value zero = buf
memset buf value (suc num) = let rest = memset buf value num in set num (value % 256) rest

-- the loop from offset `i` on; the difference is a `char`, here its 8 bits
unfoldable pub memcmp_loop : (num i : ℕ) (p1 p2 : Buffer) → ℕ
memcmp_loop zero i p1 p2 = 0
memcmp_loop (suc num) i p1 p2 =
    let v = (p1 i + 256 - p2 i) % 256 in
    let rest = memcmp_loop num (i + 1) p1 p2 in if v == 0 then rest else v

unfoldable pub memcmp : (p1 p2 : Buffer) (num : ℕ) → ℕ
unfolding memcmp_loop
memcmp p1 p2 num = memcmp_loop num 0 p1 p2

unfoldable pub strlen_loop : (fuel len : ℕ) → Buffer → Outcome ℕ
strlen_loop zero len s = hang
strlen_loop (suc fuel) len s =
    let rest = strlen_loop fuel (len + 1) s in if s len == 0 then done len else rest

-- no string is longer than the address space
unfoldable pub strlen_rounds : ℕ
strlen_rounds = 2 ^ 32

unfoldable pub strlen : Buffer → Outcome ℕ
strlen s = strlen_loop strlen_rounds 0 s

-- the three assignments of the XOR swap
unfoldable pub swap : (i j : ℕ) → Buffer → Buffer
swap i j s =
    let s₁ = set i (bit_xor (s i) (s j)) s in
    let s₂ = set j (bit_xor (s₁ i) (s₁ j)) s₁ in set i (bit_xor (s₂ i) (s₂ j)) s₂

-- while (i > j); `n` is `i + 1`, which is never negative
unfoldable pub rev_loop : (fuel n j : ℕ) → Buffer → Buffer
rev_loop zero n j s = s
rev_loop (suc fuel) n j s =
    let rest = rev_loop fuel (n - 1) (j + 1) (swap (n - 1) j s) in if ltb (j + 1) n then rest else s

-- `len` rounds are more than the loop takes
unfoldable pub strrev : Buffer → Outcome Buffer
unfolding rev_loop
strrev s = do len ← strlen s; done (rev_loop len len 0 s)

unfoldable pub islower : ℕ → Bool
islower c = leb 97 c && leb c 122

unfoldable pub toupper : ℕ → ℕ
unfolding islower
toupper c = if islower c then c - 32 else c

-- for (i = 0; i < strlen(s); ++i), with `rounds` more characters to look at than `strlen` counts
unfoldable pub strupper_loop : (rounds i : ℕ) → Buffer → Buffer
unfolding islower toupper
strupper_loop zero i s = s
strupper_loop (suc rounds) i s =
    let s' = if islower (s i) then set i (toupper (s i)) s else s in strupper_loop rounds (i + 1) s'

-- Upper-case letters are not 0: the length stays what it is at the first test.
unfoldable pub strupper : Buffer → Outcome Buffer
unfolding strupper_loop
strupper s = do len ← strlen s; done (strupper_loop len 0 s)

abbrev pub decimal_digit : ℕ → ℕ
decimal_digit d = d + 48

abbrev pub hex_digit : ℕ → ℕ
hex_digit d = if ltb d 10 then d + 48 else d - 10 + 97

-- while (value) { str[i++] = digit; value /= base; } returns `i`
unfoldable pub digits_loop :
    (base : ℕ) (digit : ℕ → ℕ) (fuel value i : ℕ) → Buffer → Outcome (ℕ × Buffer)
digits_loop base digit zero value i s = hang
digits_loop base digit (suc fuel) value i s =
    let end : ℕ × Buffer = (i, s) in
    let rest =
      digits_loop base digit fuel (value / base) (i + 1) (set i (digit (value % base)) s) in
    if value == 0 then done end else rest

-- a 64-bit number has no more digits
abbrev pub digit_rounds : ℕ
digit_rounds = 65

-- the common start: '0', or the digits; then the terminator
unfoldable pub write_number : (base : ℕ) (digit : ℕ → ℕ) (value i : ℕ) → Buffer → Outcome Buffer
write_number base digit value i s = do
  (n, s') ←
      if value == 0 then done (i + 1, set i 48 s) else digits_loop base digit digit_rounds value i s
  done (set n 0 s')

unfoldable pub uitoa : (value : ℕ) → Buffer → Outcome Buffer
unfolding write_number
uitoa value s = write_number 10 decimal_digit value 0 s

unfoldable pub uitoa_hex : (value : ℕ) → Buffer → Outcome Buffer
unfolding write_number strrev
uitoa_hex value s = do s' ← write_number 16 hex_digit value 0 s; strrev s'

-- `str + 1`, and a buffer with that tail
abbrev pub tail : Buffer → Buffer
tail s k = s (k + 1)

abbrev pub with_tail : ℕ → Buffer → Buffer
with_tail c s zero = c
with_tail c s (suc k) = s k

-- the branch of a negative number, whose negation is `value`
unfoldable pub itoa_negative : (value : ℕ) → Buffer → Outcome Buffer
unfolding write_number strrev
itoa_negative value s = do
  s₁ ← write_number 10 decimal_digit value 1 (set 0 45 s)
  t ← strrev (tail s₁)
  done (with_tail (s₁ 0) t)

-- `value` is the 64-bit pattern of the long long; the negation of the least one overflows
unfoldable pub itoa : (value : ℕ) → Buffer → Outcome Buffer
unfolding write_number strrev itoa_negative
itoa value s =
    let minus = itoa_negative (2 ^ 64 - value) s in
    let plus = write_number 10 decimal_digit value 0 s >>= strrev in
    if leb (2 ^ 63) value then minus else plus
