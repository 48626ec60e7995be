-- ===== src/Prelude/Word.antt =====
-- uint32_t (and size_t, which has 32 bits on i386) as a number below 2 ^ 32, wrapped by hand.
use Prim.Native.Nat.{ℕ, ◌+◌, ◌-◌, ◌*◌, ◌%◌, ◌^◌}

abbrev pub u32 : ℕ → ℕ
u32 x = x % 2 ^ 32

abbrev pub sub32 : ℕ → ℕ → ℕ
sub32 a b = (a + 2 ^ 32 - b) % 2 ^ 32

-- `x << k`, whose count the i386 takes modulo 32
abbrev pub shl32 : ℕ → ℕ → ℕ
shl32 x k = u32 (x * 2 ^ (k % 32))
