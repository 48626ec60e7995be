-- ===== src/Prelude/Run.antt =====
-- How a kernel routine ends: it returns, it panics (kernel/include/panic.h: PANIC and ASSERT halt the
-- machine), it touches memory that it must not (a NULL, freed or uninitialised pointer), or it loops
-- for ever.
use mathlib.Core.Path.{◌≡◌, refl}
use mathlib.Core.Bool.{Bool, true, false}

-- The messages of the PANIC and ASSERT lines, one constructor for each.
pub data Reason : Type 0 where
  unaligned_virtual unaligned_physical out_of_memory no_free_blocks no_free_range : Reason
  unmap_too_much unmap_not_found invalid_vmm_state no_physical_page no_memory_map : Reason
  cannot_remove_task task_not_found bad_elf bad_init_pid unsupported_program_header : Reason
  user_protection_fault kernel_protection_fault unknown_syscall init_exited : Reason
  no_page_directory no_page_tables received_exception : Reason

pub data Outcome {ℓ} (A : Type ℓ) : Type ℓ where
  done : A → Outcome A
  panic : Reason → Outcome A
  fault : Outcome A
  hang : Outcome A

infixl 5 ◌>>=◌ ◌>>◌
abbrev pub ◌>>=◌ {ℓ κ} : {A : Type ℓ} {B : Type κ} → Outcome A → (A → Outcome B) → Outcome B
done a >>= f = f a
panic r >>= f = panic r
fault >>= f = fault
hang >>= f = hang

abbrev pub ◌>>◌ {ℓ} : {B : Type ℓ} → Outcome (Unit {0}) → Outcome B → Outcome B
m >> k = m >>= λ _. k

-- ASSERT(expr, ...)
abbrev pub assert : Bool → Reason → Outcome (Unit {0})
assert true r = done tt
assert false r = panic r

-- Inversion of a bind that returns.
pub >>=-eq-done {ℓ κ} :
    {A : Type ℓ} {B : Type κ} (m : Outcome A) (f : A → Outcome B) {b : B}
    → (m >>= f) ≡ done b
    → (a : A) × (m ≡ done a) × (f a ≡ done b)
>>=-eq-done (done a) f h = (a, refl, h)
>>=-eq-done (panic r) f h = cc
>>=-eq-done fault f h = cc
>>=-eq-done hang f h = cc

-- The same, for a goal that follows from each step.
pub >>=-elim {ℓ κ μ} :
    {A : Type ℓ} {B : Type κ} {P : Type μ} (m : Outcome A) (f : A → Outcome B) {b : B}
    → ((a : A) → m ≡ done a → f a ≡ done b → P)
    → (m >>= f) ≡ done b
    → P
>>=-elim (done a) f k h = k a refl h
>>=-elim (panic r) f k h = absurd (cc)
>>=-elim fault f k h = absurd (cc)
>>=-elim hang f k h = absurd (cc)
