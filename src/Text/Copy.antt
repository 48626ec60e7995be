-- ===== src/Text/Copy.antt =====
-- The byte loops of kernel/string: memcpy, memset, memcmp and strupper.
use gubos.Prelude.{
  ℕ, zero, suc, ◌+◌, ◌-◌, ◌%◌, ◌^◌, ◌<◌, ◌≡◌, ◌≢◌, true, false, ◌↔◌, refl, sym, ap, ◌∙◌, ◌==◌, ltb,
  leb, if◌then◌else◌, ◌&&◌, Bool-cases, inl, inr, done, arith,
}
use gubos.Text.{
  Buffer, set, memcpy, memset, memcmp, memcmp_loop, islower, toupper, strupper_loop, strupper,
}
use gubos.Text.Reverse.{Ends, strlen_lem}

-- memcpy leaves the bytes of the source below `num`, and the others as they were.
memcpy_lem :
    (to from : Buffer) (num k : ℕ) → memcpy to from num k ≡ (if ltb k num then from k else to k)
unfolding memcpy
memcpy_lem to from zero k = ground arith
memcpy_lem to from (suc num) k =
    let rest = memcpy_lem to from num k in
    elim (Bool-cases (k == num)) [
      | inl e ↦
          let at : k ≡ num = ground arith in
          let same : from num ≡ from k = ap from (sym at) in ground arith
      | inr e ↦ ground arith
    ]

-- memset leaves the value's low byte below `num`, and the other bytes as they were.
memset_lem :
    (buf : Buffer) (value num k : ℕ)
    → memset buf value num k ≡ (if ltb k num then value % 256 else buf k)
unfolding memset
memset_lem buf value zero k = ground arith
memset_lem buf value (suc num) k = let rest = memset_lem buf value num k in ground arith

-- `num` bytes from `i` on are the same
abbrev Same : (num i : ℕ) → Buffer → Buffer → Type 0
Same zero i p q = Unit
Same (suc num) i p q = (p i ≡ q i) × Same num (i + 1) p q

module _ (p q : Buffer) (p_bytes : (k : ℕ) → p k < 256) (q_bytes : (k : ℕ) → q k < 256) where
  memcmp_loop-Same : (num i : ℕ) → memcmp_loop num i p q ≡ 0 → Same num i p q
  unfolding memcmp_loop
  memcmp_loop-Same zero i h = tt
  memcmp_loop-Same (suc num) i h =
      let pb = p_bytes i in
      let qb = q_bytes i in
      let v = (p i + 256 - q i) % 256 in
      let none : v ≡ 0 = ground arith in
      let rest : memcmp_loop num (i + 1) p q ≡ 0 = ground arith in
      (omega arith, memcmp_loop-Same num (i + 1) rest)

  Same-memcmp_loop : (num i : ℕ) → Same num i p q → memcmp_loop num i p q ≡ 0
  unfolding memcmp_loop
  Same-memcmp_loop zero i h = refl
  Same-memcmp_loop (suc num) i (here, more) =
      let pb = p_bytes i in
      let none : (p i + 256 - q i) % 256 ≡ 0 = omega (arith, here) in
      let rest = Same-memcmp_loop num (i + 1) more in ground arith

  -- On bytes, memcmp is 0 exactly when the first `num` bytes are the same.
  memcmp_iff : (num : ℕ) → (memcmp p q num ≡ 0) ↔ Same num 0 p q
  unfolding memcmp
  memcmp_iff num = (memcmp_loop-Same num 0, Same-memcmp_loop num 0)

upper : ℕ → Buffer → Buffer
upper i s = if islower (s i) then set i (toupper (s i)) s else s

upper-here : (i : ℕ) (s : Buffer) → upper i s i ≡ toupper (s i)
unfolding upper toupper islower
upper-here i s = ground arith

upper-other : (i : ℕ) (s : Buffer) (k : ℕ) → k ≢ i → upper i s k ≡ s k
unfolding upper
upper-other i s k off = ground arith

strupper_loop_lem :
    (rounds i : ℕ) (s : Buffer) (k : ℕ)
    → strupper_loop rounds i s k ≡ (if leb i k && ltb k (i + rounds) then toupper (s k) else s k)
unfolding strupper_loop upper
strupper_loop_lem zero i s k = ground arith
strupper_loop_lem (suc rounds) i s k =
    let rest = strupper_loop_lem rounds (i + 1) (upper i s) k in
    elim (Bool-cases (k == i)) [
      | inl e ↦
          let at : k ≡ i = ground arith in
          let here : upper i s k ≡ toupper (s k) =
            ap (upper i s) at ∙ upper-here i s ∙ ap (λ c. toupper (s c)) (sym at) in
          let inside : (leb i k && ltb k (i + suc rounds)) ≡ true = ground arith in
          let past : (leb (i + 1) k && ltb k (i + 1 + rounds)) ≡ false = ground arith in
          rest ∙ rw (past, inside) here
      | inr e ↦
          let off : k ≢ i = ground arith in
          let same = upper-other i s k off in
          let tests : (leb (i + 1) k && ltb k (i + 1 + rounds))
              ≡ (leb i k && ltb k (i + suc rounds)) =
            ground arith in
          rest
          ∙ ap (λ c. if leb (i + 1) k && ltb k (i + 1 + rounds) then toupper c else c) same
          ∙ ap (λ b. if b then toupper (s k) else s k) tests
    ]

-- strupper returns, with toupper applied to each character of the string and all other bytes as they were.
pub strupper_lem :
    (n : ℕ) (s : Buffer)
    → Ends s n
    → n < 2 ^ 32
    → (s' : Buffer) × (strupper s ≡ done s')
      × ((k : ℕ) → s' k ≡ (if ltb k n then toupper (s k) else s k))
unfolding strupper
strupper_lem n s ends small =
    let run : strupper s ≡ done (strupper_loop n 0 s) = rw (strlen_lem n s ends small) refl in
    (strupper_loop n 0 s, run, λ k. strupper_loop_lem n 0 s k ∙ ground arith)
