-- ===== src/Text/Reverse.antt =====
-- strlen and strrev of kernel/string/string.c.
use gubos.Prelude.{
  ℕ, zero, suc, ◌+◌, ◌-◌, ◌^◌, ◌≤◌, ◌<◌, ◌≡◌, ◌≢◌, refl, sym, ap, ◌∙◌, ◌==◌, ltb, leb, ltb→lt,
  if◌then◌else◌, ◌&&◌, Bool-cases, inl, inr, done, bit_xor, arith,
}
use gubos.Prelude.Xor.{bit_xor_comm, bit_xor_cancel}
use gubos.Text.{Buffer, set, strlen_loop, strlen_rounds, strlen, swap, rev_loop, strrev}

-- the first 0 of the buffer is at `n`
pub record Ends (s : Buffer) (n : ℕ) : Type 0 where
  pub stop : s n ≡ 0
  pub before : (k : ℕ) → k < n → s k ≢ 0

strlen_loop-Ends :
    (fuel len n : ℕ) (s : Buffer)
    → Ends s n
    → len ≤ n
    → n < len + fuel
    → strlen_loop fuel len s ≡ done n
unfolding strlen_loop
strlen_loop-Ends zero len n s ends low enough = absurd (omega arith)
strlen_loop-Ends (suc fuel) len n s ends low enough = elim (Bool-cases (ltb len n)) [
  | inl more ↦
      let go = ends.before len (ltb→lt len n more) in
      let rest =
        strlen_loop-Ends fuel (len + 1) n s ends (omega (arith, ltb→lt len n more)) (omega arith) in
      ground arith
  | inr last ↦
      let at : len ≡ n = ground arith in let stop : s len ≡ 0 = ap s at ∙ ends.stop in ground arith
]

-- strlen returns the offset of the first 0, if there is one in the address space.
pub strlen_lem : (n : ℕ) (s : Buffer) → Ends s n → n < 2 ^ 32 → strlen s ≡ done n
unfolding strlen strlen_rounds
strlen_lem n s ends small = strlen_loop-Ends (2 ^ 32) 0 n s ends (omega arith) (omega arith)

-- The three exclusive ors exchange two different bytes.
swap_lem :
    (i j : ℕ) (s : Buffer) (k : ℕ)
    → j < i
    → swap i j s k ≡ (if k == i then s j else if k == j then s i else s k)
unfolding swap
swap_lem i j s k apart =
    let a = s i in
    let b = s j in
    let first = bit_xor_cancel a b in
    let second : bit_xor (bit_xor a b) a ≡ b =
      ap (λ x. bit_xor x a) (bit_xor_comm a b) ∙ bit_xor_cancel b a in
    let s₁ = set i (bit_xor a b) s in
    let s₂ = set j (bit_xor (s₁ i) (s₁ j)) s₁ in
    let at₁ : s₁ i ≡ bit_xor a b = ground arith in
    let at₂ : s₁ j ≡ b = ground arith in
    let at₃ : s₂ i ≡ bit_xor a b = ground arith in
    let at₄ : s₂ j ≡ bit_xor (s₁ i) (s₁ j) = ground arith in
    let at₅ : s₂ j ≡ a =
      at₄ ∙ ap (λ x. bit_xor x (s₁ j)) at₁ ∙ ap (bit_xor (bit_xor a b)) at₂ ∙ first in
    let last : bit_xor (s₂ i) (s₂ j) ≡ b =
      ap (λ x. bit_xor x (s₂ j)) at₃ ∙ ap (bit_xor (bit_xor a b)) at₅ ∙ second in
    elim (Bool-cases (k == i)) [
      | inl e ↦ rw e last
      | inr e ↦ elim (Bool-cases (k == j)) [
        | inl f ↦ rw (e, f) (sym at₄ ∙ at₅)
        | inr f ↦ rw (e, f) refl
      ]
    ]

abbrev pub turned : (n j : ℕ) → Buffer → Buffer
turned n j s k = if leb j k && ltb k n then s (j + n - 1 - k) else s k

turned_step :
    (n j : ℕ) (s : Buffer) (k : ℕ)
    → j + 1 < n
    → turned (n - 1) (j + 1) (swap (n - 1) j s) k ≡ turned n j s k
turned_step n j s k more =
    let m = j + 1 + (n - 1) - 1 - k in
    let at = swap_lem (n - 1) j s k (omega arith) in
    let across = swap_lem (n - 1) j s m (omega arith) in
    let index : m ≡ j + n - 1 - k = omega arith in
    let same : s m ≡ s (j + n - 1 - k) = ap s index in ground arith

turned_stop : (n j : ℕ) (s : Buffer) (k : ℕ) → n ≤ j + 1 → s k ≡ turned n j s k
turned_stop n j s k stop = elim (Bool-cases (leb j k && ltb k n)) [
  | inl e ↦ let index : j + n - 1 - k ≡ k = ground arith in rw e (ap s (sym index))
  | inr e ↦ rw e refl
]

turned_all :
    (n : ℕ) (s : Buffer) (k : ℕ) → turned n 0 s k ≡ (if ltb k n then s (n - 1 - k) else s k)
turned_all n s k =
    let index : 0 + n - 1 - k ≡ n - 1 - k = omega arith in
    let same : s (0 + n - 1 - k) ≡ s (n - 1 - k) = ap s index in ground arith

rev_loop-turned :
    (fuel n j : ℕ) (s : Buffer) (k : ℕ) → n ≤ fuel + j → rev_loop fuel n j s k ≡ turned n j s k
unfolding rev_loop
rev_loop-turned zero n j s k enough = ground arith
rev_loop-turned (suc fuel) n j s k enough = elim (Bool-cases (ltb (j + 1) n)) [
  | inl more ↦
      let bound = ltb→lt (j + 1) n more in
      rw more (
        rev_loop-turned fuel (n - 1) (j + 1) (swap (n - 1) j s) k (omega (arith, bound))
        ∙ turned_step n j s k bound)
  | inr stop ↦ rw stop (turned_stop n j s k (ground arith))
]

-- On a string that ends below 4 GiB strrev returns, with the bytes before the terminator in the opposite order and all the others as they were.
pub strrev_lem :
    (n : ℕ) (s : Buffer)
    → Ends s n
    → n < 2 ^ 32
    → (s' : Buffer) × (strrev s ≡ done s')
      × ((k : ℕ) → s' k ≡ (if ltb k n then s (n - 1 - k) else s k))
unfolding strrev
strrev_lem n s ends small =
    let run : strrev s ≡ done (rev_loop n n 0 s) = rw (strlen_lem n s ends small) refl in
    (rev_loop n n 0 s, run, λ k. rev_loop-turned n n 0 s k (omega arith) ∙ turned_all n s k)
