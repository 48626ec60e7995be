-- ===== src/Ps2/Recent.antt =====
-- What the queue holds after any number of keyboard interrupts.
use gubos.Prelude.{
  ℕ, zero, suc, ◌+◌, ◌%◌, ◌<◌, ◌≤◌, ◌≡◌, ◌≢◌, refl, sym, ap, ◌==◌, Bool-cases, inl, inr, arith,
}
use gubos.Ps2.{ScancodeQueue, init_scancode_queue, ps2_handle_irq1, ps2_scancode_queue_size}

-- the queue after init_scancode_queue and `n` interrupts, with the scancodes `codes 0`, `codes 1`, …
unfoldable pub interrupts : (codes : ℕ → ℕ) (n : ℕ) → ScancodeQueue → ScancodeQueue
interrupts codes zero q = init_scancode_queue q
interrupts codes (suc n) q = ps2_handle_irq1 (codes n) (interrupts codes n q)

end-interrupts :
    (codes : ℕ → ℕ) (n : ℕ) (q : ScancodeQueue)
    → (interrupts codes n q).end ≡ n % ps2_scancode_queue_size
unfolding interrupts ps2_handle_irq1 init_scancode_queue
end-interrupts codes zero q = refl
end-interrupts codes (suc n) q = omega (arith, end-interrupts codes n q)

-- After `n` keyboard interrupts each of the last ten scancodes stands at its number modulo ten.
pub recent_scancodes :
    (codes : ℕ → ℕ) (n j : ℕ) (q : ScancodeQueue)
    → j < n
    → n ≤ j + ps2_scancode_queue_size
    → (interrupts codes n q).buf (j % ps2_scancode_queue_size) ≡ codes j
unfolding interrupts ps2_handle_irq1
recent_scancodes codes zero j q old recent = absurd (omega arith)
recent_scancodes codes (suc n) j q old recent =
    let at = end-interrupts codes n q in
    elim (Bool-cases (j == n)) [
      | inl e ↦
          let same : j ≡ n = ground arith in
          let here : j % 10 ≡ (interrupts codes n q).end = omega arith in
          let code : codes n ≡ codes j = ap codes (sym same) in ground arith
      | inr e ↦
          let older : j < n = ground arith in
          let off : j % 10 ≢ (interrupts codes n q).end = omega arith in
          let rest = recent_scancodes codes n j q older (omega arith) in ground arith
    ]
