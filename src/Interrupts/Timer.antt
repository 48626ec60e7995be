-- ===== src/Interrupts/Timer.antt =====
-- The timer interrupt: timer_irq_handler of kernel/arch/i386/interrupts/idt.c, with the scheduler and the
-- interrupt controller.
use gubos.Prelude.{
  ℕ, zero, suc, ◌≡◌, refl, sym, ap, ◌∙◌, true, if◌then◌else◌, List, [], ◌∷◌, ◌++◌, length,
  replicate,
}
use mathlib.Core.List.{append_assoc, append-nil}
use gubos.Sched.{Sched, sched_context_switch}
use gubos.Sched.Ring.{IsRing, switches, switched_to, running, tasks, rev_onto, round_robin}
use gubos.Interrupts.Pic.{Writes, pic_send_eoi, pic1_control, pic_ocw2_eoi}

-- the scheduler, and what has been written to the ports
pub record Machine : Type 0 where
  pub sched : Sched
  pub ports : Writes

unfoldable pub timer_irq_handler : Machine → Machine
timer_irq_handler s =
    let ports = pic_send_eoi 0 s.ports in
    record {
      sched = if s.sched.init_done then sched_context_switch s.sched else s.sched;
      ports = ports;
    }

unfoldable pub timer_irqs : ℕ → Machine → Machine
timer_irqs zero s = s
timer_irqs (suc n) s = timer_irqs n (timer_irq_handler s)

-- `n` ends of interrupt for the first controller
abbrev pub ends : ℕ → Writes
ends n = replicate n (pic1_control, pic_ocw2_eoi)

timer_irqs-switches :
    (n : ℕ) (s : Machine)
    → s.sched.init_done ≡ true
    → timer_irqs n s ≡ record { sched = switches n s.sched; ports = s.ports ++ ends n }
unfolding timer_irqs timer_irq_handler switches sched_context_switch pic_send_eoi
timer_irqs-switches zero s on =
    ap (λ (p : Writes). record { sched = s.sched; ports = p }) (sym (append-nil s.ports))
timer_irqs-switches (suc n) s on =
    let next : Machine = record {
      sched = sched_context_switch s.sched;
      ports = s.ports ++ ends 1;
    } in
    let step : timer_irq_handler s ≡ next = rw on refl in
    ap (timer_irqs n) step
    ∙ timer_irqs-switches n next on
    ∙ ap (λ (p : Writes). record { sched = switches n (sched_context_switch s.sched); ports = p })
        (append_assoc s.ports (ends 1) (ends n))

-- If the scheduler is on and stands at the first node of its circle, as many timer interrupts as there
-- are tasks run each task once, in the order of the list, come back to the first node, and write one
-- end of interrupt each, to the first controller only.
pub timer_irqs-round :
    (s : Machine) (xs : List ℕ)
    → s.sched.init_done ≡ true
    → IsRing s.sched xs
    → s.sched.sched_head ≡ s.sched.head
    → let order = xs ++ s.sched.tail ∷ [] in
      let n = length order in
      timer_irqs n s ≡ record {
        sched =
            switched_to s.sched.head
              (running s.sched.current (tasks s.sched.cell order))
              (rev_onto (tasks s.sched.cell order) s.sched.switched)
              s.sched;
        ports = s.ports ++ ends n;
      }
timer_irqs-round s xs on ring at =
    let n = length (xs ++ s.sched.tail ∷ []) in
    timer_irqs-switches n s on
    ∙ ap (λ (q : Sched). record { sched = q; ports = s.ports ++ ends n })
        (round_robin s.sched xs ring at)
