-- ===== src/Ps2.antt =====
-- The keyboard's queue of scancodes: drivers/ps2.c. The set-up of the controller, which only talks to ports,
-- and the debug output are left out.
pub mod Recent
pub mod Setup
mod Tests
use gubos.Prelude.{ℕ, zero, suc, ◌+◌, ◌%◌, ◌==◌, if◌then◌else◌}
use gubos.Interrupts.Pic.{Writes, pic_send_eoi}

abbrev pub ps2_scancode_queue_size : ℕ
ps2_scancode_queue_size = 10

-- struct scancode_queue_context, and what has been written to the ports
pub record ScancodeQueue : Type 0 where
  pub start : ℕ
  pub end : ℕ
  pub buf : ℕ → ℕ
  pub ports : Writes

unfoldable pub init_scancode_queue : ScancodeQueue → ScancodeQueue
init_scancode_queue q = record q { start = 0; end = 0 }

-- `scancode` is what the data port reads
unfoldable pub ps2_handle_irq1 : (scancode : ℕ) → ScancodeQueue → ScancodeQueue
ps2_handle_irq1 scancode q = record q {
  buf = λ i. if i == q.end then scancode else q.buf i;
  end = (q.end + 1) % ps2_scancode_queue_size;
  ports = pic_send_eoi 1 q.ports;
}
