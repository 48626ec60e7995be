-- ===== src/Ps2/Setup.antt =====
-- The set-up of the keyboard's controller: drivers/ps2.c and drivers/include/ps2.h. What a port reads is the
-- device's answer to all the accesses before; the messages are left out.
pub mod Adds
pub mod Commands
use gubos.Prelude.{
  ℕ, zero, suc, ◌-◌, ◌%◌, ◌^◌, ◌==◌, if◌then◌else◌, not, Bool, List, [], ◌∷◌, ◌++◌, Outcome, done,
  hang, ◌>>=◌, ◌>>◌, bit_and, bit_or,
}
use gubos.Ps2.{ScancodeQueue, init_scancode_queue}

abbrev pub ps2_data : ℕ
ps2_data = 0x60

abbrev pub ps2_ctrl_cmd_register : ℕ
ps2_ctrl_cmd_register = 0x64

abbrev pub ps2_ctrl_status_register : ℕ
ps2_ctrl_status_register = 0x64

abbrev pub ps2_cmd_ctrl_self_test : ℕ
ps2_cmd_ctrl_self_test = 0xaa

abbrev pub ps2_cmd_port1_self_test : ℕ
ps2_cmd_port1_self_test = 0xab

abbrev pub ps2_cmd_disable_port1 : ℕ
ps2_cmd_disable_port1 = 0xad

abbrev pub ps2_cmd_enable_port1 : ℕ
ps2_cmd_enable_port1 = 0xae

abbrev pub ps2_cmd_disable_port2 : ℕ
ps2_cmd_disable_port2 = 0xa7

abbrev pub ps2_cmd_enable_port2 : ℕ
ps2_cmd_enable_port2 = 0xa8

abbrev pub ps2_cmd_ctrl_read_config_byte : ℕ
ps2_cmd_ctrl_read_config_byte = 0x20

abbrev pub ps2_cmd_ctrl_write_config_byte : ℕ
ps2_cmd_ctrl_write_config_byte = 0x60

abbrev pub ps2_ctrl_status_out_buf_full : ℕ
ps2_ctrl_status_out_buf_full = 1

abbrev pub ps2_ctrl_status_in_buf_full : ℕ
ps2_ctrl_status_in_buf_full = 2

abbrev pub ps2_port1_resend : ℕ
ps2_port1_resend = 0xfe

abbrev pub ps2_ctrl_config_port1_interrupts : ℕ
ps2_ctrl_config_port1_interrupts = 1

abbrev pub ps2_ctrl_config_port2_interrupts : ℕ
ps2_ctrl_config_port2_interrupts = 2

abbrev pub ps2_ctrl_config_system_flag : ℕ
ps2_ctrl_config_system_flag = 4

abbrev pub ps2_ctrl_config_port1_clock : ℕ
ps2_ctrl_config_port1_clock = 16

abbrev pub ps2_ctrl_config_port1_translation : ℕ
ps2_ctrl_config_port1_translation = 64

pub data Access : Type 0 where
  read : (port : ℕ) → Access
  write : (port value : ℕ) → Access

-- the accesses so far, the first one first
abbrev pub Trace : Type 0
Trace = List Access

abbrev pub outb : (port value : ℕ) → Trace → Trace
outb port value t = t ++ (write port value ∷ [])

-- what the code makes of the configuration byte that it has read
unfoldable pub new_config : ℕ → ℕ
new_config config =
    let c₁ = bit_or config ps2_ctrl_config_port1_interrupts in
    let c₂ = bit_or c₁ ps2_ctrl_config_port2_interrupts in
    let c₃ = bit_or c₂ ps2_ctrl_config_system_flag in
    let c₄ = bit_or c₃ ps2_ctrl_config_port1_clock in
    let c₅ = bit_or c₄ ps2_ctrl_config_system_flag in
    bit_and c₅ (2 ^ 32 - 1 - ps2_ctrl_config_port1_translation) % 2 ^ 8

-- The loops wait for the device: `patience` is how often they look.
module _ (device : (port : ℕ) → Trace → ℕ) (patience : ℕ) where
  abbrev pub inb : (port : ℕ) → Trace → ℕ × Trace
  inb port t = (device port t, t ++ (read port ∷ []))

  unfoldable pub ps2_controller_input_buffer_full : Trace → Bool × Trace
  ps2_controller_input_buffer_full t =
      let (status, t') = inb ps2_ctrl_status_register t in
      (not (bit_and status ps2_ctrl_status_in_buf_full == 0), t')

  unfoldable pub ps2_controller_output_buffer_full : Trace → Bool × Trace
  ps2_controller_output_buffer_full t =
      let (status, t') = inb ps2_ctrl_status_register t in
      (not (bit_and status ps2_ctrl_status_out_buf_full == 0), t')

  unfoldable pub wait_ready_loop : (fuel : ℕ) → Trace → Outcome Trace
  unfolding ps2_controller_input_buffer_full
  wait_ready_loop zero t = hang
  wait_ready_loop (suc fuel) t =
      let (full, t') = ps2_controller_input_buffer_full t in
      let again = wait_ready_loop fuel t' in if full then again else done t'

  unfoldable pub ps2_controller_wait_ready_for_cmd : Trace → Outcome Trace
  ps2_controller_wait_ready_for_cmd t = wait_ready_loop patience t

  unfoldable pub ps2_controller_send_cmd : (cmd : ℕ) → Trace → Outcome Trace
  unfolding ps2_controller_wait_ready_for_cmd
  ps2_controller_send_cmd cmd t = do
    t' ← ps2_controller_wait_ready_for_cmd t
    done (outb ps2_ctrl_cmd_register cmd t')

  unfoldable pub ps2_keyboard_send_cmd : (cmd : ℕ) → Trace → Outcome Trace
  unfolding ps2_controller_wait_ready_for_cmd
  ps2_keyboard_send_cmd cmd t = do
    t' ← ps2_controller_wait_ready_for_cmd t
    done (outb ps2_data cmd t')

  unfoldable pub flush_loop : (fuel : ℕ) → Trace → Outcome Trace
  unfolding ps2_controller_output_buffer_full
  flush_loop zero t = hang
  flush_loop (suc fuel) t =
      let (full, t') = ps2_controller_output_buffer_full t in
      let again = flush_loop fuel (inb ps2_data t').1 in if full then again else done t'

  -- The configuration is read from the port whose number is that of the command.
  unfoldable pub ps2_controller_configure : Trace → Outcome (ℕ × Trace)
  ps2_controller_configure t = do
    let (config, t₁) = inb ps2_cmd_ctrl_read_config_byte t
    t₂ ← ps2_controller_send_cmd ps2_cmd_ctrl_write_config_byte t₁
    done (new_config config, outb ps2_data (new_config config) t₂)

  unfoldable pub ps2_controller_self_test : (config : ℕ) → Trace → Outcome Trace
  ps2_controller_self_test config t = do
    t₁ ← ps2_controller_send_cmd ps2_cmd_ctrl_self_test t
    let (err, t₂) = inb ps2_data t₁
    done (outb ps2_data config t₂)

  unfoldable pub resend_loop : (fuel : ℕ) → Trace → Outcome Trace
  resend_loop zero t = hang
  resend_loop (suc fuel) t =
      let (err, t₁) = inb ps2_data t in
      let again = ps2_controller_send_cmd ps2_cmd_port1_self_test t₁ >>= resend_loop fuel in
      if err == ps2_port1_resend then again else done t₁

  -- The first answer is read and not looked at.
  unfoldable pub ps2_interface_self_test : Trace → Outcome Trace
  ps2_interface_self_test t = do
    t₁ ← ps2_controller_send_cmd ps2_cmd_port1_self_test t
    resend_loop patience (inb ps2_data t₁).1

  -- what set_up_ports does to the ports
  unfoldable pub set_up_ports : Trace → Outcome Trace
  set_up_ports t = do
    t₁ ← ps2_controller_send_cmd ps2_cmd_disable_port1 t
    t₂ ← ps2_controller_send_cmd ps2_cmd_disable_port2 t₁
    t₃ ← flush_loop patience t₂
    (config, t₄) ← ps2_controller_configure t₃
    t₅ ← ps2_controller_self_test config t₄
    t₆ ← ps2_interface_self_test t₅
    t₇ ← ps2_controller_send_cmd ps2_cmd_enable_port1 t₆
    ps2_controller_send_cmd ps2_cmd_enable_port2 t₇

  unfoldable pub ps2_init_devices : ScancodeQueue → Trace → Outcome (ScancodeQueue × Trace)
  unfolding init_scancode_queue set_up_ports
  ps2_init_devices q t = do let q' = init_scancode_queue q; t' ← set_up_ports t; done (q', t')
