-- ===== src/Ps2/Tests.antt =====
-- The queue of scancodes at concrete inputs.
use gubos.Prelude.{ℕ, ◌+◌, ◌≡◌, ◌==◌, if◌then◌else◌, [], ◌∷◌, arith}
use gubos.Ps2.{ScancodeQueue}
use gubos.Ps2.Setup.{Access, read, write, Trace, ps2_data, ps2_ctrl_status_register}
use gubos.Ps2.Recent.{interrupts, recent_scancodes}

abbrev boot : ScancodeQueue
boot = record { start = 0; end = 0; buf = λ i. 0; ports = [] }

-- twelve keys with the scancodes 100 to 111
recent_scancodes_example : (interrupts (λ k. k + 100) 12 boot).buf 1 ≡ 111
recent_scancodes_example = recent_scancodes (λ k. k + 100) 12 11 boot (omega arith) (omega arith)

-- what the controller has to say
data Answer : Type 0 where
  nothing : Answer
  self_test_ok : Answer
  port1_self_test_ok : Answer

byte : Answer → ℕ
byte nothing = 0
byte self_test_ok = 0x55
byte port1_self_test_ok = 0

-- its buffer for commands is never full
status : Answer → ℕ
status nothing = 0
status self_test_ok = 1
status port1_self_test_ok = 1

-- a test is answered, and a read of the byte takes the answer
next : Answer → Access → Answer
next a (read port) = if port == ps2_data then nothing else a
next a (write port value) =
    if port == ps2_data
    then a
    else if value == 0xaa
    then self_test_ok
    else if value == 0xab
    then port1_self_test_ok
    else a

after : Answer → Trace → Answer
unfolding next
after a [] = a
after a (x ∷ t) = after (next a x) t

-- a controller that answers its tests as drivers/include/ps2.h documents
controller : (port : ℕ) → Trace → ℕ
unfolding byte status after
controller port t =
    if port == ps2_data
    then byte (after nothing t)
    else if port == ps2_ctrl_status_register
    then status (after nothing t)
    else 0
