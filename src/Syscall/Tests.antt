-- ===== src/Syscall/Tests.antt =====
-- System calls at concrete inputs: the circle of three tasks.
use gubos.Prelude.{ℕ, ◌+◌, ◌≡◌, refl, [], ◌∷◌, done, hang, arith}
use gubos.Sched.{Sched, task_node}
use gubos.Sched.Ring.{IsRing}
use gubos.Sched.Sample.{state, state-IsRing}
use gubos.Syscall.{Registers, syscall_handler}
use gubos.Syscall.Exit.{exit_first, exit-hangs}

-- the exit call
abbrev called : Registers
called = record { eax = 1; ebx = 0; ecx = 0; edx = 0; esi = 0; edi = 0; esp = 0; ebp = 0 }

-- the pid of the task at `t`
abbrev pid_of : ℕ → ℕ
pid_of t = t + 10

-- all tasks have the same parent
abbrev parent_of : ℕ → ℕ
parent_of t = 1

exit_first_example :
    (s' : Sched) × (syscall_handler pid_of parent_of called state ≡ done (called, s'))
    × IsRing s' (200 ∷ [])
    × (s'.current ≡ state.current)
    × (s'.switched ≡ state.switched)
exit_first_example =
    exit_first pid_of parent_of called state 100 (200 ∷ []) refl (omega arith) state-IsRing
      (omega arith) (omega arith) refl

-- the second task runs
abbrev second : Sched
second = record state { current = task_node 2 0 300 }

second-IsRing : IsRing second (100 ∷ 200 ∷ [])
second-IsRing = record { circle = state-IsRing.circle; distinct = state-IsRing.distinct }

exit-hangs_example : syscall_handler pid_of parent_of called second ≡ hang
exit-hangs_example =
    exit-hangs pid_of parent_of called second 100 (200 ∷ []) refl (omega arith) second-IsRing
      (omega arith) (omega arith) (omega arith)
