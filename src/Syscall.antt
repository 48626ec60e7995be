-- ===== src/Syscall.antt =====
-- System calls: kernel/syscall/syscall.c, exit.c and fork.c.
pub mod Exit
mod Tests
use gubos.Prelude.{
  ℕ, ◌==◌, if◌then◌else◌, Outcome, done, panic, ◌>>=◌, unknown_syscall, init_exited,
}
use gubos.Sched.{Sched, sched_remove}

-- struct registers
pub record Registers : Type 0 where
  pub eax : ℕ
  pub ebx : ℕ
  pub ecx : ℕ
  pub edx : ℕ
  pub esi : ℕ
  pub edi : ℕ
  pub esp : ℕ
  pub ebp : ℕ

abbrev pub sys_exit : ℕ
sys_exit = 1

abbrev pub sys_fork : ℕ
sys_fork = 2

unfoldable pub fork : Registers → Registers
fork regs = record regs { eax = 0xbeef }

-- `pid_of` and `parent_of` read a task control block; 0 is no parent.
module _ (pid_of parent_of : ℕ → ℕ) where
  unfoldable pub exit : Registers → Sched → Outcome Sched
  exit regs s =
      let pid = pid_of s.current.task in
      if parent_of s.current.task == 0 then panic init_exited else sched_remove pid_of pid s

  unfoldable pub syscall_handler : Registers → Sched → Outcome (Registers × Sched)
  unfolding exit fork
  syscall_handler regs s =
      let gone = exit regs s >>= λ s'. done (regs, s') in
      let forked : Registers × Sched = (fork regs, s) in
      if regs.eax == sys_exit
      then gone
      else if regs.eax == sys_fork
      then done forked
      else panic unknown_syscall
