-- ===== src/Syscall/Exit.antt =====
-- What the exit call (kernel/syscall/exit.c) does to the scheduler.
use gubos.Prelude.{
  ℕ, ◌<◌, ◌≡◌, ◌≢◌, refl, ap, ◌∙◌, ◌==◌, ◌||◌, false, true, List, ◌∷◌, done, hang, ◌>>=◌, arith,
}
use gubos.Sched.{Sched, init_pid, sched_remove, unlink}
use gubos.Sched.Ring.{IsRing}
use gubos.Sched.Remove.{remove_first, remove_loop_hangs}
use gubos.Syscall.{Registers, sys_exit, exit, syscall_handler}

module _ (pid_of parent_of : ℕ → ℕ) (regs : Registers) (s : Sched) (x : ℕ) (xs : List ℕ)
    (called : regs.eax ≡ sys_exit) (child : parent_of s.current.task ≢ 0) (ring : IsRing s (x ∷ xs))
    (allowed : init_pid < pid_of s.current.task)
    (not_last : pid_of (s.cell s.tail).task ≢ pid_of s.current.task) where
  handled :
      syscall_handler pid_of parent_of regs s
      ≡ (sched_remove pid_of (pid_of s.current.task) s >>= λ s'. done (regs, s'))
  unfolding syscall_handler exit
  handled =
      let yes_exit : (regs.eax == sys_exit) ≡ true = ground arith in
      let has : (parent_of s.current.task == 0) ≡ false = ground arith in rw (yes_exit, has) refl

  -- If a running task has a parent and a pid above 1, is the first of at least two nodes of the list,
  -- and the last node has another pid, its exit call takes it off the list and leaves the others in
  -- their order; but the call returns to the task, which is still the current one, with its registers
  -- as they were.
  pub exit_first :
      (s.cell x).task ≡ s.current.task
      → (s' : Sched) × (syscall_handler pid_of parent_of regs s ≡ done (regs, s'))
        × IsRing s' xs
        × (s'.current ≡ s.current)
        × (s'.switched ≡ s.switched)
  unfolding unlink
  exit_first mine =
      let (run, left) =
        remove_first pid_of (pid_of s.current.task) s x xs ring allowed not_last (ap pid_of mine) in
      (unlink s.tail x s, handled ∙ (rw run refl), left, refl, refl)

  -- If a running task has a parent and a pid above 1, and neither the first nor the last of at least
  -- two nodes of the list has its pid, its exit call never returns.
  pub exit-hangs :
      pid_of (s.cell x).task ≢ pid_of s.current.task
      → syscall_handler pid_of parent_of regs s ≡ hang
  unfolding sched_remove
  exit-hangs other =
      let pid = pid_of s.current.task in
      let loops = remove_loop_hangs pid_of 2 pid s.tail s x xs ring other in
      let may : (pid == 0 || pid == init_pid) ≡ false = ground arith in
      let miss : (pid_of (s.cell s.tail).task == pid) ≡ false = ground arith in
      handled ∙ rw (may, miss, loops) refl
