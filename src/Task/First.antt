-- ===== src/Task/First.antt =====
-- The first switch to a new task: kernel/task.c and kernel/arch/i386/task_switch.S together.
use gubos.Prelude.{ℕ, ◌+◌, ◌^◌, ◌≤◌, ◌<◌, ◌≡◌, ◌≢◌, ◌⊎◌, refl, ap, ◌∙◌, true, u32, arith}
use gubos.Task.{TaskControlBlock}
use gubos.Task.Start.{NewStack}
use gubos.Task.Switch.{Cpu, do_task_switch, saved_memory, saved_blocks, saved-elsewhere}

-- The processor at the beginning of the function of a new task.
pub record Starts (pid halt remove task_fn low back task : ℕ) (b : TaskControlBlock) (r : Cpu)
    : Type 0 where
  pub eip : r.eip ≡ task_fn
  pub ebx : r.ebx ≡ 0
  pub esi : r.esi ≡ 0
  pub edi : r.edi ≡ 0
  pub ebp : r.ebp ≡ 0
  pub esp : r.esp ≡ low + 20
  pub cr3 : r.cr3 ≡ b.virtual_addr_space
  pub kernel_stack : r.tss_esp0 ≡ b.esp0
  pub interrupts : r.interrupts ≡ true
  pub current : r.current ≡ task
  pub cleanup : r.memory back ≡ remove
  pub return : r.memory (back + 4) ≡ halt
  pub argument : r.memory (back + 8) ≡ pid

-- If a task's stack is as task_create leaves it, the current task is another one, and that one's stack
-- pointer leaves room for its registers outside the new stack, then the first switch to the task
-- enters its function with the callee-saved registers 0, interrupts on, in the task's address space,
-- with its kernel stack in the task state segment; sched_remove, its return address and the pid are
-- still in memory.
pub new_task-Starts :
    (pid halt remove task_fn low back task : ℕ) (d : Cpu)
    → NewStack pid halt remove task_fn low back d.memory
    → (d.blocks task).kernel_stack_top ≡ low
    → low + 20 ≤ back
    → back + 8 < 2 ^ 32
    → 16 ≤ d.esp
    → d.esp < 2 ^ 32
    → (d.esp ≤ low) ⊎ (back + 24 < d.esp)
    → task ≢ d.current
    → Starts pid halt remove task_fn low back task (d.blocks task) (do_task_switch task d)
unfolding do_task_switch
new_task-Starts pid halt remove task_fn low back task d s top order high low' high' apart other =
    let block : saved_blocks d task ≡ d.blocks task = ground arith in
    let at : (saved_blocks d task).kernel_stack_top ≡ low =
      ap (λ (b : TaskControlBlock). b.kernel_stack_top) block ∙ top in
    let keep : (k : ℕ) → low ≤ k → k ≤ back + 8 → saved_memory d k ≡ d.memory k =
      λ k a b. saved-elsewhere d k low' high' (ground arith) in
    let word : (j v : ℕ)
        → j ≤ 16
        → d.memory (low + j) ≡ v
        → saved_memory d (u32 ((saved_blocks d task).kernel_stack_top + j)) ≡ v =
      λ j v le e.
        ap (λ t. saved_memory d (u32 (t + j))) at
        ∙ ap (saved_memory d) (omega arith)
        ∙ keep (low + j) (omega arith) (omega arith)
        ∙ e in
    record {
      eip = word 16 task_fn (omega arith) s.function;
      ebx = word 8 0 (omega arith) s.ebx;
      esi = word 4 0 (omega arith) s.esi;
      edi = ap (saved_memory d) at ∙ keep low (omega arith) (omega arith) ∙ s.edi;
      ebp = word 12 0 (omega arith) s.ebp;
      esp = ap (λ t. u32 (t + 20)) at ∙ omega arith;
      cr3 = ground arith;
      kernel_stack = ap (λ (b : TaskControlBlock). b.esp0) block;
      interrupts = refl;
      current = refl;
      cleanup = keep back (omega arith) (omega arith) ∙ s.cleanup;
      return = keep (back + 4) (omega arith) (omega arith) ∙ s.return;
      argument = keep (back + 8) (omega arith) (omega arith) ∙ s.argument;
    }
