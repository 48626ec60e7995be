-- ===== src/Task/Switch.antt =====
-- The switch between two tasks: kernel/arch/i386/task_switch.S.
use gubos.Prelude.{
  ℕ, ◌+◌, ◌-◌, ◌^◌, ◌≤◌, ◌<◌, ◌≡◌, ◌≢◌, ◌⊎◌, refl, ap, ◌∙◌, ◌==◌, if◌then◌else◌, Bool, true, u32,
  sub32, arith,
}
use gubos.Task.{TaskControlBlock, Words, write}

-- The registers that the code uses, the interrupt flag, CURRENT_TASK.task, tss.esp0, memory, and the task
-- control blocks by their addresses.
pub record Cpu : Type 0 where
  pub ebx : ℕ
  pub esi : ℕ
  pub edi : ℕ
  pub ebp : ℕ
  pub esp : ℕ
  pub cr3 : ℕ
  pub eip : ℕ
  pub interrupts : Bool
  pub tss_esp0 : ℕ
  pub current : ℕ
  pub memory : Words
  pub blocks : ℕ → TaskControlBlock

-- push %ebp, %ebx, %esi and %edi below `esp`
abbrev pub saved_memory : Cpu → Words
saved_memory c = write (sub32 c.esp 16) c.edi (
    write (sub32 c.esp 12) c.esi
      (write (sub32 c.esp 8) c.ebx (write (sub32 c.esp 4) c.ebp c.memory)))

-- CURRENT_TASK->kernel_stack_top = ESP
abbrev pub saved_blocks : Cpu → ℕ → TaskControlBlock
saved_blocks c a =
    if a == c.current then record (c.blocks a) { kernel_stack_top = sub32 c.esp 16 } else c.blocks a

-- do_task_switch(next), entered with the return address at `esp`
unfoldable pub do_task_switch : (next : ℕ) → Cpu → Cpu
do_task_switch next c =
    let memory = saved_memory c in
    let blocks = saved_blocks c in
    let top = (blocks next).kernel_stack_top in
    let cr3 = (blocks next).virtual_addr_space in
    record {
      edi = memory top;
      esi = memory (u32 (top + 4));
      ebx = memory (u32 (top + 8));
      ebp = memory (u32 (top + 12));
      eip = memory (u32 (top + 16));
      esp = u32 (top + 20);
      cr3 = if c.cr3 == cr3 then c.cr3 else cr3;
      interrupts = true;
      tss_esp0 = (blocks next).esp0;
      current = next;
      memory = memory;
      blocks = blocks;
    }

-- The five words of a task that is switched away from at `c`, as they stand in memory later, and its block.
pub record Suspended (c : Cpu) (mem : Words) (b : TaskControlBlock) : Type 0 where
  pub top : b.kernel_stack_top ≡ c.esp - 16
  pub edi : mem (c.esp - 16) ≡ c.edi
  pub esi : mem (c.esp - 12) ≡ c.esi
  pub ebx : mem (c.esp - 8) ≡ c.ebx
  pub ebp : mem (c.esp - 4) ≡ c.ebp
  pub return : mem c.esp ≡ c.memory c.esp

-- A task that is switched away from with a stack pointer that leaves room for 16 bytes below and 4 above is suspended.
pub switch-Suspended :
    (next : ℕ) (c : Cpu)
    → 16 ≤ c.esp
    → c.esp + 4 ≤ 2 ^ 32
    → Suspended c (do_task_switch next c).memory ((do_task_switch next c).blocks c.current)
unfolding do_task_switch
switch-Suspended next c low high =
    let a : sub32 c.esp 16 ≡ c.esp - 16 = omega arith in
    let b : sub32 c.esp 12 ≡ c.esp - 12 = omega arith in
    let d : sub32 c.esp 8 ≡ c.esp - 8 = omega arith in
    let e : sub32 c.esp 4 ≡ c.esp - 4 = omega arith in
    record {
      top = ground arith;
      edi = ground arith;
      esi = ground arith;
      ebx = ground arith;
      ebp = ground arith;
      return = ground arith;
    }

-- The pushes write only the four words below the stack pointer.
pub saved-elsewhere :
    (d : Cpu) (k : ℕ)
    → 16 ≤ d.esp
    → d.esp < 2 ^ 32
    → (k + 16 < d.esp) ⊎ (d.esp ≤ k)
    → saved_memory d k ≡ d.memory k
saved-elsewhere d k low high away =
    let a : sub32 d.esp 16 ≡ d.esp - 16 = omega arith in
    let b : sub32 d.esp 12 ≡ d.esp - 12 = omega arith in
    let c : sub32 d.esp 8 ≡ d.esp - 8 = omega arith in
    let e : sub32 d.esp 4 ≡ d.esp - 4 = omega arith in ground arith

-- The registers of a task that runs again behind its call of do_task_switch at `c`.
pub record Resumed (c : Cpu) (task : ℕ) (b : TaskControlBlock) (r : Cpu) : Type 0 where
  pub ebx : r.ebx ≡ c.ebx
  pub esi : r.esi ≡ c.esi
  pub edi : r.edi ≡ c.edi
  pub ebp : r.ebp ≡ c.ebp
  pub eip : r.eip ≡ c.memory c.esp
  pub esp : r.esp ≡ c.esp + 4
  pub cr3 : r.cr3 ≡ b.virtual_addr_space
  pub kernel_stack : r.tss_esp0 ≡ b.esp0
  pub current : r.current ≡ task

-- If a task was suspended at `c`, and another one switches to it that pushes its registers outside the
-- words of the suspended one, the task goes on behind its own call: with the callee-saved registers
-- that it had, at its return address, with its stack pointer behind that, in its address space, with
-- its kernel stack in the task state segment, and as the current task.
pub switch-Resumed :
    (task : ℕ) (c d : Cpu)
    → 16 ≤ c.esp
    → c.esp + 4 < 2 ^ 32
    → 16 ≤ d.esp
    → d.esp < 2 ^ 32
    → (d.esp + 16 ≤ c.esp) ⊎ (c.esp + 20 ≤ d.esp)
    → task ≢ d.current
    → Suspended c d.memory (d.blocks task)
    → Resumed c task (d.blocks task) (do_task_switch task d)
unfolding do_task_switch
switch-Resumed task c d low high low' high' apart other s =
    let block : saved_blocks d task ≡ d.blocks task = ground arith in
    let top : (saved_blocks d task).kernel_stack_top ≡ c.esp - 16 =
      ap (λ (b : TaskControlBlock). b.kernel_stack_top) block ∙ s.top in
    let keep : (k : ℕ) → c.esp ≤ k + 16 → k ≤ c.esp → saved_memory d k ≡ d.memory k =
      λ k a b. saved-elsewhere d k low' high' (ground arith) in
    let a : u32 (c.esp - 16 + 4) ≡ c.esp - 12 = omega arith in
    let b : u32 (c.esp - 16 + 8) ≡ c.esp - 8 = omega arith in
    let e : u32 (c.esp - 16 + 12) ≡ c.esp - 4 = omega arith in
    let f : u32 (c.esp - 16 + 16) ≡ c.esp = omega arith in
    record {
      ebx =
          ap (λ t. saved_memory d (u32 (t + 8))) top
          ∙ ap (saved_memory d) b
          ∙ keep (c.esp - 8) (omega arith) (omega arith)
          ∙ s.ebx;
      esi =
          ap (λ t. saved_memory d (u32 (t + 4))) top
          ∙ ap (saved_memory d) a
          ∙ keep (c.esp - 12) (omega arith) (omega arith)
          ∙ s.esi;
      edi = ap (saved_memory d) top ∙ keep (c.esp - 16) (omega arith) (omega arith) ∙ s.edi;
      ebp =
          ap (λ t. saved_memory d (u32 (t + 12))) top
          ∙ ap (saved_memory d) e
          ∙ keep (c.esp - 4) (omega arith) (omega arith)
          ∙ s.ebp;
      eip =
          ap (λ t. saved_memory d (u32 (t + 16))) top
          ∙ ap (saved_memory d) f
          ∙ keep c.esp (omega arith) (omega arith)
          ∙ s.return;
      esp = ap (λ t. u32 (t + 20)) top ∙ omega arith;
      cr3 = ground arith;
      kernel_stack = ap (λ (b : TaskControlBlock). b.esp0) block;
      current = refl;
    }
