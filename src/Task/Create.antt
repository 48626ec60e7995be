-- ===== src/Task/Create.antt =====
-- What task_create (kernel/task.c) leaves of a new task.
use mathlib.Core.Path.{subst}
use gubos.Prelude.{
  ℕ, ◌+◌, ◌-◌, ◌^◌, ◌≤◌, ◌<◌, ◌≡◌, ◌≢◌, refl, ap, ◌∙◌, ◌==◌, Bool, true, false, if◌then◌else◌, done,
  fault, >>=-elim, u32, arith,
}
use gubos.Kmalloc.{Heap, kmalloc}
use gubos.Meminfo.{KernelMeminfo}
use gubos.Paging.{PagingContext}
use gubos.Task.{
  Space, Tasks, TaskControlBlock, install, alloc_kernel_stack, task_create, task_control_block_size,
  frame, task_cr3, vmm_clone_paging_context,
}
use gubos.Task.Start.{NewStack, frame-NewStack}

-- The new task's block, its stack below `top`, and what else task_create changes.
pub record Created (halt remove task_fn ret_addr top task : ℕ) (s s' : Tasks) : Type 0 where
  pub pid : (s'.blocks task).pid ≡ s.last_pid
  pub next_pid : s'.last_pid ≡ u32 (s.last_pid + 1)
  pub esp0 : (s'.blocks task).esp0 ≡ (s'.blocks task).kernel_stack_top
  pub no_parent : (s'.blocks task).parent ≡ 0
  pub present : task ≢ 0
  pub stack :
      NewStack s.last_pid halt remove task_fn (s'.blocks task).kernel_stack_top (top - 8) s'.memory
  pub given : ret_addr ≢ 0 → s'.memory ((s'.blocks task).kernel_stack_top + 20) ≡ ret_addr
  pub below : ret_addr ≢ 0 → (s'.blocks task).kernel_stack_top + 24 ≡ top - 8
  pub absent : ret_addr ≡ 0 → (s'.blocks task).kernel_stack_top + 20 ≡ top - 8
  pub others : (a : ℕ) → a ≢ task → s'.blocks a ≡ s.blocks a

pub no_fault {ℓ} :
    {A : Type ℓ} (b : Bool) {x y : A}
    → (if b then fault else done x) ≡ done y
    → (b ≡ false) × (x ≡ y)
no_fault true h = cc
no_fault false h = (refl, (cc))

install-Created :
    (m : KernelMeminfo) (halt remove task_fn ret_addr top : ℕ) (paging : PagingContext)
    (space : Space) (s : Tasks) (at cr3 task : ℕ) (s' : Tasks)
    → 40 ≤ top
    → top < 2 ^ 32
    → install m halt remove task_fn ret_addr top paging space s at cr3 ≡ done (task, s')
    → Created halt remove task_fn ret_addr top task s s'
unfolding install
install-Created m halt remove task_fn ret_addr top paging space s at cr3 task s' low small run =
    let (there, same) = no_fault (at == 0) run in
    let here : at ≢ 0 = ground arith in
    let (words, given, below, absent) =
      frame-NewStack s.last_pid halt remove task_fn s.memory top low small ret_addr in
    let stack = frame s.last_pid halt remove ret_addr task_fn (s.memory, top) in
    let block : TaskControlBlock = record {
      pid = s.last_pid;
      kernel_stack_top = stack.1;
      virtual_addr_space = cr3;
      esp0 = stack.1;
      vmm_context = space.vmm;
      paging_ctx = paging;
      parent = 0;
    } in
    let at_top : (if at == at then block else s.blocks at).kernel_stack_top ≡ stack.1 =
      ground arith in
    subst (λ (p : ℕ × Tasks). Created halt remove task_fn ret_addr top p.0 s p.1) same
      (record {
        pid = ground arith;
        next_pid = refl;
        esp0 = ground arith;
        no_parent = ground arith;
        present = here;
        stack = rw at_top words;
        given = λ ne. ap (λ n. stack.0 (n + 20)) at_top ∙ given ne;
        below = λ ne. ap (λ n. n + 24) at_top ∙ below ne;
        absent = λ e. ap (λ n. n + 20) at_top ∙ absent e;
        others = λ a ne. ground arith;
      })

-- If task_create returns and its kernel stack begins at `top`, with room for 40 bytes below, the new
-- block has the next pid, no parent, and both stack pointers at the lowest word of a new stack, whose
-- words lie without a gap: four registers of 0, the function, the return address for it if there is
-- one, and from `top` - 8 on sched_remove, sched_halt_or_crash and the pid. The other blocks stay.
pub task_create-Created :
    (m : KernelMeminfo) (halt remove task_fn ret_addr top task : ℕ) (is_userspace : Bool)
    (s₁ : Space) (s s' : Tasks)
    → alloc_kernel_stack m s.space ≡ done (top, s₁)
    → 40 ≤ top
    → top < 2 ^ 32
    → task_create m halt remove task_fn ret_addr is_userspace s ≡ done (task, s')
    → Created halt remove task_fn ret_addr top task s s'
unfolding task_create
task_create-Created m halt remove task_fn ret_addr top task is_userspace s₁ s s' stack low small =
    >>=-elim (alloc_kernel_stack m s.space) _ λ first got.
      let same : top ≡ first.0 = cc in
      >>=-elim
        (if is_userspace
          then vmm_clone_paging_context m first.1
          else done (first.1.paging, first.1))
        _
        λ (contexts : PagingContext × Space) _.
          >>=-elim (kmalloc task_control_block_size contexts.1.heap) _ λ (memory : ℕ × Heap) _.
            >>=-elim (task_cr3 m is_userspace contexts.0 contexts.1.vmm) _ λ cr3 _ run.
              let fits : first.0 < 2 ^ 32 = omega arith in
              let room : 40 ≤ first.0 = omega arith in
              rw same (
                install-Created m halt remove task_fn ret_addr first.0 contexts.0
                  (record contexts.1 { heap = memory.1 }) s memory.0 cr3 task s' room fits run)
