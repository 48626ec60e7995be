-- ===== src/Init/Created.antt =====
-- What init_create_user_task (kernel/init.c) makes.
use mathlib.Core.Path.{subst}
use gubos.Prelude.{
  ℕ, ◌+◌, ◌-◌, ◌^◌, ◌≤◌, ◌<◌, ◌≡◌, ◌≢◌, refl, sym, ap, ◌∙◌, ◌==◌, if◌then◌else◌, true, false, Bool,
  some, none, Option, done, panic, >>=-elim, bad_elf, u32, arith,
}
use gubos.Kmalloc.{Heap}
use gubos.Meminfo.{KernelMeminfo}
use gubos.Pmm.{Bitmap}
use gubos.Vmm.Context.{VmmContext, vmm_map_pages, vmm_clone_context}
use gubos.Elf.{File, Elf32Hdr, code, elf_parse_header}
use gubos.Elf.Loader.{LoadState}
use gubos.Task.{Space, Tasks, TaskControlBlock, alloc_kernel_stack, task_create}
use gubos.Task.Start.{NewStack}
use gubos.Task.Create.{Created, task_create-Created}
use gubos.Init.{
  Boot, written, parsed, file_at, adopt, map_user_stack, user_stack_page_count, fill_user_task,
  init_create_user_task,
}

-- a header that is not refused is one that the parser gives with no error
written-some : (r : Option Elf32Hdr) (header : Elf32Hdr) → written r ≡ done header → r ≡ some header
written-some none header h = absurd (cc)
written-some (some other) header h = cc

parsed-ok :
    (b : Bool) (r : Option Elf32Hdr) (header : Elf32Hdr)
    → (if b then written r else panic bad_elf) ≡ done header
    → (b ≡ true) × (r ≡ some header)
parsed-ok true r header h = (refl, written-some r header h)
parsed-ok false r header h = absurd (cc)

-- The new task, its parent, and the stack that it starts with, without a gap between its words.
pub record Launched (halt remove goto_user_mode entry parent top task : ℕ) (t t' : Tasks)
    : Type 0 where
  pub pid : (t'.blocks task).pid ≡ t.last_pid
  pub next_pid : t'.last_pid ≡ u32 (t.last_pid + 1)
  pub parent_task : (t'.blocks task).parent ≡ parent
  pub stack :
      NewStack t.last_pid halt remove goto_user_mode
        (t'.blocks task).kernel_stack_top
        (top - 8)
        t'.memory
  pub entry_point : entry ≢ 0 → t'.memory ((t'.blocks task).kernel_stack_top + 20) ≡ entry
  pub below : entry ≢ 0 → (t'.blocks task).kernel_stack_top + 24 ≡ top - 8
  pub absent : entry ≡ 0 → (t'.blocks task).kernel_stack_top + 20 ≡ top - 8
  pub esp0 : (t'.blocks task).esp0 ≡ (t'.blocks task).kernel_stack_top
  pub others : (a : ℕ) → a ≢ task → t'.blocks a ≡ t.blocks a

-- the block with its parent and its own context
adopted-Launched :
    (halt remove goto_user_mode entry parent top task : ℕ) (vmm : VmmContext) (space : Space)
    (t t' : Tasks)
    → Created halt remove goto_user_mode entry top task t t'
    → Launched halt remove goto_user_mode entry parent top task t
        (record t' { space = space; blocks = adopt task parent vmm t'.blocks })
adopted-Launched halt remove goto_user_mode entry parent top task vmm space t t' c =
    let here : adopt task parent vmm t'.blocks task
        ≡ record (t'.blocks task) { parent = parent; vmm_context = vmm } =
      ground arith in
    let low : (adopt task parent vmm t'.blocks task).kernel_stack_top
        ≡ (t'.blocks task).kernel_stack_top =
      ap (λ (b : TaskControlBlock). b.kernel_stack_top) here in
    record {
      pid = ap (λ (b : TaskControlBlock). b.pid) here ∙ c.pid;
      next_pid = c.next_pid;
      parent_task = ap (λ (b : TaskControlBlock). b.parent) here;
      stack = rw low c.stack;
      entry_point = λ ne. ap (λ n. t'.memory (n + 20)) low ∙ c.given ne;
      below = λ ne. ap (λ n. n + 24) low ∙ c.below ne;
      absent = λ e. ap (λ n. n + 20) low ∙ c.absent e;
      esp0 = ap (λ (b : TaskControlBlock). b.esp0) here ∙ c.esp0 ∙ sym low;
      others = λ a ne.
          let away : adopt task parent vmm t'.blocks a ≡ t'.blocks a = ground arith in
          away ∙ c.others a ne;
    }

module _ (m : KernelMeminfo) (stale : ℕ → ℕ) where
  -- fill_user_task sets the parent and the context of the block, and nothing else of the tasks
  fill-Launched :
      (halt remove goto_user_mode entry parent top task user_elf : ℕ) (header : Elf32Hdr)
      (t t' : Tasks) (bytes : File) (task' : ℕ) (b' : Boot)
      → Created halt remove goto_user_mode entry top task t t'
      → fill_user_task m stale task parent user_elf header t' bytes ≡ done (task', b')
      → (task ≡ task') × Launched halt remove goto_user_mode entry parent top task' t b'.tasks
  unfolding fill_user_task
  fill-Launched halt remove goto_user_mode entry parent top task user_elf header t t' bytes task' b'
        c run =
      >>=-elim (vmm_clone_context stale t'.space.vmm t'.space.heap) _
        (λ (own : VmmContext × Heap) _. >>=-elim _ _ λ (s : LoadState) _.
          >>=-elim (map_user_stack m stale user_stack_page_count 0 s.vmm s.heap s.bitmap) _
            λ (stack : VmmContext × Heap × Bitmap) _ last.
              let made : Tasks = record t' {
                space = record {
                  paging = s.kern_paging;
                  vmm = s.kern_vmm;
                  heap = stack.1;
                  bitmap = stack.2;
                };
                blocks = adopt task parent stack.0 t'.blocks;
              } in
              let end : Boot = record { tasks = made; bytes = s.memory } in
              let returned : done (task, end) ≡ done (task', b') = last in
              let same : (task, end) ≡ (task', b') = cc in
              subst
                (λ (p : ℕ × Boot).
                  (task ≡ p.0)
                  × Launched halt remove goto_user_mode entry parent top p.0 t p.1.tasks)
                same
                (
                  refl,
                  adopted-Launched halt remove goto_user_mode entry parent top task stack.0
                      made.space t t' c,
                ))
        run

  -- If init_create_user_task returns, where vmm_map_pages gave `user_elf` for the file and the task's kernel stack
  -- begins at `top`, with room for 40 bytes below, then the parser accepted the file at `user_elf`; the new block has
  -- the next pid, the given parent, and both stack pointers at the lowest word of a new stack, whose words lie without
  -- a gap: four registers of 0, init_goto_user_mode, the entry of the file's header if that is not 0, and from
  -- `top` - 8 on sched_remove, sched_halt_or_crash and the pid. The other blocks stay.
  pub create_user_task-Launched :
      (halt remove goto_user_mode elf_physical parent user_elf top task : ℕ) (vmm : VmmContext)
      (h : Heap) (s₁ : Space) (b b' : Boot)
      → vmm_map_pages m 0 elf_physical 1 3 b.tasks.space.vmm b.tasks.space.heap
        ≡ done (user_elf, vmm, h)
      → alloc_kernel_stack m (record b.tasks.space { vmm = vmm; heap = h }) ≡ done (top, s₁)
      → 40 ≤ top
      → top < 2 ^ 32
      → init_create_user_task m stale halt remove goto_user_mode elf_physical parent b
        ≡ done (task, b')
      → let parse = elf_parse_header (file_at user_elf b.bytes) 1024 in
        (code parse.0 ≡ 0)
        × (header : Elf32Hdr) × (parse.1 ≡ some header)
        × Launched halt remove goto_user_mode header.entry parent top task b.tasks b'.tasks
  unfolding init_create_user_task
  create_user_task-Launched halt remove goto_user_mode elf_physical parent user_elf top task vmm h
        s₁ b b' mapped stack low small run =
      let parse = elf_parse_header (file_at user_elf b.bytes) 1024 in
      let t = record b.tasks { space = record b.tasks.space { vmm = vmm; heap = h } } in
      >>=-elim (parsed parse) _
        (λ (header : Elf32Hdr) fine more.
          let (ok, got) = parsed-ok (code parse.0 == 0) parse.1 header fine in
          >>=-elim (task_create m halt remove goto_user_mode header.entry true t) _
            (λ (made : ℕ × Tasks) created rest.
              let c =
                task_create-Created m halt remove goto_user_mode header.entry top made.0 true s₁ t
                  made.1 stack low small created in
              let (same, u) =
                fill-Launched halt remove goto_user_mode header.entry parent top made.0 user_elf
                  header t made.1 b.bytes task b' c rest in
              (
                ground arith,
                header,
                got,
                record {
                  pid = u.pid;
                  next_pid = u.next_pid;
                  parent_task = u.parent_task;
                  stack = u.stack;
                  entry_point = u.entry_point;
                  below = u.below;
                  absent = u.absent;
                  esp0 = u.esp0;
                  others = u.others;
                },
              ))
            more)
        (rw mapped at run)
