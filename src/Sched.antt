-- ===== src/Sched.antt =====
-- The scheduler: kernel/sched.c and the task list of kernel/include/task.h, a circular list of nodes with
-- pointers to its first and last node and to the one that runs next.
pub mod Ring
pub mod Add
pub mod Client
pub mod Remove
pub mod Sample
mod Tests
use gubos.Prelude.{
  ℕ, zero, suc, ◌==◌, if◌then◌else◌, Bool, true, false, ◌||◌, List, [], ◌∷◌, Outcome, done, panic,
  fault, hang, ◌>>=◌, cannot_remove_task, task_not_found,
}
use gubos.Kmalloc.{Heap, kfree}
use gubos.Vmm.Blocks.{new_node}

-- struct task_list; `task` is the address of a task control block
pub record TaskNode : Type 0 where
  pub task : ℕ
  pub priority : ℕ
  pub next : ℕ

abbrev pub task_node : ℕ → ℕ → ℕ → TaskNode
task_node t p n = record { task = t; priority = p; next = n }

-- The nodes by their addresses, the kernel heap that they come from, the static pointers of sched.c,
-- CURRENT_TASK and SCHED_INIT. `switched` holds the tasks that do_task_switch was called with, the last
-- first.
pub record Sched : Type 0 where
  pub cell : ℕ → TaskNode
  pub heap : Heap
  pub head : ℕ
  pub tail : ℕ
  pub sched_head : ℕ
  pub current : TaskNode
  pub init_done : Bool
  pub switched : List ℕ

abbrev pub task_list_size : ℕ
task_list_size = 12

abbrev pub task_priority_low : ℕ
task_priority_low = 0

abbrev pub init_pid : ℕ
init_pid = 1

abbrev pub store : (ℕ → TaskNode) → ℕ → TaskNode → ℕ → TaskNode
store c p v a = if a == p then v else c a

-- `c[p].next = q`
abbrev pub set_next : (ℕ → TaskNode) → ℕ → ℕ → ℕ → TaskNode
set_next c p q = store c p (task_node (c p).task (c p).priority q)

-- do_task_switch (kernel/arch/i386/task_switch.S) writes its argument into the first field of
-- CURRENT_TASK, and here also into the record of switches. Registers and stacks are not modelled.
abbrev pub sched_switch_task : ℕ → Sched → Sched
sched_switch_task task s =
    let running = task_node task s.current.priority s.current.next in
    record s { current = running; switched = task ∷ s.switched }

-- `task` is what task_create returned
unfoldable pub init_sched : (task : ℕ) → Sched → Outcome Sched
init_sched task s = do
  (p, h) ← new_node task_list_size s.heap
  let first = task_node task task_priority_low p
  let s₁ = record s {
    cell = store s.cell p first;
    heap = h;
    head = p;
    tail = p;
    sched_head = p;
    current = first;
  }
  done (record (sched_switch_task task s₁) { init_done = true })

unfoldable pub sched_add : (task priority : ℕ) → Sched → Outcome Sched
sched_add task priority s = do
  (p, h) ← new_node task_list_size s.heap
  let c = store s.cell p (task_node task priority (s.cell s.tail).next)
  done (record s { cell = set_next c s.tail p; heap = h; tail = p })

unfoldable pub sched_context_switch : Sched → Sched
sched_context_switch s =
    let task = (s.cell s.sched_head).task in
    sched_switch_task task (record s { sched_head = (s.cell s.sched_head).next })

-- the node at `task`, which follows `prev`, leaves the list
unfoldable pub unlink : (prev task : ℕ) → Sched → Sched
unlink prev task s =
    let after = (s.cell task).next in
    record s {
      cell = set_next s.cell prev after;
      head = if task == s.head then after else s.head;
      heap = kfree task s.heap;
    }

-- the last node leaves the list; only the first one is linked again
unfoldable pub drop_last : Sched → Sched
drop_last s =
    let second = (s.cell s.tail).next in
    record s { cell = set_next s.cell s.head second; tail = second; heap = kfree s.tail s.heap }

module _ (pid_of : ℕ → ℕ) where
  -- The do-while loop of sched_remove: each round looks at the node behind the last one again.
  unfoldable pub remove_loop : (fuel pid task : ℕ) → Sched → Outcome Sched
  remove_loop zero pid task s = hang
  remove_loop (suc fuel) pid task s =
      let first = (s.cell s.tail).next in
      let again = remove_loop fuel pid first s in
      if pid_of (s.cell first).task == pid
      then done (unlink task first s)
      else if first == s.tail
      then panic task_not_found
      else again

  -- Two rounds decide: from the second on nothing changes.
  abbrev pub remove_rounds : ℕ
  remove_rounds = 2

  -- `pid_of` reads the pid from a task control block.
  unfoldable pub sched_remove : (pid : ℕ) → Sched → Outcome Sched
  sched_remove pid s =
      let last = s.tail in
      if pid == 0 || pid == init_pid
      then panic cannot_remove_task
      else if pid_of (s.cell last).task == pid
      then done (drop_last s)
      else remove_loop remove_rounds pid last s
