-- ===== src/Sched/Sample.antt =====
-- A circle of three tasks in the scheduler, for tests.
use gubos.Prelude.{ℕ, refl, ◌==◌, if◌then◌else◌, true, [], ◌∷◌, arith}
use gubos.Kmalloc.{Heap, header, kmalloc_init}
use gubos.Sched.{TaskNode, task_node, Sched}
use gubos.Sched.Ring.{IsRing}

abbrev pub boot : Heap
boot = kmalloc_init (record { head = 0; cell = λ a. header 0 0 })

-- three nodes at 100, 200 and 300, whose tasks are at 1, 2 and 3
abbrev pub cells : ℕ → TaskNode
cells a =
    if a == 100
    then task_node 1 0 200
    else if a == 200
    then task_node 2 0 300
    else task_node 3 0 100

abbrev pub state : Sched
state = record {
  cell = cells;
  heap = boot;
  head = 100;
  tail = 300;
  sched_head = 100;
  current = task_node 1 0 200;
  init_done = true;
  switched = [];
}

pub state-IsRing : IsRing state (100 ∷ 200 ∷ [])
state-IsRing = record {
  circle = (refl, (refl, (refl, refl)));
  distinct = ((omega arith, (omega arith, tt)), ((omega arith, tt), (tt, tt)));
}
