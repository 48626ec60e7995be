-- ===== src/Sched/Tests.antt =====
-- The scheduler at concrete inputs: a circle of three tasks.
use gubos.Prelude.{ℕ, ◌+◌, ◌≡◌, refl, ◌==◌, if◌then◌else◌, true, [], ◌∷◌, done, arith}
use gubos.Kmalloc.{Heap, kmalloc_init, write, relink, split, kmalloc_loop, max_rounds, kmalloc}
use gubos.Vmm.Blocks.{new_node}
use gubos.Sched.{
  task_node, Sched, init_sched, sched_add, sched_context_switch, sched_remove, unlink,
  task_list_size,
}
use gubos.Sched.Sample.{boot, cells, state, state-IsRing}
use gubos.Sched.Ring.{IsRing}
use gubos.Sched.Add.{sched_add_lem}
use gubos.Sched.Client.{Reach, Reach-IsRing}
use gubos.Sched.Remove.{remove_first}

abbrev grown : Heap
grown = split boot task_list_size 0 0xe000_0000

memory : new_node task_list_size boot ≡ done (0xe000_0008, grown)
unfolding new_node kmalloc kmalloc_loop max_rounds kmalloc_init write
memory = refl

-- the pid of the task at `t`
abbrev pid_of : ℕ → ℕ
pid_of t = t + 10

remove_first_example :
    (sched_remove pid_of 11 state ≡ done (unlink 300 100 state))
    × IsRing (unlink 300 100 state) (200 ∷ [])
remove_first_example =
    remove_first pid_of 11 state 100 (200 ∷ []) state-IsRing (omega arith) (omega arith) refl

-- the first task at 1, as init_sched leaves it
abbrev started : Sched
started = record {
  cell = λ a. if a == 0xe000_0008 then task_node 1 0 0xe000_0008 else cells a;
  heap = grown;
  head = 0xe000_0008;
  tail = 0xe000_0008;
  sched_head = 0xe000_0008;
  current = task_node 1 0 0xe000_0008;
  init_done = true;
  switched = 1 ∷ [];
}

ran : init_sched 1 state ≡ done (record started { switched = 1 ∷ [] })
unfolding init_sched
ran = let got = memory in rw got refl

memory_second :
    new_node task_list_size grown ≡ done (0xe000_001c, split grown task_list_size 0 0xe000_0014)
unfolding new_node kmalloc kmalloc_loop max_rounds kmalloc_init write split relink
memory_second = refl

second : (s : Sched) × (sched_add 2 0 (sched_context_switch started) ≡ done s)
unfolding sched_context_switch
second =
    let reached = Reach.tick (Reach.init 1 0xe000_0008 grown state memory ran) in
    let grows =
      sched_add_lem 2 0 0xe000_001c (split grown task_list_size 0 0xe000_0014)
        (sched_context_switch started) [] (Reach-IsRing reached) (omega arith, tt) memory_second in
    (grows.0, grows.1)

Reach-IsRing_example : IsRing second.0 (0xe000_0008 ∷ [])
unfolding sched_context_switch
Reach-IsRing_example = Reach-IsRing (
    Reach.add 2 0 0xe000_001c (split grown task_list_size 0 0xe000_0014)
      (Reach.tick (Reach.init 1 0xe000_0008 grown state memory ran)) memory_second (omega arith, tt)
      second.1)
