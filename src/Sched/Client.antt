-- ===== src/Sched/Client.antt =====
-- What kernel/sched.c has been through: init_sched, then tasks added and timer interrupts, in any order.
use mathlib.Core.Path.{subst}
use gubos.Prelude.{ℕ, ◌≡◌, refl, List, [], ◌∷◌, ◌++◌, done, arith}
use gubos.Kmalloc.{Heap}
use gubos.Vmm.Blocks.{new_node}
use gubos.Sched.{
  task_node, Sched, store, task_list_size, task_priority_low, init_sched, sched_add,
  sched_context_switch,
}
use gubos.Sched.Ring.{NotIn, IsRing}
use gubos.Sched.Add.{sched_add_lem}

-- the state, with the nodes in front of the last one
pub data Reach : Sched → List ℕ → Type 0 where
  init :
      {s' : Sched} (t p : ℕ) (h : Heap) (s : Sched)
      → new_node task_list_size s.heap ≡ done (p, h)
      → init_sched t s ≡ done s'
      → Reach s' []
  add :
      {s s' : Sched} {xs : List ℕ} (t priority p : ℕ) (h : Heap)
      → Reach s xs
      → new_node task_list_size s.heap ≡ done (p, h)
      → NotIn p (xs ++ s.tail ∷ [])
      → sched_add t priority s ≡ done s'
      → Reach s' (xs ++ s.tail ∷ [])
  tick : {s : Sched} {xs : List ℕ} → Reach s xs → Reach (sched_context_switch s) xs

init_sched-IsRing :
    (t p : ℕ) (h : Heap) (s : Sched)
    → new_node task_list_size s.heap ≡ done (p, h)
    → (s' : Sched) × (init_sched t s ≡ done s') × IsRing s' []
unfolding init_sched
init_sched-IsRing t p h s got =
    let loop : (store s.cell p (task_node t task_priority_low p) p).next ≡ p = ground arith in
    rw got (_, refl, record { circle = (refl, loop); distinct = (tt, tt) })

context_switch-IsRing : (s : Sched) (xs : List ℕ) → IsRing s xs → IsRing (sched_context_switch s) xs
unfolding sched_context_switch
context_switch-IsRing s xs ring = record { circle = ring.circle; distinct = ring.distinct }

-- After init_sched, any tasks added with nodes outside the list, and any timer interrupts, the nodes form a
-- circle, in the order in which they were added.
pub Reach-IsRing : {s : Sched} {xs : List ℕ} → Reach s xs → IsRing s xs
Reach-IsRing (init {s'} t p h s got ran) =
    let (w, run, ring) = init_sched-IsRing t p h s got in
    let same : w ≡ s' = cc in subst (λ x. IsRing x []) same ring
Reach-IsRing (add {s} {s'} {xs} t priority p h r got away ran) =
    let (w, run, at, ring, order) = sched_add_lem t priority p h s xs (Reach-IsRing r) away got in
    let same : w ≡ s' = cc in subst (λ x. IsRing x (xs ++ s.tail ∷ [])) same ring
Reach-IsRing (tick {s} {xs} r) = context_switch-IsRing s xs (Reach-IsRing r)
