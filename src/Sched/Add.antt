-- ===== src/Sched/Add.antt =====
-- sched_add of kernel/sched.c: the new task runs after all the others.
use gubos.Prelude.{ℕ, ◌≡◌, ◌≢◌, refl, sym, ap, ◌∙◌, List, [], ◌∷◌, ◌++◌, done, arith}
use mathlib.Core.Path.{subst}
use gubos.Kmalloc.{Heap}
use gubos.Sched.{TaskNode, task_node, Sched, store, set_next, sched_add, task_list_size}
use gubos.Vmm.Blocks.{new_node}
use gubos.Sched.Ring.{Seg, NotIn, Distinct, IsRing, tasks}

pub Seg-store :
    (c : ℕ → TaskNode) (p : ℕ) (v : TaskNode) (a : ℕ) (xs : List ℕ) (b : ℕ)
    → NotIn p xs
    → Seg c a xs b
    → Seg (store c p v) a xs b
Seg-store c p v a [] b away seg = seg
Seg-store c p v a (x ∷ xs) b away seg =
    let same : store c p v a ≡ c a = ground arith in
    (
      seg.0,
      subst (λ n. Seg (store c p v) n.next xs b) (sym same)
          (Seg-store c p v (c a).next xs b away.1 seg.1),
    )

pub Seg-init :
    (c : ℕ → TaskNode) (a : ℕ) (xs : List ℕ) (y b : ℕ)
    → Seg c a (xs ++ y ∷ []) b
    → Seg c a xs y × ((c y).next ≡ b)
Seg-init c a [] y b seg = (sym seg.0, ap (λ n. (c n).next) seg.0 ∙ seg.1)
Seg-init c a (x ∷ xs) y b seg =
    let (front, at) = Seg-init c (c a).next xs y b seg.1 in ((seg.0, front), at)

pub Seg-snoc :
    (c : ℕ → TaskNode) (a : ℕ) (xs : List ℕ) (y b : ℕ)
    → Seg c a xs y
    → (c y).next ≡ b
    → Seg c a (xs ++ y ∷ []) b
Seg-snoc c a [] y b seg at = (sym seg, ap (λ n. (c n).next) seg ∙ at)
Seg-snoc c a (x ∷ xs) y b seg at = (seg.0, Seg-snoc c (c a).next xs y b seg.1 at)

pub NotIn-init : (p : ℕ) (xs : List ℕ) (y : ℕ) → NotIn p (xs ++ y ∷ []) → NotIn p xs × (p ≢ y)
NotIn-init p [] y away = (tt, away.0)
NotIn-init p (x ∷ xs) y away = let (front, at) = NotIn-init p xs y away.1 in ((away.0, front), at)

NotIn-snoc : (p : ℕ) (xs : List ℕ) (y : ℕ) → NotIn p xs → (p ≢ y) → NotIn p (xs ++ y ∷ [])
NotIn-snoc p [] y away at = (at, tt)
NotIn-snoc p (x ∷ xs) y away at = (away.0, NotIn-snoc p xs y away.1 at)

pub Distinct-init : (xs : List ℕ) (y : ℕ) → Distinct (xs ++ y ∷ []) → Distinct xs × NotIn y xs
Distinct-init [] y d = (tt, tt)
Distinct-init (x ∷ xs) y d =
    let (front, away) = Distinct-init xs y d.1 in
    let (inside, at) = NotIn-init x xs y d.0 in ((inside, front), (λ e. at (sym e), away))

pub Distinct-snoc : (xs : List ℕ) (y : ℕ) → Distinct xs → NotIn y xs → Distinct (xs ++ y ∷ [])
Distinct-snoc [] y d away = (tt, tt)
Distinct-snoc (x ∷ xs) y d away =
    (NotIn-snoc x xs y d.0 (λ e. away.0 (sym e)), Distinct-snoc xs y d.1 away.1)

tasks-store :
    (c : ℕ → TaskNode) (p : ℕ) (v : TaskNode) (xs : List ℕ)
    → NotIn p xs
    → tasks (store c p v) xs ≡ tasks c xs
tasks-store c p v [] away = refl
tasks-store c p v (x ∷ xs) away =
    let same : store c p v x ≡ c x = ground arith in let rest = tasks-store c p v xs away.1 in cc

tasks-link : (c : ℕ → TaskNode) (p q : ℕ) (xs : List ℕ) → tasks (set_next c p q) xs ≡ tasks c xs
tasks-link c p q [] = refl
tasks-link c p q (x ∷ xs) =
    let same : (set_next c p q x).task ≡ (c x).task = ground arith in
    let rest = tasks-link c p q xs in cc

tasks-snoc :
    (c : ℕ → TaskNode) (xs : List ℕ) (y : ℕ)
    → tasks c (xs ++ y ∷ []) ≡ tasks c xs ++ (c y).task ∷ []
tasks-snoc c [] y = refl
tasks-snoc c (x ∷ xs) y = ap (λ ts. (c x).task ∷ ts) (tasks-snoc c xs y)

-- the state that sched_add leaves when kmalloc has returned `p`
abbrev added : (t priority p : ℕ) → Heap → Sched → Sched
added t priority p h s =
    let c = store s.cell p (task_node t priority (s.cell s.tail).next) in
    record s { cell = set_next c s.tail p; heap = h; tail = p }

added-IsRing :
    (t priority p : ℕ) (h : Heap) (s : Sched) (xs : List ℕ)
    → IsRing s xs
    → NotIn p (xs ++ s.tail ∷ [])
    → IsRing (added t priority p h s) (xs ++ s.tail ∷ [])
added-IsRing t priority p h s xs ring away =
    let c₁ = store s.cell p (task_node t priority (s.cell s.tail).next) in
    let c₂ = set_next c₁ s.tail p in
    let (front, back) = Seg-init s.cell s.head xs s.tail s.head ring.circle in
    let (fresh, off) = NotIn-init p xs s.tail away in
    let apart = Distinct-init xs s.tail ring.distinct in
    let seg₁ =
      Seg-store s.cell p (task_node t priority (s.cell s.tail).next) s.head xs s.tail fresh front in
    let seg₂ =
      Seg-store c₁ s.tail (task_node (c₁ s.tail).task (c₁ s.tail).priority p) s.head xs s.tail
        apart.1 seg₁ in
    let to_new : (c₂ s.tail).next ≡ p = ground arith in
    let to_head : (c₂ p).next ≡ s.head = ground arith in
    record {
      circle =
          Seg-snoc c₂ s.head (xs ++ s.tail ∷ []) p s.head
            (Seg-snoc c₂ s.head xs s.tail p seg₂ to_new) to_head;
      distinct = Distinct-snoc (xs ++ s.tail ∷ []) p ring.distinct away;
    }

added-tasks :
    (t priority p : ℕ) (h : Heap) (s : Sched) (xs : List ℕ)
    → NotIn p (xs ++ s.tail ∷ [])
    → tasks (added t priority p h s).cell ((xs ++ s.tail ∷ []) ++ p ∷ [])
      ≡ tasks s.cell (xs ++ s.tail ∷ []) ++ t ∷ []
added-tasks t priority p h s xs away =
    let v = task_node t priority (s.cell s.tail).next in
    let mine : (store s.cell p v p).task ≡ t = ground arith in
    tasks-link (store s.cell p v) s.tail p ((xs ++ s.tail ∷ []) ++ p ∷ [])
    ∙ tasks-snoc (store s.cell p v) (xs ++ s.tail ∷ []) p
    ∙ ap (λ n. tasks (store s.cell p v) (xs ++ s.tail ∷ []) ++ n ∷ []) mine
    ∙ ap (λ ts. ts ++ t ∷ []) (tasks-store s.cell p v (xs ++ s.tail ∷ []) away)

-- If kmalloc returns a node outside the list, sched_add returns, the list is a circle again with that node as
-- its last, and the tasks of the nodes are those of before, in their order, and then the new one.
pub sched_add_lem :
    (t priority p : ℕ) (h : Heap) (s : Sched) (xs : List ℕ)
    → IsRing s xs
    → NotIn p (xs ++ s.tail ∷ [])
    → new_node task_list_size s.heap ≡ done (p, h)
    → (s' : Sched) × (sched_add t priority s ≡ done s')
      × (s'.tail ≡ p)
      × IsRing s' (xs ++ s.tail ∷ [])
      × (tasks s'.cell ((xs ++ s.tail ∷ []) ++ p ∷ []) ≡ tasks s.cell (xs ++ s.tail ∷ []) ++ t ∷ [])
unfolding sched_add
sched_add_lem t priority p h s xs ring away got =
    let run : sched_add t priority s ≡ done (added t priority p h s) = rw got in
    (
      added t priority p h s,
      run,
      refl,
      added-IsRing t priority p h s xs ring away,
      added-tasks t priority p h s xs away,
    )
