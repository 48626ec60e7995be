-- ===== src/Sched/Ring.antt =====
-- The circular list of kernel/sched.c, and the order in which it schedules.
use gubos.Prelude.{ℕ, zero, suc, ◌≡◌, ◌≢◌, sym, ap, ◌∙◌, List, [], ◌∷◌, ◌++◌, length}
use mathlib.Core.Path.{subst}
use gubos.Sched.{TaskNode, task_node, Sched, sched_context_switch}

-- from `a` the `next` fields lead through the nodes `xs` to `b`
abbrev pub Seg : (ℕ → TaskNode) → ℕ → List ℕ → ℕ → Type 0
Seg c a [] b = a ≡ b
Seg c a (x ∷ xs) b = (x ≡ a) × Seg c (c a).next xs b

abbrev pub NotIn : ℕ → List ℕ → Type 0
NotIn p [] = Unit
NotIn p (x ∷ xs) = (p ≢ x) × NotIn p xs

abbrev pub Distinct : List ℕ → Type 0
Distinct [] = Unit
Distinct (x ∷ xs) = NotIn x xs × Distinct xs

-- The nodes `xs` and then the last one form a circle that begins at the first.
pub record IsRing (s : Sched) (xs : List ℕ) : Type 0 where
  pub circle : Seg s.cell s.head (xs ++ s.tail ∷ []) s.head
  pub distinct : Distinct (xs ++ s.tail ∷ [])

-- the tasks of the nodes
abbrev pub tasks : (ℕ → TaskNode) → List ℕ → List ℕ
tasks c [] = []
tasks c (x ∷ xs) = (c x).task ∷ tasks c xs

-- `n` timer interrupts
unfoldable pub switches : ℕ → Sched → Sched
switches zero s = s
switches (suc n) s = switches n (sched_context_switch s)

-- oldest first, in front of what follows
abbrev pub rev_onto : List ℕ → List ℕ → List ℕ
rev_onto [] ys = ys
rev_onto (x ∷ xs) ys = rev_onto xs (x ∷ ys)

-- what a run of switches leaves: the cursor, the task that runs, the record of switches
abbrev pub switched_to : ℕ → TaskNode → List ℕ → Sched → Sched
switched_to b now ts s = record s { sched_head = b; current = now; switched = ts }

-- CURRENT_TASK after the tasks `ts` have been switched to
abbrev pub running : TaskNode → List ℕ → TaskNode
running now [] = now
running now (t ∷ ts) = running (task_node t now.priority now.next) ts

context_switch-at :
    (s : Sched) (x : ℕ)
    → x ≡ s.sched_head
    → sched_context_switch s
      ≡ switched_to
          (s.cell s.sched_head).next
          (task_node (s.cell x).task s.current.priority s.current.next)
          ((s.cell x).task ∷ s.switched)
          s
unfolding sched_context_switch
context_switch-at s x at = cc

switches-Seg :
    (s : Sched) (xs : List ℕ) (b : ℕ)
    → Seg s.cell s.sched_head xs b
    → switches (length xs) s
      ≡ switched_to b
          (running s.current (tasks s.cell xs))
          (rev_onto (tasks s.cell xs) s.switched)
          s
unfolding switches
switches-Seg s [] b seg = λ i. record s { sched_head = seg i }
switches-Seg s (x ∷ xs) b seg =
    ap (switches (length xs)) (context_switch-at s x seg.0)
    ∙ switches-Seg
        (switched_to (s.cell s.sched_head).next
          (task_node (s.cell x).task s.current.priority s.current.next)
          ((s.cell x).task ∷ s.switched) s)
        xs b seg.1

-- In a circle, from the first node on, as many switches as there are tasks run each task once, in the order of
-- the list, and come back to the first node.
pub round_robin :
    (s : Sched) (xs : List ℕ)
    → IsRing s xs
    → s.sched_head ≡ s.head
    → switches (length (xs ++ s.tail ∷ [])) s
      ≡ switched_to s.head
          (running s.current (tasks s.cell (xs ++ s.tail ∷ [])))
          (rev_onto (tasks s.cell (xs ++ s.tail ∷ [])) s.switched)
          s
round_robin s xs ring at =
    switches-Seg s (xs ++ s.tail ∷ []) s.head
      (subst (λ a. Seg s.cell a (xs ++ s.tail ∷ []) s.head) (sym at) ring.circle)
