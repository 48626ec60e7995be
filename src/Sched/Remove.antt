-- ===== src/Sched/Remove.antt =====
-- sched_remove of kernel/sched.c: which task leaves the list, and when the loop does not end.
use gubos.Prelude.{
  ℕ, zero, suc, ◌≡◌, ◌≢◌, ◌<◌, refl, sym, ap, ◌∙◌, ◌==◌, if◌then◌else◌, List, [], ◌∷◌, ◌++◌, done,
  hang, arith,
}
use mathlib.Core.Path.{subst}
use gubos.Sched.{task_node, Sched, set_next, sched_remove, remove_loop, unlink, drop_last, init_pid}
use gubos.Sched.Ring.{Seg, IsRing}
use gubos.Sched.Add.{Seg-store, Seg-init, Seg-snoc, NotIn-init, Distinct-init}

unlink-IsRing :
    (s : Sched) (x : ℕ) (xs : List ℕ) → IsRing s (x ∷ xs) → IsRing (unlink s.tail x s) xs
unfolding unlink
unlink-IsRing s x xs ring =
    let after = (s.cell x).next in
    let c = set_next s.cell s.tail after in
    let at : x ≡ s.head = ring.circle.0 in
    let shut : Seg s.cell after (xs ++ s.tail ∷ []) s.head =
      subst (λ a. Seg s.cell (s.cell a).next (xs ++ s.tail ∷ []) s.head) (sym at) ring.circle.1 in
    let (front, back) = Seg-init s.cell after xs s.tail s.head shut in
    let apart = Distinct-init xs s.tail ring.distinct.1 in
    let kept =
      Seg-store s.cell s.tail (task_node (s.cell s.tail).task (s.cell s.tail).priority after) after
        xs s.tail apart.1 front in
    let closed : (c s.tail).next ≡ after = ground arith in
    let seg = Seg-snoc c after xs s.tail after kept closed in
    let first : after ≡ (if x == s.head then after else s.head) = ground arith in
    record {
      circle = subst (λ a. Seg c a (xs ++ s.tail ∷ []) a) first seg;
      distinct = ring.distinct.1;
    }

drop_last-tail : (s : Sched) (x : ℕ) → (s.cell s.tail).next ≡ x → (drop_last s).tail ≡ x
unfolding drop_last
drop_last-tail s x first = first

drop_last-IsRing : (s : Sched) → (s.cell s.tail).next ≡ s.head → IsRing (drop_last s) []
unfolding drop_last
drop_last-IsRing s around =
    let loop : (set_next s.cell s.head (s.cell s.tail).next s.head).next ≡ s.head = ground arith in
    record { circle = (around, loop); distinct = (tt, tt) }

module _ (pid_of : ℕ → ℕ) where
  -- For a pid that may be removed and is not the last node's, if the task of the first node has it, that
  -- node leaves the circle and all the others stay in their order.
  pub remove_first :
      (pid : ℕ) (s : Sched) (x : ℕ) (xs : List ℕ)
      → IsRing s (x ∷ xs)
      → init_pid < pid
      → pid_of (s.cell s.tail).task ≢ pid
      → pid_of (s.cell x).task ≡ pid
      → (sched_remove pid_of pid s ≡ done (unlink s.tail x s)) × IsRing (unlink s.tail x s) xs
  unfolding sched_remove remove_loop
  remove_first pid s x xs ring allowed other mine =
      let at : x ≡ s.head = ring.circle.0 in
      let around : (s.cell s.tail).next ≡ s.head =
        (Seg-init s.cell s.head (x ∷ xs) s.tail s.head ring.circle).1 in
      let first : (s.cell s.tail).next ≡ x = around ∙ sym at in
      let hit : pid_of (s.cell (s.cell s.tail).next).task ≡ pid =
        ap (λ n. pid_of (s.cell n).task) first ∙ mine in
      let run : sched_remove pid_of pid s ≡ done (unlink s.tail (s.cell s.tail).next s) =
        ground arith in
      (run ∙ ap (λ n. done (unlink s.tail n s)) first, unlink-IsRing s x xs ring)

  -- If the first of at least two nodes does not have the pid, the loop runs for ever: it has not returned
  -- after any number of rounds, whatever tasks the other nodes have.
  pub remove_loop_hangs :
      (fuel pid task : ℕ) (s : Sched) (x : ℕ) (xs : List ℕ)
      → IsRing s (x ∷ xs)
      → pid_of (s.cell x).task ≢ pid
      → remove_loop pid_of fuel pid task s ≡ hang
  unfolding remove_loop
  remove_loop_hangs zero pid task s x xs ring other = refl
  remove_loop_hangs (suc fuel) pid task s x xs ring other =
      let at : x ≡ s.head = ring.circle.0 in
      let around : (s.cell s.tail).next ≡ s.head =
        (Seg-init s.cell s.head (x ∷ xs) s.tail s.head ring.circle).1 in
      let first : (s.cell s.tail).next ≡ x = around ∙ sym at in
      let off : x ≢ s.tail = (NotIn-init x xs s.tail ring.distinct.0).1 in
      let miss : pid_of (s.cell (s.cell s.tail).next).task ≢ pid =
        subst (λ n. pid_of (s.cell n).task ≢ pid) (sym first) other in
      let again = remove_loop_hangs fuel pid (s.cell s.tail).next s x xs ring other in
      let apart : (s.cell s.tail).next ≢ s.tail = subst (λ n. n ≢ s.tail) (sym first) off in
      ground arith

  -- If the last of at least two nodes has the pid, sched_remove returns with a circle of one node, the first:
  -- all the others have left the list.
  pub remove_tail :
      (pid : ℕ) (s : Sched) (x : ℕ) (xs : List ℕ)
      → IsRing s (x ∷ xs)
      → init_pid < pid
      → pid_of (s.cell s.tail).task ≡ pid
      → (s' : Sched) × (sched_remove pid_of pid s ≡ done s') × (s'.tail ≡ x) × IsRing s' []
  unfolding sched_remove
  remove_tail pid s x xs ring allowed mine =
      let at : x ≡ s.head = ring.circle.0 in
      let around : (s.cell s.tail).next ≡ s.head =
        (Seg-init s.cell s.head (x ∷ xs) s.tail s.head ring.circle).1 in
      let first : (s.cell s.tail).next ≡ x = around ∙ sym at in
      let run : sched_remove pid_of pid s ≡ done (drop_last s) = ground arith in
      (drop_last s, run, drop_last-tail s x first, drop_last-IsRing s around)
