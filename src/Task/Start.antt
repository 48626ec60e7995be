-- ===== src/Task/Start.antt =====
-- How a task that task_create (kernel/task.c) has made starts, when kernel/arch/i386/task_switch.S first
-- switches to it.
use gubos.Prelude.{
  ℕ, ◌+◌, ◌-◌, ◌^◌, ◌≤◌, ◌<◌, ◌≡◌, ◌≢◌, ◌∙◌, refl, ap, ◌==◌, false, Bool-cases, inl, inr, sub32,
  arith,
}
use gubos.Task.{Words, write, push_uint32, frame}

-- The stack of a new task from its lowest word at `low` on: the registers, the function, and from `back` on what is on the
-- stack when the function begins.
pub record NewStack (pid halt remove task_fn low back : ℕ) (mem : Words) : Type 0 where
  pub edi : mem low ≡ 0
  pub esi : mem (low + 4) ≡ 0
  pub ebx : mem (low + 8) ≡ 0
  pub ebp : mem (low + 12) ≡ 0
  pub function : mem (low + 16) ≡ task_fn
  pub cleanup : mem back ≡ remove
  pub return : mem (back + 4) ≡ halt
  pub argument : mem (back + 8) ≡ pid

-- one push
push-writes :
    (v top : ℕ) (mem : Words)
    → 4 ≤ top
    → top < 2 ^ 32
    → push_uint32 v (mem, top) ≡ (write top v mem, top - 4)
unfolding push_uint32
push-writes v top mem low small = ap (λ n. (write top v mem, n)) (omega arith)

-- the words that a new task pops: the registers and its function, pushed from `t` down
abbrev saved : (task_fn t : ℕ) → Words → Words
saved task_fn t mem =
    write (t - 16) 0 (write (t - 12) 0 (write (t - 8) 0 (write (t - 4) 0 (write t task_fn mem))))

saved-pushed :
    (task_fn t : ℕ) (mem : Words)
    → 16 ≤ t
    → t < 2 ^ 32
    → push_uint32 0 (push_uint32 0 (push_uint32 0 (push_uint32 task_fn (mem, t))))
      ≡ (write (t - 12) 0 (write (t - 8) 0 (write (t - 4) 0 (write t task_fn mem))), t - 16)
unfolding push_uint32
saved-pushed task_fn t mem low small =
    let a : sub32 t 4 ≡ t - 4 = omega arith in
    let b : sub32 (t - 4) 4 ≡ t - 8 = omega arith in
    let c : sub32 (t - 8) 4 ≡ t - 12 = omega arith in
    let d : sub32 (t - 12) 4 ≡ t - 16 = omega arith in rw (a, b, c, d) refl

module _ (pid halt remove task_fn : ℕ) (mem : Words) (top : ℕ) (low : 40 ≤ top)
    (small : top < 2 ^ 32) where
  -- the words behind the function: sched_remove, its return address and its argument
  abbrev cleanup : Words
  cleanup = write (top - 8) remove (write (top - 4) halt (write top pid mem))

  cleanup-pushed :
      push_uint32 remove (push_uint32 halt (push_uint32 pid (mem, top))) ≡ (cleanup, top - 12)
  unfolding push_uint32
  cleanup-pushed =
      let a : sub32 top 4 ≡ top - 4 = omega arith in
      let b : sub32 (top - 4) 4 ≡ top - 8 = omega arith in
      let c : sub32 (top - 8) 4 ≡ top - 12 = omega arith in rw (a, b, c) refl

  -- the new stack, for the words `back` between it and the cleanup
  saved-NewStack :
      (t : ℕ) (back : Words)
      → 16 ≤ t
      → t + 12 ≤ top
      → ((k : ℕ) → top - 8 ≤ k → back k ≡ cleanup k)
      → NewStack pid halt remove task_fn (t - 16) (top - 8) (saved task_fn t back)
  saved-NewStack t back room under same =
      let clear : (k : ℕ) → t < k → saved task_fn t back k ≡ back k = λ k h. ground arith in
      record {
        edi = ground arith;
        esi = ground arith;
        ebx = ground arith;
        ebp = ground arith;
        function = ground arith;
        cleanup = clear (top - 8) (omega arith) ∙ same (top - 8) (omega arith) ∙ (ground arith);
        return =
            clear (top - 8 + 4) (omega arith) ∙ same (top - 8 + 4) (omega arith) ∙ (ground arith);
        argument =
            clear (top - 8 + 8) (omega arith) ∙ same (top - 8 + 8) (omega arith) ∙ (ground arith);
      }

  -- the four registers and the function on a stack
  abbrev finish : Words × ℕ → Words × ℕ
  finish back =
      let stack = push_uint32 0 (push_uint32 0 (push_uint32 0 (push_uint32 task_fn back))) in
      (write stack.1 0 stack.0, stack.1)

  frame-none :
      (ret_addr : ℕ)
      → ret_addr ≡ 0
      → frame pid halt remove ret_addr task_fn (mem, top)
        ≡ finish (push_uint32 remove (push_uint32 halt (push_uint32 pid (mem, top))))
  unfolding frame
  frame-none ret_addr e = rw e refl

  frame-some :
      (ret_addr : ℕ)
      → (ret_addr == 0) ≡ false
      → frame pid halt remove ret_addr task_fn (mem, top)
        ≡ finish (
            push_uint32 ret_addr
              (push_uint32 remove (push_uint32 halt (push_uint32 pid (mem, top)))))
  unfolding frame
  frame-some ret_addr given = rw given refl

  -- The frame of task_create, with and without a return address for the function.
  pub frame-NewStack :
      (ret_addr : ℕ)
      → let made = frame pid halt remove ret_addr task_fn (mem, top) in
        NewStack pid halt remove task_fn made.1 (top - 8) made.0
        × (ret_addr ≢ 0 → made.0 (made.1 + 20) ≡ ret_addr)
        × (ret_addr ≢ 0 → made.1 + 24 ≡ top - 8)
        × (ret_addr ≡ 0 → made.1 + 20 ≡ top - 8)
  frame-NewStack ret_addr = elim (Bool-cases (ret_addr == 0)) [
    | inl none ↦
        let pushed = saved-pushed task_fn (top - 12) cleanup (omega arith) (omega arith) in
        rw (frame-none ret_addr (ground arith), cleanup-pushed, pushed)
          (
            saved-NewStack (top - 12) cleanup (omega arith) (omega arith) (λ k h. refl),
            (λ ne. absurd (ground arith)),
            (λ ne. absurd (ground arith)),
            λ z. omega arith,
          )
    | inr given ↦
        let t : sub32 (top - 12) 4 ≡ top - 16 = omega arith in
        let back = write (top - 12) ret_addr cleanup in
        let pushed = saved-pushed task_fn (top - 16) back (omega arith) (omega arith) in
        let more : push_uint32 ret_addr (cleanup, top - 12) ≡ (back, top - 16) =
          push-writes ret_addr (top - 12) cleanup (omega arith) (omega arith)
          ∙ ap (λ n. (back, n)) (omega arith) in
        rw (frame-some ret_addr given, cleanup-pushed, more, pushed)
          (
            saved-NewStack (top - 16) back (omega arith) (omega arith) (λ k h. ground arith),
            (λ ne. ground arith),
            (λ ne. omega arith),
            λ z. absurd (ground arith),
          )
  ]
