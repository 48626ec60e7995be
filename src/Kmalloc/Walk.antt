-- ===== src/Kmalloc/Walk.antt =====
-- kmalloc (kernel/kmalloc.c) serves a request as `carve` does on the list of free regions.
use mathlib.Core.Path.{subst}
use mathlib.Core.Option
use gubos.Prelude.{
  ℕ, zero, suc, ◌+◌, ◌≤◌, ◌<◌, ◌^◌, ◌≡◌, ◌≢◌, inl, inr, refl, sym, ◌∙◌, ◌==◌, ltb, false,
  Bool-cases, Option, none, some, Outcome, done, List, [], ◌∷◌, length, u32, arith,
}
use gubos.Kmalloc.{Heap, header_size, kmalloc_loop, relink, split}
use gubos.Kmalloc.Regions.{Region, carve, All, Off, InHeap, Apart}
use gubos.Kmalloc.Chain.{
  Chain, Outside, Outside-Off, link, Taken, Walked, relink-Taken, split-Taken,
}

module _ (n : ℕ) (small : n + header_size < 2 ^ 32) (h : Heap) where
  -- What the walk found behind `r` is what it found from `r` on.
  Taken-skip :
      (prev a : ℕ) (r : Region) (rs left : List Region) (h' : Heap)
      → link h prev ≡ r.start
      → 0 < r.start
      → (h.cell r.start).size ≡ r.size
      → Outside prev (r ∷ rs)
      → All (Off r) rs
      → Taken n a left h h' r.start rs
      → Taken n a (r ∷ left) h h' prev (r ∷ rs)
  Taken-skip prev a r rs left h' here pos size out off t =
      let f = t.frame in
      let ne : (r.start == 0) ≡ false = ground arith in
      let at : link h' prev ≡ r.start = ground (arith, f.head (omega arith), f.nexts prev out.1) in
      record {
        chain =
            let same : (h'.cell r.start).size ≡ r.size =
              ground (
                arith,
                f.sizes r.start (Outside-Off r.start r rs (omega arith) (omega arith) off),
              ) in
            subst (λ p. Chain h'.cell p (r ∷ left)) (sym at) (refl, pos, same, rw ne at t.chain);
        size = t.size;
        frame = record {
          sizes = λ x o. f.sizes x o.1;
          nexts = λ x o d. ground (arith, f.nexts x o.1);
          head = λ d. f.head (omega arith);
        };
      }

  Walked-skip :
      (prev : ℕ) (r : Region) (rs : List Region) (out : Outcome (ℕ × Heap))
      → ((a : ℕ) (left : List Region) (h' : Heap)
          → Taken n a left h h' r.start rs
          → Taken n a (r ∷ left) h h' prev (r ∷ rs))
      → (o : Option (ℕ × List Region)) → Walked n h r.start rs out o
      → Walked n h prev (r ∷ rs) out (Option.map (λ (a, left). (a, r ∷ left)) o)
  Walked-skip prev r rs out keep none w = w
  Walked-skip prev r rs out keep (some (a, left)) (h', e, t) = (h', e, keep a left h' t)

  -- One round, at a header that is not NULL.
  module _ (fuel prev cur : ℕ) (ne : cur ≢ 0) where
    loop_whole :
        (h.cell cur).size ≡ n
        → kmalloc_loop (suc fuel) n prev cur h
          ≡ done (u32 (cur + header_size), relink h prev (h.cell cur).next)
    unfolding kmalloc_loop
    loop_whole e = ground arith

    loop_cut :
        n + header_size < (h.cell cur).size
        → kmalloc_loop (suc fuel) n prev cur h ≡ done (u32 (cur + header_size), split h n prev cur)
    unfolding kmalloc_loop
    loop_cut lt = ground arith

    loop_skip :
        (h.cell cur).size ≢ n
        → (h.cell cur).size ≤ n + header_size
        → kmalloc_loop (suc fuel) n prev cur h ≡ kmalloc_loop fuel n cur (h.cell cur).next h
    unfolding kmalloc_loop
    loop_skip d le = ground arith

  pub walk :
      (fuel prev cur : ℕ) (rs : List Region)
      → length rs < fuel
      → link h prev ≡ cur
      → Chain h.cell cur rs
      → Outside prev rs
      → All InHeap rs
      → Apart rs
      → Walked n h prev rs (kmalloc_loop fuel n prev cur h) (carve n rs)
  unfolding carve
  walk zero prev cur rs f l chain out i ap = absurd (omega arith)
  walk (suc fuel) prev cur [] f l chain out i ap = unfold kmalloc_loop in ground arith
  walk (suc fuel) prev cur (r ∷ rs) f l chain out i ap =
      subst
        (λ cur. Walked n h prev (r ∷ rs) (kmalloc_loop (suc fuel) n prev cur h) (carve n (r ∷ rs)))
        chain.0
        (let chain' : Chain h.cell r.start (r ∷ rs) =
            subst (λ p. Chain h.cell p (r ∷ rs)) (sym chain.0) chain in
          let here : link h prev ≡ r.start = l ∙ sym chain.0 in
          let ne : r.start ≢ 0 = omega arith in
          let no_wrap : u32 (r.start + header_size) ≡ r.start + header_size = omega arith in
          elim (Bool-cases (r.size == n)) [
            | inl same ↦
                rw (loop_whole fuel prev r.start ne (ground arith), no_wrap, same)
                  (
                    relink h prev (h.cell r.start).next,
                    refl,
                    relink-Taken n h prev r rs chain' out ap.0 ne (ground arith),
                  )
            | inr other ↦ elim (Bool-cases (ltb (n + header_size) r.size)) [
              | inl room ↦
                  rw (loop_cut fuel prev r.start ne (ground arith), no_wrap, other, room)
                    (
                      split h n prev r.start,
                      refl,
                      split-Taken n h prev r rs chain' out ap.0 ne i.0 (ground arith),
                    )
              | inr full ↦
                  rw (loop_skip fuel prev r.start ne (ground arith) (ground arith), other, full)
                    (Walked-skip prev r rs _
                      (λ a left h'. Taken-skip prev a r rs left h' here chain'.1 chain'.2 out ap.0)
                      (carve n rs)
                      (walk fuel r.start (h.cell r.start).next rs (omega arith) (ground arith)
                        chain'.3 (Outside-Off r.start r rs (omega arith) (omega arith) ap.0) i.1
                        ap.1))
            ]
          ])
