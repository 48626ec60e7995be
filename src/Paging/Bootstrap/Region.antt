-- ===== src/Paging/Bootstrap/Region.antt =====
-- Which addresses the first page directory (kernel/arch/i386/paging_bootstrap.c) maps, and where they lead.
use gubos.Prelude.{
  ℕ, zero, suc, ◌+◌, ◌-◌, ◌*◌, ◌/◌, ◌%◌, ◌^◌, ◌≤◌, ◌<◌, ◌≡◌, refl, ap, ◌∙◌, ◌==◌, ltb, leb, ltb→lt,
  ◌&&◌, Bool-cases, inl, inr, true, false, if◌then◌else◌, Option, none, some, done, bit_or, u32,
  arith,
}
use gubos.Prelude.Bits.{bit_or_aligned, bit_or_above}
use gubos.Meminfo.{KernelMeminfo}
use gubos.Page.{page_table_size}
use gubos.Paging.{page_directory_index, set_entry}
use gubos.Paging.Bootstrap.{
  clear_entries, large_entry, bootstrap_loop, paging_bootstrap, kernel_page_size,
}

-- the walk of the processor for a page of 4 MiB
abbrev pub large_translate : (ℕ → ℕ) → ℕ → Option ℕ
large_translate entries v =
    let e = entries (v / 2 ^ 22) in
    if e % 2 == 1 && e / 2 ^ 7 % 2 == 1 then some (e / 2 ^ 22 * 2 ^ 22 + v % 2 ^ 22) else none

clear_entries_lem : (n : ℕ) (entries : ℕ → ℕ) (j : ℕ) → j < n → clear_entries n entries j ≡ 0
unfolding clear_entries
clear_entries_lem zero entries j h = elim h [ ]
clear_entries_lem (suc n) entries j h = elim (Bool-cases (j == n)) [
  | inl here ↦ ground arith
  | inr other ↦
      let less : j < n = ground arith in
      let old = clear_entries_lem n entries j less in ground arith
]

large_entry_lem : (p : ℕ) → p < 2 ^ 32 → large_entry p ≡ p / 2 ^ 22 * 2 ^ 22 + 131
unfolding large_entry page_directory_index
large_entry_lem p small =
    let fits : u32 (p / 2 ^ 22 * 2 ^ 22) ≡ p / 2 ^ 22 * 2 ^ 22 = omega arith in
    let q = p / 2 ^ 22 in
    let a : bit_or (q * 2 ^ 22) 1 ≡ q * 2 ^ 22 + 1 = bit_or_aligned 22 q 1 (omega arith) in
    let b : bit_or (q * 2 ^ 22 + 1) 128 ≡ q * 2 ^ 22 + 129 =
      bit_or_above 22 q 1 128 (omega arith) (omega arith) in
    let c : bit_or (q * 2 ^ 22 + 129) 2 ≡ q * 2 ^ 22 + 131 =
      bit_or_above 22 q 129 2 (omega arith) (omega arith) in
    rw fits (rw (a, b, c) refl)

no_rounds : (a j : ℕ) → (leb a j && ltb j (a + 0)) ≡ false
no_rounds a j = ground arith

in_rounds : (a j n : ℕ) → a ≤ j → j < a + n → (leb a j && ltb j (a + n)) ≡ true
in_rounds a j n low high = ground arith

out_rounds : (a j n : ℕ) → a + n ≤ j → (leb a j && ltb j (a + n)) ≡ false
out_rounds a j n high = ground arith

not_below : (a b : ℕ) → ltb a b ≡ false → b ≤ a
not_below a b h = ground arith

large-some :
    (e q w : ℕ)
    → e ≡ q * 2 ^ 22 + 131
    → (if e % 2 == 1 && e / 2 ^ 7 % 2 == 1 then some (e / 2 ^ 22 * 2 ^ 22 + w) else none)
      ≡ some (q * 2 ^ 22 + w)
large-some e q w h =
    let present : (e % 2 == 1 && e / 2 ^ 7 % 2 == 1) ≡ true = ground arith in
    let page : e / 2 ^ 22 * 2 ^ 22 ≡ q * 2 ^ 22 = omega arith in rw (present, page) refl

module _ (m : KernelMeminfo) (ends : m.virtual_end < 2 ^ 32)
    (room : m.physical_start + (m.virtual_end - m.virtual_start) < 2 ^ 32) where
  -- the entries after `i` rounds
  abbrev Rounds : (i : ℕ) → (ℕ → ℕ) → Type 0
  Rounds i entries =
      (j : ℕ)
      → j < page_table_size
      → entries j ≡ (
          if leb (m.virtual_start / 2 ^ 22) j && ltb j (m.virtual_start / 2 ^ 22 + i)
          then (m.physical_start / 2 ^ 22 + (j - m.virtual_start / 2 ^ 22)) * 2 ^ 22 + 131
          else 0)

  Rounds-suc :
      (i : ℕ) (entries : ℕ → ℕ)
      → m.virtual_start + i * kernel_page_size < m.virtual_end
      → Rounds i entries
      → Rounds (i + 1) (
          set_entry
            (page_directory_index (u32 (m.virtual_start + i * kernel_page_size)))
            (large_entry (u32 (m.physical_start + i * kernel_page_size)))
            entries)
  unfolding page_directory_index
  Rounds-suc i entries inside old j small =
      let v : u32 (m.virtual_start + i * kernel_page_size) / 2 ^ 22 ≡ m.virtual_start / 2 ^ 22 + i =
        omega arith in
      let fits : u32 (m.physical_start + i * kernel_page_size)
          ≡ m.physical_start + i * kernel_page_size =
        omega arith in
      let p : m.physical_start + i * kernel_page_size < 2 ^ 32 = omega arith in
      let e : large_entry (u32 (m.physical_start + i * kernel_page_size))
          ≡ (m.physical_start / 2 ^ 22 + i) * 2 ^ 22 + 131 =
        ap large_entry fits
        ∙ large_entry_lem (m.physical_start + i * kernel_page_size) p
        ∙ omega arith in
      let before = old j small in
      elim (Bool-cases (j == m.virtual_start / 2 ^ 22 + i)) [
        | inl here ↦
            let at : j ≡ m.virtual_start / 2 ^ 22 + i = ground arith in ground (arith, v, e)
        | inr other ↦ ground (arith, v, before)
      ]

  -- the entries of all rounds that the loop takes
  abbrev Filled : (ℕ → ℕ) → Type 0
  Filled entries =
      (n : ℕ) × (m.virtual_end ≤ m.virtual_start + n * kernel_page_size)
      × ((k : ℕ) → k < n → m.virtual_start + k * kernel_page_size < m.virtual_end)
      × Rounds n entries

  loop-Filled :
      (fuel i : ℕ) (entries : ℕ → ℕ)
      → fuel + i ≡ page_table_size + 1
      → i ≤ page_table_size
      → ((k : ℕ) → k < i → m.virtual_start + k * kernel_page_size < m.virtual_end)
      → Rounds i entries
      → (entries' : ℕ → ℕ) × (bootstrap_loop fuel i m entries ≡ done entries') × Filled entries'
  unfolding bootstrap_loop
  loop-Filled zero i entries enough few inside rounds = absurd (omega arith)
  loop-Filled (suc fuel) i entries enough few inside rounds =
      elim (Bool-cases (ltb (m.virtual_start + i * kernel_page_size) m.virtual_end)) [
        | inr stop ↦ (entries, (rw stop refl), (i, ground arith, inside, rounds))
        | inl more ↦
            let here : m.virtual_start + i * kernel_page_size < m.virtual_end = ground arith in
            let upto : (k : ℕ)
                → k < i + 1
                → m.virtual_start + k * kernel_page_size < m.virtual_end =
              λ k h. omega arith in
            let (entries', run, filled) =
              loop-Filled fuel (i + 1) _ (omega arith) (omega arith) upto
                (Rounds-suc i entries here rounds) in
            (entries', (rw more run), filled)
      ]

  -- the start of the 4 MiB that the loop maps for an address of the kernel
  abbrev pub round_start : ℕ → ℕ
  round_start v = m.virtual_start + (v / 2 ^ 22 - m.virtual_start / 2 ^ 22) * kernel_page_size

  -- If the kernel ends below 2 ^ 32 in both address spaces, and its two starts are at the same offset
  -- in 4 MiB, paging_bootstrap returns the directory's address, and a kernel address leads to its
  -- physical address if the round for its 4 MiB begins before the kernel's end (a round begins at the
  -- offset of the kernel's start, not at the 4 MiB), else it is not mapped.
  pub bootstrap-large_translate :
      (directory : ℕ) (entries : ℕ → ℕ)
      → m.virtual_start % kernel_page_size ≡ m.physical_start % kernel_page_size
      → (entries' : ℕ → ℕ) × (paging_bootstrap directory m entries ≡ done (directory, entries'))
        × ((v : ℕ)
            → m.virtual_start ≤ v
            → v < m.virtual_end
            → large_translate entries' v ≡ (
                if ltb (round_start v) m.virtual_end
                then some (v - m.virtual_start + m.physical_start)
                else none))
  unfolding paging_bootstrap
  bootstrap-large_translate directory entries offset =
      let cleared = clear_entries page_table_size entries in
      let blank : Rounds 0 cleared = λ j h.
        let none_yet = no_rounds (m.virtual_start / 2 ^ 22) j in
        rw none_yet (clear_entries_lem page_table_size entries j h) in
      let (entries', run, filled) =
        loop-Filled (page_table_size + 1) 0 cleared refl (omega arith) (λ k h. elim h [ ]) blank in
      let (n, stop, inside, rounds) = filled in
      (
        entries',
        (rw run refl),
        λ v low high.
            let first = m.virtual_start / 2 ^ 22 in
            let j = v / 2 ^ 22 in
            let at = rounds j (omega arith) in
            elim (Bool-cases (ltb (round_start v) m.virtual_end)) [
              | inl mapped ↦
                  let begins : round_start v < m.virtual_end =
                    ltb→lt (round_start v) m.virtual_end mapped in
                  let taken : j - first < n = omega arith in
                  let there : (leb first j && ltb j (first + n)) ≡ true =
                    in_rounds first j n (omega arith) (omega arith) in
                  let e : entries' j ≡ (m.physical_start / 2 ^ 22 + (j - first)) * 2 ^ 22 + 131 =
                    rw there at at in
                  rw mapped (
                    large-some (entries' j) (m.physical_start / 2 ^ 22 + (j - first)) (v % 2 ^ 22) e
                    ∙ ap (λ a. some a) (omega arith))
              | inr beyond ↦
                  let begins : m.virtual_end ≤ round_start v =
                    not_below (round_start v) m.virtual_end beyond in
                  let beyond_all : first + n ≤ j = elim (Bool-cases (ltb j (first + n))) [
                    | inl within ↦
                        let less : j < first + n = ltb→lt j (first + n) within in
                        let reached = inside (j - first) (omega arith) in absurd (omega arith)
                    | inr out ↦ not_below j (first + n) out
                  ] in
                  let e : entries' j ≡ 0 = rw (out_rounds first j n beyond_all) at at in
                  rw (beyond, e) refl
            ],
      )
