-- ===== src/Kmalloc.antt =====
-- The kernel heap: kernel/kmalloc.c and kernel/include/kmalloc.h. A header is a cell at its address;
-- the free regions are chained from `head` by the `next` fields, as in the code.
pub mod Chain
pub mod Client
pub mod Free
pub mod Invariant
pub mod Regions
pub mod Reuse
mod Tests
pub mod Walk
use gubos.Prelude.{
  ℕ, zero, suc, ◌+◌, ◌-◌, ◌*◌, ◌/◌, ◌==◌, if◌then◌else◌, ltb, Bool, true, false, Outcome, done,
  hang, u32, sub32,
}

-- struct kmalloc_header
pub record Header : Type 0 where
  pub size : ℕ
  pub next : ℕ

-- KMALLOC_HEAD, and the headers in the heap's memory by their addresses
pub record Heap : Type 0 where
  pub head : ℕ
  pub cell : ℕ → Header

abbrev pub kernel_heap_virt_start : ℕ
kernel_heap_virt_start = 0xE000_0000

abbrev pub kernel_heap_phys_start : ℕ
kernel_heap_phys_start = 0x0080_0000

abbrev pub kernel_heap_size : ℕ
kernel_heap_size = 0x0300_0000

-- sizeof(kmalloc_header_t): two 32-bit words
abbrev pub header_size : ℕ
header_size = 8

abbrev pub header : ℕ → ℕ → Header
header n p = record { size = n; next = p }

-- *p = c
unfoldable pub write : Heap → ℕ → Header → Heap
write h p c = record h { cell = λ a. if a == p then c else h.cell a }

unfoldable pub kmalloc_init : Heap → Heap
unfolding write
kmalloc_init h =
    let h' = record h { head = kernel_heap_virt_start } in
    write h' kernel_heap_virt_start (header (kernel_heap_size - header_size) 0)

-- `if (prev == NULL) KMALLOC_HEAD = p; else prev->next = p;`
unfoldable pub relink : Heap → ℕ → ℕ → Heap
unfolding write
relink h prev p =
    if prev == 0 then record h { head = p } else write h prev (header (h.cell prev).size p)

-- The region `cur` is cut in two: what is handed out, and the rest, which takes its place.
unfoldable pub split : Heap → (size prev cur : ℕ) → Heap
unfolding write relink
split h size prev cur =
    let c = h.cell cur in
    let new_region = u32 (cur + header_size + size) in
    let remaining = sub32 c.size size in
    let h₁ = write h new_region (header (sub32 remaining header_size) c.next) in
    let h₂ = relink h₁ prev new_region in write h₂ cur (header size (h₂.cell cur).next)

-- The walk along the free regions, with `fuel` rounds at most.
unfoldable pub kmalloc_loop : (fuel size prev cur : ℕ) → Heap → Outcome (ℕ × Heap)
kmalloc_loop zero size prev cur h = hang
kmalloc_loop (suc fuel) size prev cur h = elim (cur == 0) [
  | true ↦ done (0, h)
  | false ↦ elim ((h.cell cur).size == size) [
    | true ↦ done (u32 (cur + header_size), relink h prev (h.cell cur).next)
    | false ↦ elim (ltb (u32 (size + header_size)) (h.cell cur).size) [
      | true ↦ done (u32 (cur + header_size), split h size prev cur)
      | false ↦ kmalloc_loop fuel size cur (h.cell cur).next h
    ]
  ]
]

-- More rounds than there can be headers in the heap.
unfoldable pub max_rounds : ℕ
max_rounds = 0x60_0001

-- The address handed out is 0 (NULL) when no region serves.
unfoldable pub kmalloc : ℕ → Heap → Outcome (ℕ × Heap)
kmalloc size h = kmalloc_loop max_rounds size 0 h.head h

unfoldable pub kfree : ℕ → Heap → Heap
unfolding write
kfree addr h =
    let region = sub32 addr header_size in
    let h' = write h region (header (h.cell region).size h.head) in record h' { head = region }
