-- ===== src/Multiboot/Walk.antt =====
-- What the walks over the tags find, by the list of the tags.
use gubos.Prelude.{
  ℕ, zero, suc, ◌+◌, ◌<◌, ◌≡◌, ◌≢◌, ap, ◌∙◌, true, false, ◌==◌, if◌then◌else◌, Bool-cases, inl, inr,
  List, [], ◌∷◌, length, done, u32, arith,
}
use gubos.Multiboot.{
  Memory, type_of, advance_tag, tag_rounds, tag_type_end, tag_type_module, tag_type_framebuffer,
  framebuffer_loop, multiboot_framebuffer_info, get_next_module_loop, multiboot_get_next_module,
}

-- from `tag` on memory has the tags at the addresses `xs`, and then the end tag
abbrev pub Tags : Memory → ℕ → List ℕ → Type 0
Tags mem tag [] = type_of mem tag ≡ tag_type_end
Tags mem tag (x ∷ xs) =
    (x ≡ tag) × (type_of mem tag ≢ tag_type_end) × Tags mem (advance_tag mem tag) xs

-- the first tag of a kind, or NULL
abbrev pub first_of : Memory → (kind : ℕ) → List ℕ → ℕ
first_of mem kind [] = 0
first_of mem kind (x ∷ xs) =
    let rest = first_of mem kind xs in if type_of mem x == kind then x else rest

-- the tags behind the first one of a kind
abbrev pub behind : Memory → (kind : ℕ) → List ℕ → List ℕ
behind mem kind [] = []
behind mem kind (x ∷ xs) =
    let rest = behind mem kind xs in if type_of mem x == kind then xs else rest

framebuffer_loop-first :
    (fuel tag : ℕ) (mem : Memory) (xs : List ℕ)
    → Tags mem tag xs
    → length xs < fuel
    → framebuffer_loop fuel tag mem ≡ done (first_of mem tag_type_framebuffer xs)
unfolding framebuffer_loop
framebuffer_loop-first zero tag mem xs tags enough = absurd (omega arith)
framebuffer_loop-first (suc fuel) tag mem [] tags enough = ground arith
framebuffer_loop-first (suc fuel) tag mem (x ∷ xs) (at, more, tags) enough =
    let rest = framebuffer_loop-first fuel (advance_tag mem tag) mem xs tags (omega arith) in
    ground arith

-- If memory has a list of tags, fewer than the rounds of the walk, behind the 8 bytes of the header, multiboot_framebuffer_info returns the first
-- framebuffer tag of the list, or NULL if there is none.
pub framebuffer_info-first :
    (multiboot_info : ℕ) (mem : Memory) (xs : List ℕ)
    → Tags mem (u32 (multiboot_info + 8)) xs
    → length xs < tag_rounds
    → multiboot_framebuffer_info multiboot_info mem ≡ done (first_of mem tag_type_framebuffer xs)
unfolding multiboot_framebuffer_info
framebuffer_info-first multiboot_info mem xs tags enough =
    framebuffer_loop-first tag_rounds (u32 (multiboot_info + 8)) mem xs tags enough

next_module_loop-first :
    (fuel tag : ℕ) (mem : Memory) (xs : List ℕ)
    → Tags mem tag xs
    → length xs < fuel
    → (tag' : ℕ) × (get_next_module_loop fuel tag mem
        ≡ done (first_of mem tag_type_module xs, tag'))
      × Tags mem tag' (behind mem tag_type_module xs)
unfolding get_next_module_loop
next_module_loop-first zero tag mem xs tags enough = absurd (omega arith)
next_module_loop-first (suc fuel) tag mem [] tags enough = (tag, ground arith, tags)
next_module_loop-first (suc fuel) tag mem (x ∷ xs) (at, more, tags) enough =
    let (tag', run, rest) =
      next_module_loop-first fuel (advance_tag mem tag) mem xs tags (omega arith) in
    elim (Bool-cases (type_of mem tag == tag_type_module)) [
      | inl e ↦
          let hit : (type_of mem x == tag_type_module) ≡ true =
            ap (λ t. type_of mem t == tag_type_module) at ∙ e in
          rw hit (advance_tag mem tag, ground arith, tags)
      | inr e ↦
          let miss : (type_of mem x == tag_type_module) ≡ false =
            ap (λ t. type_of mem t == tag_type_module) at ∙ e in
          rw miss (tag', ground arith, rest)
    ]

-- If memory has a list of tags from `tag` on, fewer than the rounds of the walk, multiboot_get_next_module returns the first module tag of the list,
-- or NULL if there is none, and leaves the tag from which on memory has the rest of the list behind it.
pub get_next_module-first :
    (tag : ℕ) (mem : Memory) (xs : List ℕ)
    → Tags mem tag xs
    → length xs < tag_rounds
    → (tag' : ℕ) × (multiboot_get_next_module tag mem
        ≡ done (first_of mem tag_type_module xs, tag'))
      × Tags mem tag' (behind mem tag_type_module xs)
unfolding multiboot_get_next_module
get_next_module-first tag mem xs tags enough =
    next_module_loop-first tag_rounds tag mem xs tags enough
