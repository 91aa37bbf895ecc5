-- ===== src/Elf/Complete.antt =====
-- A program whose headers are whole and valid is loaded, and what is in memory then.
use filestick.Base.{
  ℕ, zero, suc, ◌+◌, ◌*◌, ◌%◌, ◌^◌, ◌≤◌, ◌<◌, ◌≡◌, refl, sym, ap, ◌∙◌, ◌⊎◌, inl, inr, true, false,
  not, ◌&&◌, ◌||◌, some, List, arith, ltb, leb, if◌then◌else◌, Bool-cases, length,
}
use mathlib.Core.Path.{subst}
use filestick.Elf.{
  usrmem_start, phdr_size, File, seek, chunk, after, Ehdr, phdr_of, is_load, elf_read_ehdr,
  validate_loop, elf_validate_phdr, Machine, clear, memsz_of, no_memory, load_segment, load_loop,
  refused, loaded, loading, elf_load_fd,
}
use filestick.Elf.Chunks.{length-chunk, read_into-whole}
use filestick.Elf.Image.{Whole, fits, image, break_after, Filled, load_loop-round, segment-Filled}
use filestick.Elf.Loaded.{on_bus-within, same_headers, memsz_of-lem}

load_loop-Filled :
    (n offset : ℕ) (old_valid old : List ℕ) (f : File) (m : Machine)
    → length old_valid ≡ 32
    → length old ≡ 32
    → Whole n f
    → (validate_loop n old_valid f).0 ≡ true
    → fits n f ≡ true
    → Filled n offset f m (load_loop n offset old f m)
unfolding load_loop validate_loop
load_loop-Filled zero offset old_valid old f m l₁ l₂ w v h = (refl, (λ x l. refl), refl)
load_loop-Filled (suc n) offset old_valid old f m l₁ l₂ w v h =
    let bytes = chunk phdr_size f in
    let p = phdr_of bytes in
    let f₁ = after phdr_size f in
    let size = length-chunk 32 f (omega arith) in
    let r₁ = read_into-whole old_valid f l₁ (omega arith) in
    let r₂ = read_into-whole old f l₂ (omega arith) in
    let w₁ : Whole n f₁ = omega arith in
    let fit : (not (is_load p) || leb (p.p_paddr + p.p_filesz) (2 ^ 24)) ≡ true = ground arith in
    let fit_rest : fits n f₁ ≡ true = ground arith in
    elim (Bool-cases (is_load p && ltb p.p_paddr usrmem_start)) [
      | inl low ↦ let bad : false ≡ true = rw (validate_loop, r₁, low) at v in absurd (ground arith)
      | inr high ↦
          let v₁ : (validate_loop n bytes f₁).0 ≡ true = rw (validate_loop, r₁, high) at v in
          let m₁ = if is_load p then load_segment offset p f₁ m else m in
          subst (Filled (suc n) offset f m)
            (sym (load_loop-round n offset old bytes f m (is_load p) r₂ high refl))
            (segment-Filled n offset f m (is_load p) (load_loop n offset bytes f₁ m₁) refl fit
              (load_loop-Filled n offset bytes bytes f₁ m₁ size size w₁ v₁ fit_rest))
    ]

cleared :
    (stack_ptr : ℕ) (mem : ℕ → ℕ) (x : ℕ)
    → usrmem_start < stack_ptr
    → stack_ptr ≤ 2 ^ 24
    → x < 2 ^ 24
    → clear (memsz_of stack_ptr) mem x
      ≡ (if leb usrmem_start x && ltb x stack_ptr then 0 else mem x)
cleared stack_ptr mem x low high l =
    let n = memsz_of-lem stack_ptr high low in
    let top : usrmem_start + memsz_of stack_ptr ≡ stack_ptr = omega arith in
    on_bus-within usrmem_start (memsz_of stack_ptr) (λ _. 0) mem x (omega arith) l
    ∙ ap (λ t. if leb usrmem_start x && ltb x t then 0 else mem x) top

-- A program whose header is accepted, whose program headers lie within the file and whose segments
-- end within the 24 bits of an address, with a stack that lies above the start of user memory and
-- within these. Where its program headers are accepted, the loader returns the start address, and each
-- byte of memory is then the file's byte of the last segment that has one for its address, else 0
-- from the start of user memory to the stack, else as it was; the break and its minimum are behind the
-- memory of the last segment, and as they were if there is none. Where they are not accepted the
-- loader refuses the program and touches no memory.
pub elf_load_fd-loaded :
    (junk junk_phdr junk_valid : List ℕ) (offset stack_ptr : ℕ) (f f₁ : File) (h : Ehdr)
    (m : Machine)
    → length junk_phdr ≡ 32
    → length junk_valid ≡ 32
    → elf_read_ehdr junk offset f ≡ (true, h, f₁)
    → (offset + h.e_phoff) % 2 ^ 32 + 32 * h.e_phnum ≤ length f₁.contents
    → fits h.e_phnum (seek (offset + h.e_phoff) f₁) ≡ true
    → usrmem_start < stack_ptr
    → stack_ptr ≤ 2 ^ 24
    → let g = seek (offset + h.e_phoff) f₁ in
      let (valid, _) = elf_validate_phdr junk_valid offset h f₁ in
      let result = elf_load_fd junk junk_phdr junk_valid offset stack_ptr f m in
      ((valid ≡ true)
        × ((m' : Machine) × (result ≡ some (loaded h.e_entry m'))
            × ((x : ℕ)
                → x < 2 ^ 24
                → m'.mem x
                  ≡ image h.e_phnum offset g x
                      (if leb usrmem_start x && ltb x stack_ptr then 0 else m.mem x))
            × (m'.brk ≡ break_after h.e_phnum g m.brk)))
      ⊎ ((valid ≡ false) × (result ≡ some refused))
unfolding elf_load_fd elf_validate_phdr
elf_load_fd-loaded junk junk_phdr junk_valid offset stack_ptr f f₁ h m l₁ l₂ head whole fit low
      high =
    let g = seek (offset + h.e_phoff) f₁ in
    let memsz = memsz_of stack_ptr in
    let m₀ : Machine = record m { mem = clear memsz m.mem } in
    let same = same_headers junk_valid offset (offset + h.e_phoff) h f₁ in
    let n = memsz_of-lem stack_ptr high low in
    let room : no_memory memsz ≡ false = ground arith in
    let run = load_loop h.e_phnum offset junk_phdr g m₀ in
    elim (Bool-cases (validate_loop h.e_phnum junk_valid g).0) [
      | inr e ↦ inr (e, rw (elf_load_fd, head, e) refl)
      | inl e ↦
          let (ok, mem, brk) =
            load_loop-Filled h.e_phnum offset junk_valid junk_phdr g m₀ l₂ l₁ whole e fit in
          inl (
            e,
            (
              run.1,
              rw (elf_load_fd, head, e, room, same) (ap (λ b. some (loading h (b, run.1))) ok),
              (λ x l.
                  mem x l ∙ ap (image h.e_phnum offset g x) (cleared stack_ptr m.mem x low high l)),
              brk,
            ),
          )
    ]
