-- ===== src/Elf/Loaded.antt =====
-- What the loader promises of the memory and of its two passes.
use filestick.Base.{
  ℕ, zero, suc, ◌+◌, ◌-◌, ◌*◌, ◌/◌, ◌%◌, ◌^◌, ◌≤◌, ◌<◌, ◌≡◌, refl, sym, ap, ◌∙◌, ◌⊎◌, inl, inr,
  Bool, true, false, not, ◌&&◌, ◌||◌, some, List, arith, ltb, leb, if◌then◌else◌, Bool-cases,
  length, get_or, drop, length-take,
}
use filestick.Elf.{
  File, Ehdr, Phdr, Machine, Loading, refused, stopped, loaded, loading, usrmem_start, phdr_size,
  phdr_of, is_load, read_into, after, seek, chunk, clear, on_bus, memsz_of, no_memory,
  elf_read_ehdr, validate_loop, elf_validate_phdr, load_segment, load_loop, elf_load_fd,
}

-- Loading changes nothing below the start of user memory.
abbrev pub Keeps : Machine → Machine → Type 0
Keeps m m' = (a : ℕ) → a < usrmem_start → m'.mem a ≡ m.mem a

-- The segments that the loader finds in the next `n` headers end within the 24 bits of an address.
abbrev pub within : ℕ → List ℕ → File → Bool
within zero phdr f = true
within (suc n) phdr f =
    let bytes = read_into phdr_size phdr f in
    let p = phdr_of bytes in
    (not (is_load p) || leb (p.p_paddr + p.p_filesz) (2 ^ 24)) && within n bytes (after phdr_size f)

-- Writes that end within the address space.
pub on_bus-within :
    (at len : ℕ) (bytes mem : ℕ → ℕ) (x : ℕ)
    → at + len ≤ 2 ^ 24
    → x < 2 ^ 24
    → on_bus at len bytes mem x ≡ (if leb at x && ltb x (at + len) then bytes (x - at) else mem x)
on_bus-within at len bytes mem x h l =
    let i = (x % 2 ^ 24 + (2 ^ 24 - at % 2 ^ 24)) % 2 ^ 24 in
    elim (Bool-cases (leb at x && ltb x (at + len))) [
      | inl e ↦
          let low : at ≤ x = ground arith in
          let high : x < at + len = ground arith in
          let place : i ≡ x - at = omega arith in
          let there : ltb i len ≡ true = ground arith in
          let once : i + (len - 1 - i) / 2 ^ 24 * 2 ^ 24 ≡ x - at = omega arith in
          rw (e, there, once) refl
      | inr e ↦
          let out : (x < at) ⊎ (at + len ≤ x) = ground arith in
          let missed : ltb i len ≡ false = lt→false i len (outside i at len x h l refl out) in
          rw (e, missed) refl
    ]
  where
    outside :
        (i at len x : ℕ)
        → at + len ≤ 2 ^ 24
        → x < 2 ^ 24
        → i ≡ (x % 2 ^ 24 + (2 ^ 24 - at % 2 ^ 24)) % 2 ^ 24
        → (x < at) ⊎ (at + len ≤ x)
        → len ≤ i
    outside i at len x h l e (inl o) = omega arith
    outside i at len x h l e (inr o) = omega arith

    lt→false : (i len : ℕ) → len ≤ i → ltb i len ≡ false
    lt→false i len h = ground arith

length-chunk_le : (n : ℕ) (f : File) → length (chunk n f) ≤ n
length-chunk_le n f = omega (arith, length-take n (drop f.at f.contents))

load_segment-Keeps :
    (offset : ℕ) (p : Phdr) (f : File) (m : Machine)
    → usrmem_start ≤ p.p_paddr
    → p.p_paddr + p.p_filesz ≤ 2 ^ 24
    → Keeps m (load_segment offset p f m)
unfolding load_segment
load_segment-Keeps offset p f m low high a l =
    let bytes = chunk p.p_filesz (seek (offset + p.p_offset) f) in
    let short = length-chunk_le p.p_filesz (seek (offset + p.p_offset) f) in
    let out : (leb p.p_paddr a && ltb a (p.p_paddr + length bytes)) ≡ false = ground arith in
    on_bus-within p.p_paddr (length bytes) (λ i. get_or bytes i 0) m.mem a (omega arith)
      (omega arith)
    ∙ rw out refl

load_loop-Keeps :
    (n offset : ℕ) (phdr : List ℕ) (f : File) (m : Machine)
    → within n phdr f ≡ true
    → Keeps m (load_loop n offset phdr f m).1
unfolding load_loop
load_loop-Keeps zero offset phdr f m w a l = refl
load_loop-Keeps (suc n) offset phdr f m w a l =
    let bytes = read_into phdr_size phdr f in
    let p = phdr_of bytes in
    let f₁ = after phdr_size f in
    let fit : (not (is_load p) || leb (p.p_paddr + p.p_filesz) (2 ^ 24)) ≡ true = ground arith in
    let rest : within n bytes f₁ ≡ true = ground arith in
    elim (Bool-cases (is_load p)) [
      | inl q ↦ elim (Bool-cases (ltb p.p_paddr usrmem_start)) [
        | inl low ↦ rw (load_loop, q, low) refl
        | inr high ↦
            rw (load_loop, q, high)
              (load_loop-Keeps n offset bytes f₁ (load_segment offset p f₁ m) rest a l
                ∙ load_segment-Keeps offset p f₁ m (ground arith) (ground arith) a l)
      ]
      | inr q ↦ rw (load_loop, q) (load_loop-Keeps n offset bytes f₁ m rest a l)
    ]

-- The machine that a loading leaves, if memory was touched.
abbrev pub machine_of : Loading → Machine → Machine
machine_of refused m = m
machine_of (stopped m') m = m'
machine_of (loaded entry m') m = m'

pub validate_loop-contents :
    (n : ℕ) (phdr : List ℕ) (f : File) → (validate_loop n phdr f).1.contents ≡ f.contents
unfolding validate_loop
validate_loop-contents zero phdr f = refl
validate_loop-contents (suc n) phdr f =
    let bytes = read_into phdr_size phdr f in
    let rest = validate_loop-contents n bytes (after phdr_size f) in
    elim (Bool-cases (is_load (phdr_of bytes) && ltb (phdr_of bytes).p_paddr usrmem_start)) [
      | inl e ↦ rw (validate_loop, e) refl
      | inr e ↦ rw (validate_loop, e) rest
    ]

-- The two checks leave the file where the loop over its headers finds the same headers.
pub same_headers :
    (junk_valid : List ℕ) (offset at : ℕ) (h : Ehdr) (f : File)
    → seek at (elf_validate_phdr junk_valid offset h f).1 ≡ seek at f
unfolding elf_validate_phdr
same_headers junk_valid offset at h f =
    ap (λ c. record { contents = c; at = at % 2 ^ 32 })
      (validate_loop-contents h.e_phnum junk_valid (seek (offset + h.e_phoff) f))

pub memsz_of-lem :
    (stack_ptr : ℕ)
    → stack_ptr ≤ 2 ^ 24
    → usrmem_start < stack_ptr
    → (memsz_of stack_ptr ≡ stack_ptr - usrmem_start)
memsz_of-lem stack_ptr h l = omega arith

clear-Keeps :
    (stack_ptr : ℕ) (m : Machine)
    → stack_ptr ≤ 2 ^ 24
    → no_memory (memsz_of stack_ptr) ≡ false
    → Keeps m (record m { mem = clear (memsz_of stack_ptr) m.mem })
clear-Keeps stack_ptr m h some_memory a l =
    let memsz = memsz_of stack_ptr in
    let positive : usrmem_start < stack_ptr = ground arith in
    let n = memsz_of-lem stack_ptr h positive in
    let out : (leb usrmem_start a && ltb a (usrmem_start + memsz)) ≡ false = ground arith in
    on_bus-within usrmem_start memsz (λ _. 0) m.mem a (omega arith) (omega arith) ∙ rw out refl

-- Where no segment of a program reaches past the 24 bits of the core's addresses, and the stack
-- neither, loading it changes no byte of memory below the start of user memory, where the kernel
-- lies, whatever else the file holds and whatever the structures on the stack held. The segments are
-- those that the loader finds, a header that is not whole being filled up by the one before.
pub elf_load_fd-Keeps :
    (junk junk_phdr junk_valid : List ℕ) (offset stack_ptr : ℕ) (f : File) (m : Machine)
    {out : Loading}
    → stack_ptr ≤ 2 ^ 24
    → let (ok, h, f₁) = elf_read_ehdr junk offset f in
      within h.e_phnum junk_phdr (seek (offset + h.e_phoff) f₁) ≡ true
      → elf_load_fd junk junk_phdr junk_valid offset stack_ptr f m ≡ some out
      → Keeps m (machine_of out m)
unfolding elf_load_fd
elf_load_fd-Keeps junk junk_phdr junk_valid offset stack_ptr f m {out} top inside h =
    let (ok, e, f₁) = elf_read_ehdr junk offset f in
    let (valid, f₂) = elf_validate_phdr junk_valid offset e f₁ in
    let m₁ : Machine = record m { mem = clear (memsz_of stack_ptr) m.mem } in
    let run = load_loop e.e_phnum offset junk_phdr (seek (offset + e.e_phoff) f₂) m₁ in
    let same = same_headers junk_valid offset (offset + e.e_phoff) e f₁ in
    elim (Bool-cases ok) [
      | inr b ↦ ends refused (ground arith) (λ a l. refl)
      | inl b ↦ elim (Bool-cases valid) [
        | inr c ↦ ends refused (ground arith) (λ a l. refl)
        | inl c ↦ elim (Bool-cases (no_memory (memsz_of stack_ptr))) [
          | inl d ↦ λ a l. absurd (ground arith)
          | inr d ↦ ends (loading e run) (rw (elf_load_fd, b, c, d) at h) (λ a l.
              ran e run m a l
              ∙ load_loop-Keeps e.e_phnum offset junk_phdr (seek (offset + e.e_phoff) f₂) m₁
                  (ap (within e.e_phnum junk_phdr) same ∙ inside) a l
              ∙ clear-Keeps stack_ptr m top d a l)
        ]
      ]
    ]
  where
    ends : (r : Loading) → some r ≡ some out → Keeps m (machine_of r m) → Keeps m (machine_of out m)
    ends r q keeps a l =
        let same : r ≡ out = ground arith in ap (λ x. (machine_of x m).mem a) (sym same) ∙ keeps a l

    ran :
        (e : Ehdr) (run : Bool × Machine) (m : Machine) (a : ℕ)
        → a < usrmem_start
        → (machine_of (loading e run) m).mem a ≡ run.1.mem a
    ran e (false, m') m a l = refl
    ran e (true, m') m a l = refl
