-- ===== src/Elf.antt =====
-- system/elfload.c: the loader of programs. A file is its bytes and a position, and a read gives
-- the bytes that are left, at most as many as asked for; what a short read leaves in a structure is
-- what was there. Memory is a function of the address. `none` is a break into the debugger.
pub mod Loaded
pub mod Chunks
pub mod Image
pub mod Complete
pub mod Args
pub mod Stack
mod Tests
use filestick.Base.{
  ℕ, zero, suc, ◌+◌, ◌-◌, ◌*◌, ◌/◌, ◌%◌, ◌^◌, ◌≤◌, ◌<◌, min, max, bit_and, bit_or, bit_xor, ◌≡◌,
  refl, sym, ap, ap₂, ◌∙◌, fun_ext, ◌≢◌, ◌↔◌, ◌⊎◌, inl, inr, Bool, true, false, not, ◌&&◌, ◌||◌,
  Option, none, some, List, [], ◌∷◌, ◌++◌, map, append-nil, append_assoc, arith, ltb, leb, ◌==◌,
  if◌then◌else◌, ltb→lt, lt→ltb, leb→le, ==_iff, tests, Bool-cases, Option-cases, length, get_elem?,
  get_elem?-lt, get_elem?_of_lt, get_elem?-none, set, length-append, length-set, get_elem?-set_self,
  get_elem?-set_ne, get_or, take, drop, replicate, take-set_end, take-set_ge, take-take, take_all,
  take-append_self, take-append-take, take-append_left, drop-append_left, drop-append_self,
  drop-drop, take-append-drop, length-take, length-drop, length-replicate, length-map, Errno,
  enoent, eio, enoexec, ebadf, enomem, eexist, einval, enfile, emfile, espipe, erofs, emsgsize,
  edestaddrreq, ehostunreach, etimedout, efatfs, Ret, val, err,
}
use filestick.Memory.{Brk, set_min_brk}

abbrev pub usrmem_start : ℕ
usrmem_start = 0x10000

abbrev pub elf_magic : ℕ
elf_magic = 0x464c457f

-- The sizes of `Elf32_Ehdr` and `Elf32_Phdr`.
abbrev pub ehdr_size : ℕ
ehdr_size = 52

abbrev pub phdr_size : ℕ
phdr_size = 32

abbrev pub le16 : List ℕ → ℕ → ℕ
le16 bytes i = get_or bytes i 0 + get_or bytes (i + 1) 0 * 2 ^ 8

abbrev pub le32 : List ℕ → ℕ → ℕ
le32 bytes i = le16 bytes i + le16 bytes (i + 2) * 2 ^ 16

pub record File : Type 0 where
  pub contents : List ℕ
  pub at : ℕ

abbrev pub seek : ℕ → File → File
seek at f = record f { at = at % 2 ^ 32 }

-- The bytes that a read of `n` gives, and the file after it.
abbrev pub chunk : ℕ → File → List ℕ
chunk n f = take n (drop f.at f.contents)

abbrev pub after : ℕ → File → File
after n f = record f { at = f.at + length (chunk n f) }

-- A structure of `n` bytes that was `old`, after a read into it.
abbrev pub read_into : ℕ → List ℕ → File → List ℕ
read_into n old f = chunk n f ++ drop (length (chunk n f)) old

-- The members of the headers that are used.
pub record Ehdr : Type 0 where
  pub e_entry : ℕ
  pub e_phoff : ℕ
  pub e_phnum : ℕ

pub record Phdr : Type 0 where
  pub p_type : ℕ
  pub p_offset : ℕ
  pub p_paddr : ℕ
  pub p_filesz : ℕ
  pub p_memsz : ℕ

abbrev pub ehdr_of : List ℕ → Ehdr
ehdr_of bytes = record { e_entry = le32 bytes 24; e_phoff = le32 bytes 28; e_phnum = le16 bytes 44 }

abbrev pub phdr_of : List ℕ → Phdr
phdr_of bytes = record {
  p_type = le32 bytes 0;
  p_offset = le32 bytes 4;
  p_paddr = le32 bytes 12;
  p_filesz = le32 bytes 16;
  p_memsz = le32 bytes 20;
}

abbrev pub is_load : Phdr → Bool
is_load p = p.p_type == 1

-- `elf_read_ehdr`: the magic number, 32 bits, little endian, RISC-V, an executable. The result is
-- whether the status is 0 (else ENOEXEC), and the header.
unfoldable pub elf_read_ehdr : List ℕ → ℕ → File → Bool × Ehdr × File
elf_read_ehdr junk offset f =
    let f₁ = seek offset f in
    let bytes = read_into ehdr_size junk f₁ in
    (
      le32 bytes 0 == elf_magic
          && get_or bytes 4 0 == 1
          && get_or bytes 5 0 == 1
          && le16 bytes 18 == 243
          && le16 bytes 16 == 2,
      ehdr_of bytes,
      after ehdr_size f₁,
    )

-- The loop of `elf_validate_phdr`; `phdr` is what the structure held.
unfoldable pub validate_loop : ℕ → List ℕ → File → Bool × File
validate_loop zero phdr f = (true, f)
validate_loop (suc n) phdr f =
    let bytes = read_into phdr_size phdr f in
    let rest = validate_loop n bytes (after phdr_size f) in
    if is_load (phdr_of bytes) && ltb (phdr_of bytes).p_paddr usrmem_start
    then (false, after phdr_size f)
    else rest

unfoldable pub elf_validate_phdr : List ℕ → ℕ → Ehdr → File → Bool × File
elf_validate_phdr junk offset h f = validate_loop h.e_phnum junk (seek (offset + h.e_phoff) f)

-- Memory, and the program break.
pub record Machine : Type 0 where
  pub mem : ℕ → ℕ
  pub brk : Brk

-- Writes of `len` bytes from an address on, where the core has 24 address bits: a byte goes to the
-- address modulo 2 ^ 24, and of two at the same place the later one stays.
abbrev pub on_bus : ℕ → ℕ → (ℕ → ℕ) → (ℕ → ℕ) → ℕ → ℕ
on_bus at len bytes mem a =
    let i = (a % 2 ^ 24 + (2 ^ 24 - at % 2 ^ 24)) % 2 ^ 24 in
    if ltb i len then bytes (i + (len - 1 - i) / 2 ^ 24 * 2 ^ 24) else mem a

-- `memset(USRMEM_START, 0, memsz)`
abbrev pub clear : ℕ → (ℕ → ℕ) → ℕ → ℕ
clear memsz mem = on_bus usrmem_start memsz (λ _. 0) mem

-- Bytes in memory below the end of the address space.
abbrev pub fill : ℕ → List ℕ → (ℕ → ℕ) → ℕ → ℕ
fill at bytes mem a =
    if leb at a && ltb a (at + length bytes) then get_or bytes (a - at) 0 else mem a

-- One segment: its bytes, and the break after its memory. The position is as before.
unfoldable pub load_segment : ℕ → Phdr → File → Machine → Machine
load_segment offset p f m =
    let bytes = chunk p.p_filesz (seek (offset + p.p_offset) f) in
    record {
      mem = on_bus p.p_paddr (length bytes) (λ i. get_or bytes i 0) m.mem;
      brk = set_min_brk ((p.p_paddr + p.p_memsz) % 2 ^ 32) m.brk;
    }

-- The loop over the program headers: false where the second check of an address fails.
unfoldable pub load_loop : ℕ → ℕ → List ℕ → File → Machine → Bool × Machine
load_loop zero offset phdr f m = (true, m)
load_loop (suc n) offset phdr f m =
    let bytes = read_into phdr_size phdr f in
    let p = phdr_of bytes in
    let f₁ = after phdr_size f in
    let rest = load_loop n offset bytes f₁ (if is_load p then load_segment offset p f₁ m else m) in
    if is_load p && ltb p.p_paddr usrmem_start then (false, m) else rest

-- What the loader returns: the status and the start address.
pub data Loading : Type 0 where
  refused : Loading
  stopped : Machine → Loading
  loaded : ℕ → Machine → Loading

abbrev pub loading : Ehdr → Bool × Machine → Loading
loading h (false, m) = stopped m
loading h (true, m) = loaded h.e_entry m

-- `memsz`, which has 32 bits, and whether it is less than 1 as a signed number.
abbrev pub memsz_of : ℕ → ℕ
memsz_of stack_ptr = (stack_ptr + (2 ^ 32 - usrmem_start)) % 2 ^ 32

abbrev pub no_memory : ℕ → Bool
no_memory memsz = memsz == 0 || leb (2 ^ 31) memsz

-- `elf_load_fd`: `refused` is 0 with status ENOEXEC, `stopped` 0 with status 0, `loaded` the entry.
-- `junk` is what the structures on the stack held: this function's two, and that of
-- `elf_validate_phdr`.
unfoldable pub elf_load_fd : List ℕ → List ℕ → List ℕ → ℕ → ℕ → File → Machine → Option Loading
elf_load_fd junk junk_phdr junk_valid offset stack_ptr f m =
    let (ok, h, f₁) = elf_read_ehdr junk offset f in
    let (valid, f₂) = elf_validate_phdr junk_valid offset h f₁ in
    let memsz = memsz_of stack_ptr in
    if not ok
    then some refused
    else if not valid
    then some refused
    else if no_memory memsz
    then none
    else some (
        loading h (
          load_loop h.e_phnum offset junk_phdr (seek (offset + h.e_phoff) f₂)
            (record m { mem = clear memsz m.mem })))
