-- ===== src/Elf/Tests.antt =====
-- A test of the loader: a program of one segment of two bytes at 0x10000.
use filestick.Base.{
  ◌<◌, ◌^◌, ◌&&◌, ◌⊎◌, leb, ltb, true, false, ℕ, ◌+◌, ◌/◌, ◌%◌, ◌≡◌, refl, some, List, [], ◌∷◌,
  ◌++◌, arith, replicate, if◌then◌else◌,
}
use filestick.Memory.{set_min_brk}
use filestick.Elf.Image.{image, break_after}
use filestick.Elf.{
  Phdr, seek, usrmem_start, Ehdr, after, ehdr_size, refused, File, Machine, loaded, elf_load_fd,
  elf_read_ehdr, elf_validate_phdr, validate_loop, load_loop, load_segment,
}
use filestick.Elf.Complete.{elf_load_fd-loaded}
use filestick.Elf.Loaded.{within, Keeps, machine_of, elf_load_fd-Keeps}

-- A word in memory, low byte first, below 65536.
abbrev half : ℕ → List ℕ
half n = n % 256 ∷ n / 256 ∷ []

abbrev whole : ℕ → List ℕ
whole n = half (n % 65536) ++ half (n / 65536)

abbrev program : File
program = record {
  contents =
      (0x7f ∷ 0x45 ∷ 0x4c ∷ 0x46 ∷ 1 ∷ 1 ∷ replicate 10 0)
      ++ (half 2
          ++ (half 243
              ++ (whole 1
                  ++ (whole 0x10000
                      ++ (whole 52
                          ++ (replicate 12 0
                              ++ (half 1
                                  ++ (replicate 6 0
                                      ++ (whole 1
                                          ++ (whole 84
                                              ++ (whole 0x10000
                                                  ++ (whole 0x10000
                                                      ++ (whole 2
                                                          ++ (whole 16
                                                            ++ (replicate 8 0
                                                            ++ (7 ∷ 9 ∷ []))))))))))))))));
  at = 0;
}

abbrev before : Machine
before = record { mem = λ a. 5; brk = record { program_brk = 0x10000; min_brk = 0x10000 } }

runs :
    (m : Machine) × (elf_load_fd
        (replicate 52 0)
        (replicate 32 0)
        (replicate 32 0)
        0
        0x21C00
        program
        before
      ≡ some (loaded 0x10000 m))
unfolding elf_load_fd elf_read_ehdr elf_validate_phdr validate_loop load_loop load_segment
    set_min_brk
runs = (_, refl)

second_byte : (runs.0.mem 0x10001 ≡ 9) × (runs.0.brk.min_brk ≡ 0x10010)
unfolding runs set_min_brk
second_byte = (refl, refl)

inside :
    let (ok, h, f₁) = elf_read_ehdr (replicate 52 0) 0 program in
    within h.e_phnum (replicate 32 0) (seek (0 + h.e_phoff) f₁) ≡ true
unfolding elf_read_ehdr
inside = refl

-- A segment at the end of the 24 bits of an address reaches the start of memory.
abbrev beyond : Phdr
beyond = record { p_type = 1; p_offset = 84; p_paddr = 0x01000000; p_filesz = 2; p_memsz = 2 }

overwrites_kernel : (load_segment 0 beyond program before).mem 1 ≡ 9
unfolding load_segment
overwrites_kernel = refl

elf_load_fd-Keeps_example : Keeps before (machine_of (loaded 0x10000 runs.0) before)
elf_load_fd-Keeps_example =
    elf_load_fd-Keeps (replicate 52 0) (replicate 32 0) (replicate 32 0) 0 0x21C00 program before
      (omega arith) inside runs.1

-- The program's header, as read.
abbrev header : Ehdr
header = record { e_entry = 0x10000; e_phoff = 52; e_phnum = 1 }

elf_load_fd-loaded_example :
    let g = seek (0 + 52) (after ehdr_size program) in
    let (valid, _) = elf_validate_phdr (replicate 32 0) 0 header (after ehdr_size program) in
    let result =
      elf_load_fd (replicate 52 0) (replicate 32 0) (replicate 32 0) 0 0x21C00 program before in
    ((valid ≡ true)
      × ((m' : Machine) × (result ≡ some (loaded 0x10000 m'))
          × ((x : ℕ)
              → x < 2 ^ 24
              → m'.mem x
                ≡ image 1 0 g x (if leb usrmem_start x && ltb x 0x21C00 then 0 else before.mem x))
          × (m'.brk ≡ break_after 1 g before.brk)))
    ⊎ ((valid ≡ false) × (result ≡ some refused))
unfolding elf_read_ehdr
elf_load_fd-loaded_example =
    elf_load_fd-loaded (replicate 52 0) (replicate 32 0) (replicate 32 0) 0 0x21C00 program
      (after ehdr_size program) header before refl refl refl (omega arith) refl (omega arith)
      (omega arith)
