-- ===== src/Elf/Args.antt =====
-- The arguments of a program: `setup_stack_args` and `elf_run` of system/elfload.c. The line is a C
-- string. Addresses are numbers: the stack lies far above 0.
use filestick.Base.{
  ℕ, zero, suc, ◌+◌, ◌-◌, ◌/◌, ◌%◌, ◌^◌, bit_and, Bool, true, false, not, Option, none, some, List,
  [], ◌∷◌, ◌++◌, map, ◌==◌, if◌then◌else◌, length, get_elem?, replicate,
}
use filestick.Base.Text.{codes, str_eq}
use filestick.Libc.Tokens.{split_args}
use filestick.Elf.{File, Machine, Loading, fill, elf_load_fd, refused, stopped, loaded}

abbrev pub user_sp : ℕ
user_sp = 0x21C00

abbrev pub flash_offset : ℕ
flash_offset = 0x30000

abbrev pub max_args : ℕ
max_args = 7

-- The bytes of words in memory, low byte first.
abbrev pub word_bytes : ℕ → List ℕ
word_bytes w = w % 256 ∷ w / 2 ^ 8 % 256 ∷ w / 2 ^ 16 % 256 ∷ w / 2 ^ 24 % 256 ∷ []

abbrev pub words_bytes : List ℕ → List ℕ
words_bytes [] = []
words_bytes (w ∷ ws) = word_bytes w ++ words_bytes ws

-- `argbytes`, a number of 16 bits: the size of the string with its NUL, up to a multiple of 16.
unfoldable pub arg_bytes : ℕ → ℕ
arg_bytes len =
    let n = (len + 1) % 2 ^ 16 in
    if bit_and n 0xFFF0 == n then n else (bit_and n 0xFFF0 + 16) % 2 ^ 16

-- `args`, which was cleared: pointers to the tokens at their indices in the copy of the line.
abbrev pub arg_pointers : ℕ → List ℕ → List ℕ
arg_pointers base idx = map (λ i. base + i) idx ++ replicate (max_args - length idx) 0

-- The new stack pointer, the memory, and the start of the copied line.
unfoldable pub setup_stack_args : List ℕ → ℕ → (ℕ → ℕ) → ℕ × (ℕ → ℕ) × ℕ
setup_stack_args unparsed_args sp mem =
    let argbytes = arg_bytes (length unparsed_args) in
    let base = sp - argbytes in
    let block = unparsed_args ++ replicate (argbytes - length unparsed_args) 0 in
    let (idx, tokens) = split_args max_args block in
    let mem₁ = fill base tokens mem in
    let mem₂ = fill (base - 28) (words_bytes (arg_pointers base idx)) mem₁ in
    (base - 28 - 4, fill (base - 28 - 4) (word_bytes (length idx)) mem₂, base)

-- The string at an address, as far as `room` bytes.
unfoldable pub string_at : ℕ → (ℕ → ℕ) → ℕ → List ℕ
string_at zero mem a = []
string_at (suc room) mem a =
    let rest = string_at room mem (a + 1) in if mem a == 0 then [] else mem a ∷ rest

-- What a start of a program comes to: it runs from an address with a stack, or it does not.
pub data Started : Type 0 where
  runs : ℕ → ℕ → Machine → Started
  not_run : Bool → Machine → Started

-- `SYS_open` is a parameter: the file of a name, or none. A file that is not there leaves the status
-- as it was, which is not set then: `garbage` is what it held. The status is true for 0.
module _ (sys_open : List ℕ → Machine → Option File) where
  abbrev pub start_of : ℕ → Machine → Option Loading → Option Started
  start_of sp m none = none
  start_of sp m (some refused) = some (not_run false m)
  start_of sp m (some (stopped m')) = some (not_run true m')
  start_of sp m (some (loaded entry m')) =
      some (if entry == 0 then not_run true m' else runs entry sp m')

  abbrev pub elf_load : List ℕ → List ℕ → List ℕ → Bool → List ℕ → ℕ → ℕ → Machine → Option Started
  elf_load junk junk_phdr junk_valid garbage filename offset sp m = elim (sys_open filename m) [
    | none ↦ some (not_run garbage m)
    | some f ↦ start_of sp m (elf_load_fd junk junk_phdr junk_valid offset sp f m)
  ]

  -- `elf_run`: the copy of a line that is not in kernel space is not visible outside, but needs
  -- memory: `room` is whether there is some.
  unfoldable pub elf_run :
      List ℕ → List ℕ → List ℕ → Bool → Bool → List ℕ → Machine → Option (Option Started)
  elf_run junk junk_phdr junk_valid garbage room args m =
      let (sp, mem, base) = setup_stack_args args user_sp m.mem in
      let filename = string_at (user_sp - base) mem base in
      if not room
      then some none
      else elim (elf_load junk junk_phdr junk_valid garbage filename 0 sp
          (record m { mem = mem })) [ none ↦ none | some s ↦ some (some s) ]

  -- `elf_boot`.
  unfoldable pub elf_boot : List ℕ → List ℕ → List ℕ → Bool → Machine → Option Started
  elf_boot junk junk_phdr junk_valid garbage m =
      elf_load junk junk_phdr junk_valid garbage (codes "/dev/spiflash") flash_offset user_sp m

  -- What `super_elf` comes to: a start, the usage, or no memory.
  pub data SuperElf : Type 0 where
    usage : SuperElf
    no_memory : SuperElf
    tried : Started → SuperElf

  abbrev pub tried_run : Option (Option Started) → Option SuperElf
  tried_run none = none
  tried_run (some none) = some no_memory
  tried_run (some (some s)) = some (tried s)

  abbrev pub tried_boot : Option Started → Option SuperElf
  tried_boot none = none
  tried_boot (some s) = some (tried s)

  -- `super_elf`: the command "boot", or a file to run.
  unfoldable pub super_elf :
      List ℕ → List ℕ → List ℕ → Bool → Bool → List (List ℕ) → Machine → Option SuperElf
  super_elf junk junk_phdr junk_valid garbage room [] m = none
  super_elf junk junk_phdr junk_valid garbage room (name ∷ args) m =
      let (sp, mem, base) = setup_stack_args (codes "init warm") user_sp m.mem in
      let boot =
        elf_load junk junk_phdr junk_valid garbage (codes "/dev/spiflash") flash_offset sp
          (record m { mem = mem }) in
      if str_eq name (codes "boot") then tried_boot boot else elim (get_elem? args 0) [
        | none ↦ some usage
        | some file ↦
            if length args == 1
            then tried_run (elf_run junk junk_phdr junk_valid garbage room file m)
            else some usage
      ]
