-- ===== src/SpiFlash.antt =====
-- system/spi_flashdev.c, with `flash_memcpy` of system/spi_flash.S: the SPI flash as a device.
-- Writes go through a buffer of one erase sector. The chip is hardware (`Chip`); the kernel's
-- allocator (system/kmalloc.c over the TLSF library) is a parameter: `kmalloc` succeeds or fails,
-- `kfree` gives back. Numbers are `uint32_t`; `none` is a fault.
pub mod Chip
pub mod Sector
pub mod View
pub mod Files
pub mod Splice
pub mod Write
pub mod Contents
pub mod Stream
pub mod ReadBack
mod Tests
use filestick.Base.{
  ℕ, zero, suc, ◌+◌, ◌-◌, ◌*◌, ◌/◌, ◌%◌, ◌^◌, ◌≤◌, ◌<◌, min, max, bit_and, bit_or, bit_xor, ◌≡◌,
  refl, sym, ap, ap₂, ◌∙◌, fun_ext, ◌≢◌, ◌↔◌, ◌⊎◌, inl, inr, Bool, true, false, not, ◌&&◌, ◌||◌,
  Option, none, some, List, [], ◌∷◌, ◌++◌, map, append-nil, append_assoc, arith, ltb, leb, ◌==◌,
  if◌then◌else◌, ltb→lt, lt→ltb, leb→le, ==_iff, tests, Bool-cases, Option-cases, length, get_elem?,
  get_elem?-lt, get_elem?_of_lt, get_elem?-none, set, length-append, length-set, get_elem?-set_self,
  get_elem?-set_ne, get_or, take, drop, replicate, take-set_end, take-set_ge, take-take, take_all,
  take-append_self, take-append-take, take-append_left, drop-append_left, drop-append_self,
  drop-drop, take-append-drop, length-take, length-drop, length-replicate, length-map, Errno,
  enoent, eio, enoexec, ebadf, enomem, eexist, einval, enfile, emfile, espipe, erofs, emsgsize,
  edestaddrreq, ehostunreach, etimedout, efatfs, Ret, val, err,
}
use filestick.Base.Int.{ℤ, pos, negsuc, ◌+ℤ◌}
use filestick.SpiFlash.Chip.{FlashChip, cells}

abbrev pub max_flash_fds : ℕ
max_flash_fds = 4

abbrev pub write_sector_size : ℕ
write_sector_size = 4096

abbrev pub page_size : ℕ
page_size = 256

abbrev pub u32 : ℕ → ℕ
u32 n = n % 2 ^ 32

pub record OpenFd : Type 0 where
  pub fd : ℕ
  pub fileptr : ℕ

-- `get_fd(fd)`: the first slot of that number. A free slot has the number 0.
unfoldable pub find_fd : ℕ → List OpenFd → Option ℕ
find_fd fd [] = none
find_fd fd (o ∷ os) =
    if o.fd == fd then some 0 else elim (find_fd fd os) [ none ↦ none | some i ↦ some (suc i) ]

-- `new_fd(fd)`
unfoldable pub new_fd : ℕ → List OpenFd → Option (List OpenFd)
new_fd fd os = elim (find_fd 0 os) [
  | none ↦ none
  | some i ↦ some (set os i (record { fd = fd; fileptr = 0 }))
]

-- The driver's variables, the chip and the allocator's state.
pub record Flash (C H : Type 0) : Type 0 where
  pub fd_list : List OpenFd
  pub writebuf : Option (List ℕ)
  pub write_blk_offset : ℕ
  pub write_blk_end : ℕ
  pub chip : C
  pub heap : H

abbrev pub closed_fd : OpenFd
closed_fd = record { fd = 0; fileptr = 0 }

-- A copy of `bytes` into the buffer at `at`; none if it runs past the end.
unfoldable pub memcpy_at : List ℕ → ℕ → List ℕ → Option (List ℕ)
memcpy_at buf at bytes =
    if leb (at + length bytes) (length buf)
    then some (take at buf ++ (bytes ++ drop (at + length bytes) buf))
    else none

module _ {H : Type 0} (fc : FlashChip) (kmalloc : ℕ → H → Option H) (kfree : H → H) where
  open fc use {Chip, send, busy}

  abbrev pub State : Type 0
  State = Flash Chip H

  -- `spiflash_init`
  unfoldable pub spiflash_init : State → State
  spiflash_init s = record s { fd_list = replicate max_flash_fds closed_fd }

  -- The polling of the status register: the bytes that are sent until it reads ready.
  abbrev pub wait_ready : Chip → Chip
  wait_ready c = send (0x05 ∷ replicate (busy c + 1) 0xFF) c

  -- The three address bytes of a command.
  abbrev pub command : ℕ → ℕ → List ℕ → List ℕ
  command cmd addr bytes = cmd ∷ addr / 2 ^ 16 % 256 ∷ addr / 2 ^ 8 % 256 ∷ addr % 256 ∷ bytes

  unfoldable pub erase_sector : ℕ → Chip → Chip
  erase_sector addr c = wait_ready (send (command 0x20 addr []) (send (0x06 ∷ []) c))

  unfoldable pub program_page : ℕ → List ℕ → Chip → Chip
  program_page addr page c = wait_ready (send (command 0x02 addr page) (send (0x06 ∷ []) c))

  -- The loop over the pages; `buf` is what `pageptr` points to.
  unfoldable pub program_pages : ℕ → ℕ → List ℕ → Chip → Chip
  program_pages zero addr buf c = c
  program_pages (suc n) addr buf c =
      program_pages n (addr + page_size) (drop page_size buf)
        (program_page addr (take page_size buf) c)

  -- `spiflash_writebuffer`, for the buffer that `writebuf` points to.
  unfoldable pub spiflash_writebuffer : List ℕ → State → State
  spiflash_writebuffer buf s = record s {
    chip = program_pages 16 s.write_blk_offset buf (erase_sector s.write_blk_offset s.chip);
    write_blk_offset = 0;
    heap = kfree s.heap;
    writebuf = none;
  }

  unfoldable pub spiflash_sync : State → State
  spiflash_sync s = elim s.writebuf [ none ↦ s | some buf ↦ spiflash_writebuffer buf s ]

  -- `flash_memcpy` copies words until a count that starts at `size / 4` comes down to 0, so it
  -- never ends properly for fewer than four bytes.
  unfoldable pub flash_memcpy : ℕ → ℕ → Chip → Option (List ℕ)
  flash_memcpy addr size c = if ltb size 4 then none else some (cells fc c addr size)

  -- `fileptr & WRITE_OFFSET_MASK`, and the rest.
  abbrev pub sector_of : ℕ → ℕ
  sector_of ptr = ptr / 4096 * 4096

  -- The buffer is allocated before anything else.
  unfoldable pub spiflash_load_sector : ℕ → State → Option (Ret × State)
  spiflash_load_sector fileptr s = elim (kmalloc write_sector_size s.heap) [
    | none ↦ some (err enomem, record s { writebuf = none })
    | some heap ↦ elim (flash_memcpy (sector_of fileptr) write_sector_size s.chip) [
      | none ↦ none
      | some buf ↦ some (
        val 0,
        record s {
          heap = heap;
          writebuf = some buf;
          write_blk_offset = sector_of fileptr;
          write_blk_end = u32 (sector_of fileptr + write_sector_size);
        },
      )
    ]
  ]
