-- ===== src/SpiFlash/Tests.antt =====
-- Tests of the SPI flash: a chip as a function of the address, which is always ready, and a sector
-- that was changed in the buffer.
use filestick.Base.{
  ℕ, ◌+◌, ◌-◌, ◌*◌, ◌/◌, ◌%◌, ◌≤◌, ◌<◌, ◌≡◌, refl, ◌≢◌, ◌⊎◌, true, Option, none, some, List, [],
  ◌∷◌, arith, ◌==◌, if◌then◌else◌, get_or, replicate, val,
}
use filestick.SpiFlash.Chip.{FlashChip}
use filestick.SpiFlash.{State, OpenFd, find_fd, spiflash_sync}
use filestick.SpiFlash.Files.{spiflash_write, spiflash_lseek, spiflash_read}
use filestick.SpiFlash.Stream.{Streamed, spiflash_write-Streamed}
use filestick.SpiFlash.ReadBack.{spiflash_read-spiflash_write}
use filestick.Base.Int.{pos}
use filestick.SpiFlash.View.{IsFlash, IsSector, view, spiflash_sync-view}

abbrev Cells : Type 0
Cells = ℕ → ℕ

abbrev erase_cells : ℕ → Cells → Cells
erase_cells addr c a = if a / 4096 == addr / 4096 then 0xFF else c a

abbrev program_cells : ℕ → List ℕ → Cells → Cells
program_cells addr page c a = if a / 256 == addr then get_or page (a % 256) 0xFF else c a

-- A command by its first byte: 0x20 erases, 0x02 programs, and the others change no cell.
abbrev command_cells : List ℕ → Cells → Cells
command_cells (cmd ∷ a₂ ∷ a₁ ∷ a₀ ∷ page) c =
    if cmd == 0x20
    then erase_cells (a₂ * 65536 + a₁ * 256 + a₀) c
    else if cmd == 0x02
    then program_cells (a₂ * 256 + a₁) page c
    else c
command_cells _ c = c

programs_in :
    (addr a : ℕ) (page : List ℕ) (c : Cells)
    → a / 256 ≡ addr
    → program_cells addr page c a ≡ get_or page (a % 256) 0xFF
programs_in addr a page c p = ground arith

programs_out :
    (addr a : ℕ) (page : List ℕ) (c : Cells) → a / 256 ≢ addr → program_cells addr page c a ≡ c a
programs_out addr a page c p = ground arith

abbrev ram_chip : FlashChip
ram_chip = record {
  Chip = Cells;
  cell = λ c a. c a;
  send = command_cells;
  busy = λ c. 0;
  ready = λ c. true;
  poll_ready = λ c. refl;
  poll_cell = λ c a. refl;
  erase_cell = λ c a₂ a₁ a₀ a r. refl;
  program_in = λ c a₂ a₁ a a₀ page r len z p e. programs_in (a₂ * 256 + a₁) a page c p;
  program_out = λ c a₂ a₁ a a₀ page r len z p. programs_out (a₂ * 256 + a₁) a page c p;
}

-- The allocator counts the buffers that are given out.
abbrev count_malloc : ℕ → ℕ → Option ℕ
count_malloc n h = some (h + 1)

abbrev count_free : ℕ → ℕ
count_free h = h - 1

abbrev idle_flash : State ram_chip count_malloc count_free
idle_flash = record {
  fd_list = record { fd = 3; fileptr = 0x40010 } ∷ [];
  writebuf = none;
  write_blk_offset = 0;
  write_blk_end = 0;
  chip = λ a. a % 256;
  heap = 0;
}

abbrev zeros : List ℕ
zeros = replicate 4096 0

abbrev dirty_flash : State ram_chip count_malloc count_free
dirty_flash = record idle_flash {
  writebuf = some zeros;
  write_blk_offset = 0x40000;
  write_blk_end = 0x41000;
  heap = 1;
}

zeros-IsSector : IsSector ram_chip count_malloc count_free dirty_flash zeros
zeros-IsSector = record { whole = refl; aligned = refl; on_chip = omega arith; block_end = refl }

dirty_flash-IsFlash : IsFlash ram_chip count_malloc count_free dirty_flash
dirty_flash-IsFlash = record {
  is_ready = refl;
  sector = λ b h. let e : zeros ≡ b = ground arith in rw (← e) zeros-IsSector;
}

idle_flash-IsFlash : IsFlash ram_chip count_malloc count_free idle_flash
idle_flash-IsFlash = record { is_ready = refl; sector = λ b h. absurd (ground arith) }

spiflash_sync-view_example :
    let s' = spiflash_sync ram_chip count_malloc count_free dirty_flash in
    (s'.writebuf ≡ none)
    × IsFlash ram_chip count_malloc count_free s'
    × (view ram_chip count_malloc count_free s' 0x40010
        ≡ view ram_chip count_malloc count_free dirty_flash 0x40010)
    × (s'.chip 0x40010 ≡ view ram_chip count_malloc count_free dirty_flash 0x40010)
spiflash_sync-view_example =
    spiflash_sync-view ram_chip count_malloc count_free dirty_flash 0x40010 dirty_flash-IsFlash

-- The descriptor of `idle_flash`, and a write that crosses a sector's end.
abbrev near_end : OpenFd
near_end = record { fd = 3; fileptr = 0x40FFD }

abbrev open_flash : State ram_chip count_malloc count_free
open_flash = record idle_flash { fd_list = near_end ∷ [] }

open_flash-IsFlash : IsFlash ram_chip count_malloc count_free open_flash
open_flash-IsFlash = record { is_ready = refl; sector = λ b h. absurd (ground arith) }

abbrev five_bytes : List ℕ
five_bytes = 1 ∷ 2 ∷ 3 ∷ 4 ∷ 5 ∷ []

spiflash_write-Streamed_example :
    (s' : State ram_chip count_malloc count_free) × (spiflash_write ram_chip count_malloc count_free
        3 five_bytes open_flash
      ≡ some (val 5, s'))
    × Streamed ram_chip count_malloc count_free 0 near_end five_bytes open_flash s'
unfolding find_fd
spiflash_write-Streamed_example =
    spiflash_write-Streamed ram_chip count_malloc count_free 3 0 near_end five_bytes open_flash
      open_flash-IsFlash refl refl (omega arith) (omega arith) (λ h. (h + 1, refl))

spiflash_read-spiflash_write_example :
    (s₁ : State ram_chip count_malloc count_free) × (s₂ : State ram_chip count_malloc count_free)
    × (s₃ : State ram_chip count_malloc count_free) × (spiflash_write ram_chip count_malloc
          count_free 3 five_bytes open_flash
        ≡ some (val 5, s₁))
    × (spiflash_lseek ram_chip count_malloc count_free 3 (pos 0x40FFD) 0 s₁ ≡ (val 0x40FFD, s₂))
    × (spiflash_read ram_chip count_malloc count_free 3 5 s₂ ≡ some (val 5, five_bytes, s₃))
    × ((a : ℕ)
        → (a < 0x40FFD) ⊎ (0x41002 ≤ a)
        → view ram_chip count_malloc count_free s₃ a
          ≡ view ram_chip count_malloc count_free open_flash a)
unfolding find_fd
spiflash_read-spiflash_write_example =
    spiflash_read-spiflash_write ram_chip count_malloc count_free 3 0 near_end five_bytes open_flash
      open_flash-IsFlash refl refl (omega arith) (omega arith) (λ h. (h + 1, refl))
