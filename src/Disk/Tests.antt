-- ===== src/Disk/Tests.antt =====
-- Tests of the block devices: a card whose answers are a list, and a flash whose driver fails.
use filestick.Base.{
  ℕ, ◌+◌, ◌≡◌, refl, none, some, List, [], ◌∷◌, ◌++◌, take, drop, replicate, eio, val, err,
}
use filestick.Base.Int.{pos}
use filestick.Fd.{FdFunction, Kernel, sys_read, sys_write, sys_lseek}
use filestick.Fd.Table.{flag_allocated}
use filestick.Disk.{Sd, sd_read}
use filestick.Disk.Card.{Bus}
use filestick.Disk.Sectors.{Ends, sd_read-Ends}
use filestick.Disk.Drives.{Drives}
use filestick.Disk.Flash.{FlashDisc}

abbrev next_byte : List ℕ → ℕ × List ℕ
next_byte [] = (0xFF, [])
next_byte (b ∷ w) = (b, w)

abbrev card : Bus
card = record {
  Wire = List ℕ;
  select = λ w. w;
  spi_byte = λ b w. next_byte w;
  spi_write = λ bytes w. w;
  spi_read = λ n w. (take n w, drop n w);
}

-- The answers to the reading of one sector of zeros.
abbrev one_sector : List ℕ
one_sector = 0 ∷ 0xFE ∷ (replicate 512 0 ++ (1 ∷ 2 ∷ []))

-- Two sectors behind the end of another partition.
abbrev second_part : Sd card
second_part = record {
  lba_offset = 7;
  lba_sectors = 100;
  sd_status = 0;
  wire = one_sector ++ one_sector;
}

sd_read-Ends_example :
    let (r, bytes, s') = sd_read card 0 2 second_part in
    (k : ℕ) × Ends card 7 2 second_part.wire (r, bytes, s'.wire) k
    × (s' ≡ record second_part { wire = s'.wire })
sd_read-Ends_example = sd_read-Ends card 0 2 second_part

abbrev sd : Sd card
sd = record { lba_offset = 63; lba_sectors = 100; sd_status = 0; wire = 0 ∷ 5 ∷ 1 ∷ [] }

-- A driver that seeks, and neither reads nor writes.
abbrev failing : ℕ → FdFunction ℕ
failing d = record {
  fd_read = some (λ fd count s. some (err eio, 1 ∷ [], s));
  fd_write = some (λ fd bytes s. some (err eio, s));
  fd_lseek = some (λ fd offset whence s. some (val 0x40200, s + 1));
  fd_fstat = none;
  fd_close = none;
  fd_ioctl = none;
  fd_peek = none;
}

abbrev flash_kernel : ℕ → Kernel ℕ ℕ
flash_kernel n = record {
  fdtable = record { flags = flag_allocated; fdfunc = some 0; priv = 0; fd = 0 } ∷ [];
  dev = n;
}

abbrev flash_disc : ℕ → FlashDisc failing
flash_disc n = record { flash_fd = some 0; kernel = flash_kernel n }

seeks :
    sys_lseek failing (pos 0) (pos 0x40200) 0 (flash_kernel 0) ≡ some (val 0x40200, flash_kernel 1)
unfolding sys_lseek
seeks = refl

fails_to_read :
    sys_read failing (pos 0) 512 (flash_kernel 1) ≡ some (err eio, 1 ∷ [], flash_kernel 1)
unfolding sys_read
fails_to_read = refl

fails_to_write : sys_write failing (pos 0) [] (flash_kernel 1) ≡ some (err eio, flash_kernel 1)
unfolding sys_write
fails_to_write = refl

abbrev drives : Drives failing card
drives = record { flash = flash_disc 0; card = sd }
