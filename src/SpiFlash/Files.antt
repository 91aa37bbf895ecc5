-- ===== src/SpiFlash/Files.antt =====
-- The device's functions in system/spi_flashdev.c: open, read, write, seek, stat and close. `none`
-- is a fault or a loop without end.
use filestick.Base.{
  ℕ, zero, suc, ◌+◌, ◌-◌, ◌%◌, ◌^◌, bit_or, ◌||◌, Option, none, some, List, [], ltb, leb, ◌==◌,
  if◌then◌else◌, length, get_elem?, set, take, drop, Errno, eio, einval, emfile, Ret, val, err,
}
use filestick.Base.Int.{ℤ, pos, negsuc}
use filestick.SpiFlash.Chip.{FlashChip}
use filestick.SpiFlash.{
  State, find_fd, new_fd, memcpy_at, spiflash_writebuffer, spiflash_sync, flash_memcpy,
  spiflash_load_sector, u32,
}

-- `(uint32_t)offset`
abbrev pub u32_of : ℤ → ℕ
u32_of (pos n) = u32 n
u32_of (negsuc n) = u32 (2 ^ 32 - 1 - n % 2 ^ 32)

abbrev pub seek_end_base : ℕ
seek_end_base = 0xFFFFFF

-- `struct stat`, the members that are set.
pub record Stat : Type 0 where
  pub st_mode : ℕ
  pub st_size : ℕ
  pub st_nlink : ℕ

module _ {H : Type 0} (fc : FlashChip) (kmalloc : ℕ → H → Option H) (kfree : H → H) where
  abbrev Driver : Type 0
  Driver = State fc kmalloc kfree

  -- `fdinfo->fileptr`, and a change of it.
  abbrev pub fileptr_of : ℕ → Driver → ℕ
  fileptr_of i s = elim (get_elem? s.fd_list i) [ none ↦ 0 | some o ↦ o.fileptr ]

  abbrev pub set_fileptr : ℕ → ℕ → Driver → Driver
  set_fileptr i ptr s = elim (get_elem? s.fd_list i) [
    | none ↦ s
    | some o ↦ record s { fd_list = set s.fd_list i (record o { fileptr = ptr }) }
  ]

  unfoldable pub spiflash_open : ℕ → Driver → Ret × Driver
  spiflash_open fd s = elim (new_fd fd s.fd_list) [
    | none ↦ (err emfile, s)
    | some l ↦ (val 0, record s { fd_list = l })
  ]

  unfoldable pub spiflash_read : ℕ → ℕ → Driver → Option (Ret × List ℕ × Driver)
  spiflash_read fd count s = elim (find_fd fd s.fd_list) [
    | none ↦ some (err eio, [], s)
    | some i ↦
        let s₁ = spiflash_sync fc kmalloc kfree s in
        elim (flash_memcpy fc kmalloc kfree (fileptr_of i s₁) count s₁.chip) [
          | none ↦ none
          | some bytes ↦ some (val count, bytes, set_fileptr i (u32 (fileptr_of i s₁ + count)) s₁)
        ]
  ]

  -- The copy into the buffer of the sector that is loaded, and the flush at its end. A copy reads
  -- no more than the caller's buffer and writes no more than the sector's.
  unfoldable pub write_loaded : ℕ → List ℕ → List ℕ → Driver → Option (ℕ × Driver)
  write_loaded fileptr bytes writebuf s =
      let end_addr = u32 (length bytes + fileptr) in
      let count =
        if ltb s.write_blk_end end_addr
        then u32 (s.write_blk_end + 2 ^ 32 - fileptr)
        else length bytes in
      if ltb (length bytes) count
      then none
      else elim (memcpy_at writebuf (fileptr % 4096) (take count bytes)) [
        | none ↦ none
        | some buf ↦
            let s₁ = record s { writebuf = some buf } in
            some (
              count,
              if leb s.write_blk_end end_addr
                  then spiflash_writebuffer fc kmalloc kfree buf s₁
                  else s₁,
            )
      ]

  -- After the call of `spiflash_load_sector`.
  abbrev pub write_after_load : ℕ → List ℕ → Option (Ret × Driver) → Option (Ret × Driver)
  write_after_load fileptr bytes none = none
  write_after_load fileptr bytes (some (err e, s)) = some (err e, s)
  write_after_load fileptr bytes (some (val _, s)) = elim s.writebuf [
    | none ↦ none
    | some buf ↦ elim (write_loaded fileptr bytes buf s) [
      | none ↦ none
      | some (n, s') ↦ some (val n, s')
    ]
  ]

  unfoldable pub spiflash_write_to_sector : ℕ → List ℕ → Driver → Option (Ret × Driver)
  spiflash_write_to_sector fileptr bytes s = elim s.writebuf [
    | none ↦ write_after_load fileptr bytes (spiflash_load_sector fc kmalloc kfree fileptr s)
    | some buf ↦
        if ltb s.write_blk_end (u32 (length bytes + fileptr)) || ltb fileptr s.write_blk_offset
        then write_after_load fileptr bytes (
            spiflash_load_sector fc kmalloc kfree fileptr
              (spiflash_writebuffer fc kmalloc kfree buf s))
        else write_after_load fileptr bytes (some (val 0, s))
  ]

  -- The `do … while` loop of `spiflash_write`, on fuel: `bytes` are those that remain.
  unfoldable pub write_loop : ℕ → ℕ → List ℕ → Driver → Option (Option Errno × Driver)
  write_loop zero i bytes s = none
  write_loop (suc fuel) i bytes s = elim (spiflash_write_to_sector (fileptr_of i s) bytes s) [
    | none ↦ none
    | some (err e, s') ↦ some (some e, s')
    | some (val n, s') ↦
        let s'' = set_fileptr i (u32 (fileptr_of i s + n)) s' in
        let rest = write_loop fuel i (drop n bytes) s'' in
        if leb (length bytes) n then some (none, s'') else rest
  ]

  unfoldable pub spiflash_write : ℕ → List ℕ → Driver → Option (Ret × Driver)
  spiflash_write fd bytes s = elim (find_fd fd s.fd_list) [
    | none ↦ some (err eio, s)
    | some i ↦ elim (write_loop (length bytes + 1) i bytes s) [
      | none ↦ none
      | some (none, s') ↦ some (val (length bytes), s')
      | some (some e, s') ↦ some (err e, s')
    ]
  ]

  -- SEEK_SET is 0, SEEK_CUR 1 and SEEK_END 2.
  unfoldable pub seek_target : ℤ → ℕ → ℕ → Option ℕ
  seek_target offset whence fileptr =
      if whence == 0
      then some (u32_of offset)
      else if whence == 1
      then some (u32 (fileptr + u32_of offset))
      else if whence == 2
      then some (u32 (seek_end_base + u32_of offset))
      else none

  -- The result is the position as a number without sign.
  unfoldable pub spiflash_lseek : ℕ → ℤ → ℕ → Driver → Ret × Driver
  spiflash_lseek fd offset whence s = elim (find_fd fd s.fd_list) [
    | none ↦ (err eio, s)
    | some i ↦ elim (seek_target offset whence (fileptr_of i s)) [
      | none ↦ (err einval, s)
      | some ptr ↦ (val ptr, set_fileptr i ptr s)
    ]
  ]

  -- `S_IFBLK | 0555`
  unfoldable pub spiflash_fstat : ℕ → Ret × Stat
  spiflash_fstat s_ifblk =
      (val 0, record { st_mode = bit_or s_ifblk 365; st_size = seek_end_base; st_nlink = 1 })

  unfoldable pub spiflash_close : ℕ → Driver → Ret × Driver
  spiflash_close fd s = elim (find_fd fd s.fd_list) [
    | none ↦ (err eio, s)
    | some i ↦
        let s₁ = spiflash_sync fc kmalloc kfree s in
        elim (get_elem? s₁.fd_list i) [
          | none ↦ (val 0, s₁)
          | some o ↦ (val 0, record s₁ { fd_list = set s₁.fd_list i (record o { fd = 0 }) })
        ]
  ]
