-- ===== src/Disk/Flash.antt =====
-- system/flashdisc.c: the internal flash as a block device, through the system calls on a
-- descriptor of /dev/spiflash.
use filestick.Base.{
  ℕ, zero, suc, ◌+◌, ◌*◌, ◌%◌, ◌^◌, ◌≡◌, ap, Option, none, some, List, [], ◌==◌, if◌then◌else◌,
  take, Errno, Ret, val, err,
}
use filestick.Base.Text.{codes}
use filestick.Base.Int.{pos}
use filestick.Fd.{FdFunction, Kernel, sys_read, sys_write, sys_lseek, sys_close}
use filestick.Disk.{
  DResult, res_ok, res_error, res_notrdy, res_parerr, sta_noinit, ctrl_sync, get_sector_count,
  get_sector_size, get_block_size, ctrl_trim,
}

abbrev pub sector_size : ℕ
sector_size = 512

abbrev pub fs_start : ℕ
fs_start = 0x40000

-- `flashaddress` and `bytecount`
abbrev pub flash_address : ℕ → ℕ
flash_address sector = (fs_start + sector * sector_size) % 2 ^ 32

abbrev pub byte_count : ℕ → ℕ
byte_count count = count * sector_size % 2 ^ 32

module _ {D S : Type 0} (funcs : D → FdFunction S) where
  -- `flash_fd` (none where it is negative), and the kernel.
  pub record FlashDisc : Type 0 where
    pub flash_fd : Option ℕ
    pub kernel : Kernel D S

  abbrev pub fd_of : Ret → Option ℕ
  fd_of (val n) = some n
  fd_of (err e) = none

  abbrev pub init_status : Option ℕ → ℕ
  init_status none = sta_noinit
  init_status (some zero) = sta_noinit
  init_status (some (suc n)) = 0

  -- The flash is opened at the first call; O_RDWR is 2.
  unfoldable pub intflash_init :
      (List ℕ → ℕ → Kernel D S → Option (Ret × Kernel D S)) → FlashDisc → Option (ℕ × FlashDisc)
  intflash_init sys_open s = elim s.flash_fd [
    | some n ↦ some (init_status (some n), s)
    | none ↦ elim (sys_open (codes "/dev/spiflash") 2 s.kernel) [
      | none ↦ none
      | some (r, k) ↦ some (init_status (fd_of r), record { flash_fd = fd_of r; kernel = k })
    ]
  ]

  -- The result tells the seek's error only: that of the read is not looked at.
  unfoldable pub intflash_read : ℕ → ℕ → FlashDisc → Option (DResult × List ℕ × FlashDisc)
  intflash_read sector count s = elim s.flash_fd [
    | none ↦ some (res_notrdy, [], s)
    | some fd ↦ elim (sys_lseek funcs (pos fd) (pos (flash_address sector)) 0 s.kernel) [
      | none ↦ none
      | some (err e, k) ↦ some (res_error, [], record s { kernel = k })
      | some (val at, k) ↦ elim (sys_read funcs (pos fd) (byte_count count) k) [
        | none ↦ none
        | some (r, bytes, k') ↦ some (res_ok, bytes, record s { kernel = k' })
      ]
    ]
  ]

  unfoldable pub intflash_write : List ℕ → ℕ → ℕ → FlashDisc → Option (DResult × FlashDisc)
  intflash_write buf sector count s = elim s.flash_fd [
    | none ↦ some (res_notrdy, s)
    | some fd ↦ elim (sys_lseek funcs (pos fd) (pos (flash_address sector)) 0 s.kernel) [
      | none ↦ none
      | some (err e, k) ↦ some (res_error, record s { kernel = k })
      | some (val at, k) ↦ elim (sys_write funcs (pos fd) (take (byte_count count) buf) k) [
        | none ↦ none
        | some (r, k') ↦ some (res_ok, record s { kernel = k' })
      ]
    ]
  ]

  -- `spiflash_sync` is in system/spi_flashdev.c.
  unfoldable pub intflash_sync : (Kernel D S → Kernel D S) → FlashDisc → DResult × FlashDisc
  intflash_sync spiflash_sync s = (res_ok, record s { kernel = spiflash_sync s.kernel })

  -- The requests that ask for a number assign the local pointer: nothing is stored for the caller.
  unfoldable pub intflash_ioctl :
      (Kernel D S → Kernel D S) → ℕ → FlashDisc → DResult × Option ℕ × FlashDisc
  intflash_ioctl spiflash_sync cmd s =
      if cmd == ctrl_sync
      then (res_ok, none, (intflash_sync spiflash_sync s).1)
      else if cmd == get_sector_count
      then (res_ok, none, s)
      else if cmd == get_sector_size
      then (res_ok, none, s)
      else if cmd == get_block_size
      then (res_ok, none, s)
      else if cmd == ctrl_trim
      then (res_ok, none, s)
      else (res_parerr, none, s)

  unfoldable pub intflash_release : FlashDisc → Option FlashDisc
  intflash_release s = elim s.flash_fd [
    | none ↦ some (record s { flash_fd = none })
    | some zero ↦ some (record s { flash_fd = none })
    | some (suc n) ↦ elim (sys_close funcs (pos (suc n)) s.kernel) [
      | none ↦ none
      | some (r, k) ↦ some (record { flash_fd = none; kernel = k })
    ]
  ]

  -- A failure of the read itself is reported as RES_OK: where the seek succeeds, `intflash_read`
  -- returns RES_OK with what `SYS_read` left in the buffer, whatever `SYS_read` returned, and
  -- likewise `intflash_write` whatever `SYS_write` returned.
  pub intflash_hides_errors :
      (buf : List ℕ) (sector count fd at : ℕ) (e : Errno) (bytes : List ℕ) (s : FlashDisc)
      (k k₁ k₂ : Kernel D S)
      → s.flash_fd ≡ some fd
      → sys_lseek funcs (pos fd) (pos (flash_address sector)) 0 s.kernel ≡ some (val at, k)
      → sys_read funcs (pos fd) (byte_count count) k ≡ some (err e, bytes, k₁)
      → sys_write funcs (pos fd) (take (byte_count count) buf) k ≡ some (err e, k₂)
      → (intflash_read sector count s ≡ some (res_ok, bytes, record s { kernel = k₁ }))
        × (intflash_write buf sector count s ≡ some (res_ok, record s { kernel = k₂ }))
  unfolding intflash_read intflash_write
  intflash_hides_errors buf sector count fd at e bytes s k k₁ k₂ f l r w = (
    rw (intflash_read, f, l, r)
        (ap (λ x. some (res_ok, bytes, record { flash_fd = x; kernel = k₁ })) f),
    rw (intflash_write, f, l, w) (ap (λ x. some (res_ok, record { flash_fd = x; kernel = k₂ })) f),
  )
