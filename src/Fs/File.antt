-- ===== src/Fs/File.antt =====
-- system/file.c: open files, as the driver of their descriptors. The handle of descriptor `fd` is
-- `fhnd[fd - MIN_FD_NUMBER]`; `none` is an access outside `fhnd`. A file position has 32 bits.
use filestick.Base.{
  ℕ, ◌+◌, ◌-◌, ◌/◌, ◌%◌, ◌^◌, bit_or, Bool, Option, none, some, List, ltb, ◌==◌, if◌then◌else◌,
  length, get_elem?, set, emfile, Ret, val, err,
}
use filestick.Base.Int.{ℤ, pos, negsuc}
use filestick.Fd.{Kernel}
use filestick.Fd.Table.{FdTable, fd_alloc, fd_dealloc, modify, min_fd_number}
use filestick.Fs.{FatFs, FResult, fr_ok, fatfs_to_errno}

-- MAX_FD_COUNT
abbrev pub max_fd_count : ℕ
max_fd_count = 13

abbrev bit_set : ℕ → ℕ → Bool
bit_set flags bit = flags / bit % 2 == 1

abbrev if_set : Bool → ℕ → ℕ → ℕ
if_set b v flags = if b then bit_or flags v else flags

-- The translation of the open flags: _FREAD, _FWRITE, _FAPPEND, _FCREAT, _FTRUNC of the C library
-- to FA_READ, FA_WRITE, FA_OPEN_APPEND, FA_CREATE_ALWAYS of FatFs.
unfoldable pub fatfs_flags : ℕ → ℕ
fatfs_flags flags = if_set (bit_set flags 0x0400) 0x08 (
    if_set (bit_set flags 0x0200) 0x08 (
      if_set (bit_set flags 0x0008) 0x30
        (if_set (bit_set (flags + 1) 2) 0x02 (if_set (bit_set (flags + 1) 1) 0x01 0))))

abbrev offset_bits : ℤ → ℕ
offset_bits (pos n) = n % 2 ^ 32
offset_bits (negsuc n) = (2 ^ 32 - 1 - n % 2 ^ 32) % 2 ^ 32

module _ (fatfs : FatFs) where
  open fatfs use {Disk, Fil}

  pub record Files : Type 0 where
    pub fhnd : List Fil
    pub disk : Disk

  -- The handle of a descriptor.
  abbrev pub with_handle : {R : Type 0} → ℕ → Files → (ℕ → Fil → R) → Option R
  with_handle fd s go =
      if ltb fd min_fd_number then none else elim (get_elem? s.fhnd (fd - min_fd_number)) [
        | none ↦ none
        | some fp ↦ some (go (fd - min_fd_number) fp)
      ]

  abbrev pub put_handle : ℕ → Fil → Disk → Files → Files
  put_handle i fp disk s = record { fhnd = set s.fhnd i fp; disk = disk }

  module _ {D : Type 0} (fileio_func : D) where
    abbrev pub file_opened : ℕ → FdTable D → ℕ → Files → FResult × Fil × Disk → Ret × Kernel D Files
    file_opened n t i s (fr_ok, fp, disk) =
        (val n, record { fdtable = t; dev = put_handle i fp disk s })
    file_opened n t i s (r, fp, disk) =
        (fatfs_to_errno r, record { fdtable = fd_dealloc t n; dev = put_handle i fp disk s })

    -- After the allocation: the entry has its functions before the file is opened. FatFs works on the
    -- disk alone here; that it can open the flash device itself after a failed mount is left out.
    abbrev pub file_allocated :
        List ℕ → ℕ → Kernel D Files → Option (ℕ × FdTable D) → Option (Ret × Kernel D Files)
    file_allocated path flags k none = some (err emfile, k)
    file_allocated path flags k (some (n, t)) = with_handle n k.dev (λ i fp.
        file_opened n (modify t n (λ e. record e { fdfunc = some fileio_func })) i k.dev
          (fatfs.f_open path (fatfs_flags flags) fp k.dev.disk))

    unfoldable pub fileio_open : List ℕ → ℕ → Kernel D Files → Option (Ret × Kernel D Files)
    fileio_open path flags k = file_allocated path flags k (fd_alloc k.fdtable)

  abbrev pub read_result : ℕ → Files → FResult × List ℕ × Fil × Disk → Ret × List ℕ × Files
  read_result i s (fr_ok, bytes, fp, disk) = (val (length bytes), bytes, put_handle i fp disk s)
  read_result i s (r, bytes, fp, disk) = (fatfs_to_errno r, bytes, put_handle i fp disk s)

  unfoldable pub fileio_read : ℕ → ℕ → Files → Option (Ret × List ℕ × Files)
  fileio_read fd count s = with_handle fd s (λ i fp. read_result i s (fatfs.f_read count fp s.disk))

  abbrev pub write_result : ℕ → Files → FResult × ℕ × Fil × Disk → Ret × Files
  write_result i s (fr_ok, n, fp, disk) = (val n, put_handle i fp disk s)
  write_result i s (r, n, fp, disk) = (fatfs_to_errno r, put_handle i fp disk s)

  unfoldable pub fileio_write : ℕ → List ℕ → Files → Option (Ret × Files)
  fileio_write fd bytes s =
      with_handle fd s (λ i fp. write_result i s (fatfs.f_write bytes fp s.disk))

  unfoldable pub fileio_close : ℕ → Files → Option (Ret × Files)
  fileio_close fd s = with_handle fd s (λ i fp.
      let (r, fp', disk) = fatfs.f_close fp s.disk in (fatfs_to_errno r, put_handle i fp' disk s))

  abbrev pub seek_result : ℕ → Files → FResult × Fil × Disk → Ret × Files
  seek_result i s (fr_ok, fp, disk) = (val (fatfs.f_tell fp), put_handle i fp disk s)
  seek_result i s (r, fp, disk) = (fatfs_to_errno r, put_handle i fp disk s)

  -- SEEK_CUR is 1, SEEK_END 2, and anything else counts as SEEK_SET.
  unfoldable pub seek_target : ℤ → ℕ → Fil → ℕ
  seek_target offset whence fp =
      if whence == 1
      then (fatfs.f_tell fp + offset_bits offset) % 2 ^ 32
      else if whence == 2
      then (fatfs.f_size fp + offset_bits offset) % 2 ^ 32
      else offset_bits offset

  unfoldable pub fileio_lseek : ℕ → ℤ → ℕ → Files → Option (Ret × Files)
  fileio_lseek fd offset whence s =
      with_handle fd s
        (λ i fp. seek_result i s (fatfs.f_lseek (seek_target offset whence fp) fp s.disk))

  -- Only the size is known of an open file.
  unfoldable pub fileio_fstat : ℕ → Files → Option (Ret × ℕ)
  fileio_fstat fd s = with_handle fd s (λ i fp. (val 0, fatfs.f_size fp))
