-- ===== src/Fs.antt =====
-- The file system calls over FatFs: system/mount.c, system/file_ops.c, and the children for
-- system/directory.c and system/file.c. FatFs is a library that the kernel calls: its state, its
-- objects and its functions are the parameter `FatFs`.
pub mod Directory
pub mod File
pub mod Opening
pub mod Handles
mod Tests
use filestick.Base.{
  ℕ, zero, suc, ◌+◌, ◌-◌, ◌*◌, ◌/◌, ◌%◌, ◌^◌, ◌≤◌, ◌<◌, min, max, bit_and, bit_or, bit_xor, ◌≡◌,
  refl, sym, ap, ap₂, ◌∙◌, fun_ext, ◌≢◌, ◌↔◌, ◌⊎◌, inl, inr, Bool, true, false, not, ◌&&◌, ◌||◌,
  Option, none, some, List, [], ◌∷◌, ◌++◌, map, append-nil, append_assoc, arith, ltb, leb, ◌==◌,
  if◌then◌else◌, ltb→lt, lt→ltb, leb→le, ==_iff, tests, Bool-cases, Option-cases, length, get_elem?,
  get_elem?-lt, get_elem?_of_lt, get_elem?-none, set, length-append, length-set, get_elem?-set_self,
  get_elem?-set_ne, get_or, take, drop, replicate, take-set_end, take-set_ge, take-take, take_all,
  take-append_self, take-append-take, take-append_left, drop-append_left, drop-append_self,
  drop-drop, take-append-drop, length-take, length-drop, length-replicate, length-map, Errno,
  enoent, eio, enoexec, ebadf, enomem, eexist, einval, enfile, emfile, espipe, erofs, emsgsize,
  edestaddrreq, ehostunreach, etimedout, efatfs, Ret, val, err,
}
use filestick.Base.Text.{codes, str_eq}

-- `FRESULT`: the codes that the kernel names, and the others by their number.
pub data FResult : Type 0 where
  fr_ok fr_disk_err fr_no_file fr_no_path fr_not_enough_core fr_too_many_open_files : FResult
  fr_exist fr_write_protected : FResult
  fr_other : ℕ → FResult

-- What `f_readdir` and `f_stat` say of an entry.
pub record FilInfo : Type 0 where
  pub fname : List ℕ
  pub fsize : ℕ
  pub is_dir : Bool
  pub is_read_only : Bool

pub record FatFs : Type 1 where
  pub Disk : Type 0
  pub Dir : Type 0
  pub Fil : Type 0
  pub f_mount : List ℕ → Disk → FResult × Disk
  pub f_unmount : List ℕ → Disk → FResult × Disk
  pub f_opendir : List ℕ → Dir → Disk → FResult × Dir × Disk
  pub f_closedir : Dir → Disk → FResult × Dir × Disk
  pub f_readdir : Dir → Disk → FResult × FilInfo × Dir × Disk
  pub f_open : List ℕ → ℕ → Fil → Disk → FResult × Fil × Disk
  pub f_read : ℕ → Fil → Disk → FResult × List ℕ × Fil × Disk
  pub f_write : List ℕ → Fil → Disk → FResult × ℕ × Fil × Disk
  pub f_close : Fil → Disk → FResult × Fil × Disk
  pub f_lseek : ℕ → Fil → Disk → FResult × Fil × Disk
  pub f_tell : Fil → ℕ
  pub f_size : Fil → ℕ
  pub f_unlink : List ℕ → Disk → FResult × Disk
  pub f_mkdir : List ℕ → Disk → FResult × Disk
  pub f_chdir : List ℕ → Disk → FResult × Disk
  pub f_stat : List ℕ → Disk → FResult × FilInfo × Disk

unfoldable pub fatfs_to_errno : FResult → Ret
fatfs_to_errno fr_ok = val 0
fatfs_to_errno fr_disk_err = err eio
fatfs_to_errno fr_no_file = err enoent
fatfs_to_errno fr_no_path = err enoent
fatfs_to_errno fr_not_enough_core = err enomem
fatfs_to_errno fr_too_many_open_files = err emfile
fatfs_to_errno fr_exist = err eexist
fatfs_to_errno fr_write_protected = err erofs
fatfs_to_errno (fr_other r) = err (efatfs r)

-- `st_mode` as far as `SYS_stat` sets it, and `st_size`.
pub record FileStat : Type 0 where
  pub directory : Bool
  pub writable : Bool
  pub st_size : ℕ

module _ (fatfs : FatFs) where
  open fatfs use {Disk}

  -- The drive of a source: the SD card is drive 1, the flash drive 0.
  abbrev pub drive_of : List ℕ → Option (List ℕ)
  drive_of src =
      if str_eq src (codes "sd")
      then some (codes "1")
      else if str_eq src (codes "flash")
      then some (codes "0")
      else none

  unfoldable pub sys_mount : List ℕ → List ℕ → Disk → Ret × Disk
  sys_mount src fstype d =
      if not (str_eq fstype (codes "fatfs")) then (err einval, d) else elim (drive_of src) [
        | none ↦ (err einval, d)
        | some drv ↦ let (r, d') = fatfs.f_mount drv d in (fatfs_to_errno r, d')
      ]

  -- `intflash_release` (system/flashdisc.c) closes the flash of drive 0.
  unfoldable pub sys_umount : (Disk → Disk) → List ℕ → Disk → Ret × Disk
  sys_umount intflash_release target d =
      let (r, d') = fatfs.f_unmount target d in
      (fatfs_to_errno r, if str_eq target (codes "0") then intflash_release d' else d')

  unfoldable pub sys_unlink : List ℕ → Disk → Ret × Disk
  sys_unlink pathname d = let (r, d') = fatfs.f_unlink pathname d in (fatfs_to_errno r, d')

  unfoldable pub sys_mkdir : List ℕ → Disk → Ret × Disk
  sys_mkdir pathname d = let (r, d') = fatfs.f_mkdir pathname d in (fatfs_to_errno r, d')

  unfoldable pub sys_chdir : List ℕ → Disk → Ret × Disk
  sys_chdir pathname d = let (r, d') = fatfs.f_chdir pathname d in (fatfs_to_errno r, d')

  -- The caller's structure is cleared before the call of `f_stat`.
  abbrev pub stat_of : FResult → FilInfo → Option FileStat
  stat_of fr_ok i =
      some (record { directory = i.is_dir; writable = not i.is_read_only; st_size = i.fsize })
  stat_of _ i = none

  unfoldable pub sys_stat : List ℕ → Disk → Ret × Option FileStat × Disk
  sys_stat pathname d =
      let (r, i, d') = fatfs.f_stat pathname d in (fatfs_to_errno r, stat_of r i, d')
