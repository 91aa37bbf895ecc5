-- ===== src/Fs/Directory.antt =====
-- system/directory.c: the table of directory handles.
use filestick.Base.{
  ℕ, suc, ◌-◌, Bool, true, false, Option, none, some, List, [], ◌∷◌, map, ltb, if◌then◌else◌,
  get_elem?, set, take, ebadf, enfile, emfile, Ret, val, err,
}
use filestick.Base.Int.{ℤ, pos, negsuc}
use filestick.Fs.{FatFs, FResult, FilInfo, fr_ok, fatfs_to_errno}

abbrev pub max_dhnd : ℕ
max_dhnd = 8

-- The size of `d_name`.
abbrev pub name_size : ℕ
name_size = 256

-- `DIRHND`
pub record DirHnd (T : Type 0) : Type 0 where
  pub in_use : Bool
  pub dir : T

-- `struct dirent`, as `SYS_readdir` fills it.
pub record Dirent : Type 0 where
  pub d_name : List ℕ
  pub d_isdir : Bool
  pub d_size : ℕ

-- The loop of `SYS_opendir`: the first handle that is not open.
unfoldable pub free_handle : {T : Type 0} → List (DirHnd T) → Option ℕ
free_handle [] = none
free_handle (h ∷ hs) =
    if h.in_use then elim (free_handle hs) [ none ↦ none | some i ↦ some (suc i) ] else some 0

module _ (fatfs : FatFs) where
  open fatfs use {Disk, Dir}

  pub record Dirs : Type 0 where
    pub dhnd : List (DirHnd Dir)
    pub disk : Disk

  abbrev not_in_use : DirHnd Dir → DirHnd Dir
  not_in_use h = record h { in_use = false }

  unfoldable pub init_dirs : Dirs → Dirs
  init_dirs s = record s { dhnd = map not_in_use s.dhnd }

  -- What `f_opendir` leaves in the handle, which is in use only after FR_OK.
  abbrev pub opened_dir : ℕ → DirHnd Dir → Dirs → FResult × Dir × Disk → Ret × Dirs
  opened_dir i h s (fr_ok, dir, disk) =
      (val i, record { dhnd = set s.dhnd i (record { in_use = true; dir = dir }); disk = disk })
  opened_dir i h s (r, dir, disk) =
      (fatfs_to_errno r, record { dhnd = set s.dhnd i (record h { dir = dir }); disk = disk })

  unfoldable pub sys_opendir : List ℕ → Dirs → Ret × Dirs
  sys_opendir path s = elim (free_handle s.dhnd) [
    | none ↦ (err enfile, s)
    | some i ↦ elim (get_elem? s.dhnd i) [
      | none ↦ (err enfile, s)
      | some h ↦ opened_dir i h s (fatfs.f_opendir path h.dir s.disk)
    ]
  ]

  -- A handle's number, as the two calls look at it: more than 8 is refused, and 8 or a negative
  -- number faults.
  abbrev pub handle : {R : Type 0} → R → (ℕ → DirHnd Dir → Option R) → ℤ → Dirs → Option R
  handle refuse go (negsuc n) s = none
  handle refuse go (pos n) s =
      if ltb max_dhnd n
      then some refuse
      else elim (get_elem? s.dhnd n) [ none ↦ none | some h ↦ go n h ]

  abbrev pub closed_dir : ℕ → DirHnd Dir → Dirs → FResult × Dir × Disk → Ret × Dirs
  closed_dir i h s (fr_ok, dir, disk) =
      (val 0, record { dhnd = set s.dhnd i (record { in_use = false; dir = dir }); disk = disk })
  closed_dir i h s (r, dir, disk) =
      (fatfs_to_errno r, record { dhnd = set s.dhnd i (record h { dir = dir }); disk = disk })

  unfoldable pub sys_closedir : ℤ → Dirs → Option (Ret × Dirs)
  sys_closedir dh s =
      handle (err emfile, s)
        (λ i h.
          some
            (if h.in_use then closed_dir i h s (fatfs.f_closedir h.dir s.disk) else (err ebadf, s)))
        dh s

  -- `strlcpy` keeps one byte of `d_name` for the NUL.
  abbrev pub dirent_of : FilInfo → Dirent
  dirent_of i = record {
    d_name = take (name_size - 1) i.fname;
    d_isdir = i.is_dir;
    d_size = i.fsize;
  }

  abbrev pub read_dir :
      ℕ → DirHnd Dir → Dirs → FResult × FilInfo × Dir × Disk → Ret × Option Dirent × Dirs
  read_dir i h s (fr_ok, f, dir, disk) = (
    val 0,
    some (dirent_of f),
    record { dhnd = set s.dhnd i (record h { dir = dir }); disk = disk },
  )
  read_dir i h s (r, f, dir, disk) =
      (fatfs_to_errno r, none, record { dhnd = set s.dhnd i (record h { dir = dir }); disk = disk })

  unfoldable pub sys_readdir : ℤ → Dirs → Option (Ret × Option Dirent × Dirs)
  sys_readdir dh s =
      handle (err emfile, none, s)
        (λ i h. some (
          if h.in_use then read_dir i h s (fatfs.f_readdir h.dir s.disk) else (err ebadf, none, s)))
        dh s
