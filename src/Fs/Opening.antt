-- ===== src/Fs/Opening.antt =====
-- `fileio_open`, and with it `SYS_open` on any path: the descriptor table.
use filestick.Base.{
  ℕ, ◌-◌, ◌≡◌, refl, ◌⊎◌, inl, inr, false, Option, none, some, List, arith, ltb, Bool-cases, length,
  get_elem?_of_lt, take, drop, Errno, Ret, val, err,
}
use filestick.Fd.{Kernel}
use filestick.Fd.Table.{Fd, FdTable, fd_alloc, fd_dealloc, modify, cleared, flag_allocated}
use filestick.Fd.Table.Laws.{modify-modify, fd_alloc-Allocated, Allocated}
use filestick.Fd.Open.{DevOpen, open_device, sys_open}
use filestick.Fd.Invariant.{IsValid}
use filestick.Fd.Invariant.Opening.{
  OpenEffect, full, given_back, taken, OpenEffect-IsValid, OpenEffect-IsFresh, IsFresh,
  open_device-OpenEffect, alloc_at, alloc-none,
}
use filestick.Base.Text.{codes, str_eq}
use filestick.Fs.{
  FatFs, FResult, fr_ok, fr_disk_err, fr_no_file, fr_no_path, fr_not_enough_core,
  fr_too_many_open_files, fr_exist, fr_write_protected, fr_other, fatfs_to_errno,
}
use filestick.Fs.File.{Files, max_fd_count, file_opened, file_allocated, fileio_open}

-- The code of a failed FatFs call is an error number.
fatfs_to_errno-cases : (r : FResult) → (r ≡ fr_ok) ⊎ ((x : Errno) × (fatfs_to_errno r ≡ err x))
unfolding fatfs_to_errno
fatfs_to_errno-cases fr_ok = inl refl
fatfs_to_errno-cases fr_disk_err = inr (_, refl)
fatfs_to_errno-cases fr_no_file = inr (_, refl)
fatfs_to_errno-cases fr_no_path = inr (_, refl)
fatfs_to_errno-cases fr_not_enough_core = inr (_, refl)
fatfs_to_errno-cases fr_too_many_open_files = inr (_, refl)
fatfs_to_errno-cases fr_exist = inr (_, refl)
fatfs_to_errno-cases fr_write_protected = inr (_, refl)
fatfs_to_errno-cases (fr_other n) = inr (_, refl)

module _ (fatfs : FatFs) {D : Type 0} (fileio_func : D) where
  open fatfs use {Disk, Fil}

  abbrev with_func : Fd D → Fd D
  with_func e = record e { fdfunc = some fileio_func }

  -- A file that FatFs opened.
  opened-OpenEffect :
      {t t₁ : FdTable D} {n : ℕ}
      → Allocated 0 t n t₁
      → OpenEffect 0 t (val n) (modify t₁ n with_func)
  opened-OpenEffect {t} {n = n} a =
      let (e, g, f, l, m) = alloc_at a in
      taken n fileio_func e g f l refl (rw m (modify-modify t n _ _))

  -- A file that FatFs did not open: the entry is given back.
  failed-OpenEffect :
      {t t₁ : FdTable D} {n : ℕ} (x : Errno)
      → Allocated 0 t n t₁
      → OpenEffect 0 t (err x) (fd_dealloc (modify t₁ n with_func) n)
  unfolding fd_dealloc
  failed-OpenEffect {t} {n = n} x a =
      let (e, g, f, l, m) = alloc_at a in
      given_back n x e g f refl (
        rw m (
          rw (modify-modify t n (λ e. record e { flags = flag_allocated; fd = n }) with_func)
            (modify-modify t n _ cleared)))

  file_opened-OpenEffect :
      {t t₁ : FdTable D} {n : ℕ} (i : ℕ) (s : Files fatfs) (r : FResult) (fp : Fil) (disk : Disk)
      → Allocated 0 t n t₁
      → let (r, k') = file_opened fatfs fileio_func n (modify t₁ n with_func) i s (r, fp, disk) in
        OpenEffect 0 t r k'.fdtable
  unfolding fatfs_to_errno
  file_opened-OpenEffect i s fr_ok fp disk a = opened-OpenEffect a
  file_opened-OpenEffect i s fr_disk_err fp disk a = failed-OpenEffect _ a
  file_opened-OpenEffect i s fr_no_file fp disk a = failed-OpenEffect _ a
  file_opened-OpenEffect i s fr_no_path fp disk a = failed-OpenEffect _ a
  file_opened-OpenEffect i s fr_not_enough_core fp disk a = failed-OpenEffect _ a
  file_opened-OpenEffect i s fr_too_many_open_files fp disk a = failed-OpenEffect _ a
  file_opened-OpenEffect i s fr_exist fp disk a = failed-OpenEffect _ a
  file_opened-OpenEffect i s fr_write_protected fp disk a = failed-OpenEffect _ a
  file_opened-OpenEffect i s (fr_other x) fp disk a = failed-OpenEffect _ a

  -- What opening comes to: it does not fault, and has the effect of an opening.
  abbrev Opens : ℕ → FdTable D → Option (Ret × Kernel D (Files fatfs)) → Type 0
  Opens flags t out =
      (r : Ret) × (k' : Kernel D (Files fatfs)) × (out ≡ some (r, k'))
      × OpenEffect flags t r k'.fdtable

  file_allocated-Opens :
      (path : List ℕ) (flags : ℕ) (k : Kernel D (Files fatfs)) (o : Option (ℕ × FdTable D))
      → IsValid k.fdtable
      → length k.dev.fhnd ≡ max_fd_count
      → fd_alloc k.fdtable ≡ o
      → Opens 0 k.fdtable (file_allocated fatfs fileio_func path flags k o)
  file_allocated-Opens path flags k none v len h =
      (_, _, refl, full (alloc-none k.fdtable h) refl refl)
  file_allocated-Opens path flags k (some (n, t₁)) v len h =
      let a = fd_alloc-Allocated k.fdtable h in
      let fresh : IsFresh 0 k.fdtable n _ = OpenEffect-IsFresh (opened-OpenEffect a) v refl in
      let (fp, g) =
        get_elem?_of_lt k.dev.fhnd (n - 3) (omega (arith, fresh.above_std, fresh.in_table)) in
      let small : ltb n 3 ≡ false = ground (arith, fresh.above_std) in
      rw (small, g) (_, _, refl, file_opened-OpenEffect (n - 3) k.dev _ _ _ a)

  -- `fileio_open` on a valid table never faults: the handle of the entry that it takes exists. It
  -- has the effect of an opening: with no free entry nothing changes and it returns EMFILE; where
  -- FatFs fails the entry is given back and the error returned; else the lowest free entry is open.
  pub fileio_open-OpenEffect :
      (path : List ℕ) (flags : ℕ) (k : Kernel D (Files fatfs))
      → IsValid k.fdtable
      → length k.dev.fhnd ≡ max_fd_count
      → (r : Ret) × (k' : Kernel D (Files fatfs)) × (fileio_open fatfs fileio_func path flags k
          ≡ some (r, k'))
        × OpenEffect 0 k.fdtable r k'.fdtable
  unfolding fileio_open
  fileio_open-OpenEffect path flags k v len =
      file_allocated-Opens path flags k (fd_alloc k.fdtable) v len refl

  -- On a valid table and with all 13 file handles there, `SYS_open`, on a device or a file,
  -- returns, keeps the invariant of the descriptor table, and a descriptor that it returns is
  -- fresh: the lowest that was free, in 3 … 15, and now open.
  pub sys_open-IsFresh :
      (open_table : List (DevOpen D (Files fatfs))) (pathname : List ℕ) (flags : ℕ)
      (k : Kernel D (Files fatfs))
      → IsValid k.fdtable
      → length k.dev.fhnd ≡ max_fd_count
      → (r : Ret) × (k' : Kernel D (Files fatfs)) × (sys_open open_table
            (fileio_open fatfs fileio_func)
            pathname
            flags
            k
          ≡ some (r, k'))
        × IsValid k'.fdtable
        × ((n : ℕ) → r ≡ val n → (f : ℕ) × IsFresh f k.fdtable n k'.fdtable)
  unfolding sys_open
  sys_open-IsFresh open_table pathname flags k v len =
      elim (Bool-cases (str_eq (take 5 pathname) (codes "/dev/"))) [
        | inl q ↦
            let e = open_device-OpenEffect open_table (drop 5 pathname) flags k in
            let o = open_device open_table (drop 5 pathname) flags k in
            (o.0, o.1, rw q refl, OpenEffect-IsValid e v, λ n h. (flags, OpenEffect-IsFresh e v h))
        | inr q ↦
            let (r, k', p, e) = fileio_open-OpenEffect pathname flags k v len in
            (r, k', rw q p, OpenEffect-IsValid e v, λ n h. (0, OpenEffect-IsFresh e v h))
      ]
