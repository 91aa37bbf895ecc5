-- ===== src/Fd/Open.antt =====
-- system/dev_open.c, `SYS_open` and `fd_init` of system/fd.c.
use filestick.Base.{
  ℕ, Option, none, some, List, [], ◌∷◌, if◌then◌else◌, bit_or, Ret, val, err, emfile, enoent, Errno,
  drop, take,
}
use filestick.Base.Text.{codes, str_eq}
use filestick.Fd.{Kernel}
use filestick.Fd.Table.{FdTable, fd_alloc, fd_dealloc, modify, empty_table}

-- What an `open_device_impl` does to the entry that it is given: it sets `fdfunc` and returns 0, or
-- returns an error and leaves the entry.
pub data Opened (D S : Type 0) : Type 0 where
  opened : D → S → Opened D S
  failed : Errno → S → Opened D S

-- `DevOpen`. The implementation is given the number `fd->fd`.
pub record DevOpen (D S : Type 0) : Type 0 where
  pub devname : List ℕ
  pub open_device_impl : ℕ → S → Opened D S

module _ {D S : Type 0} where
  -- The search of `open_table`.
  unfoldable pub find_device : List ℕ → List (DevOpen D S) → Option (DevOpen D S)
  find_device devname [] = none
  find_device devname (d ∷ ds) = if str_eq d.devname devname then some d else find_device devname ds

  -- The rest of `open_device` once an implementation has returned.
  abbrev pub finish_open : ℕ → ℕ → FdTable D → Opened D S → Ret × Kernel D S
  finish_open n flags t (opened d s) = (
    val n,
    record {
      fdtable = modify t n (λ e. record e { fdfunc = some d; flags = bit_or e.flags flags });
      dev = s;
    },
  )
  finish_open n flags t (failed e s) = (err e, record { fdtable = fd_dealloc t n; dev = s })

  -- `open_device` once an entry is allocated: the device's implementation is called, if it is
  -- found.
  abbrev pub open_found : ℕ → ℕ → FdTable D → Kernel D S → Option (DevOpen D S) → Ret × Kernel D S
  open_found n flags t k none = (err enoent, record k { fdtable = fd_dealloc t n })
  open_found n flags t k (some d) = finish_open n flags t (d.open_device_impl n k.dev)

  abbrev pub open_allocated :
      List (DevOpen D S) → List ℕ → ℕ → Kernel D S → Option (ℕ × FdTable D) → Ret × Kernel D S
  open_allocated open_table devname flags k none = (err emfile, k)
  open_allocated open_table devname flags k (some (n, t)) =
      open_found n flags t k (find_device devname open_table)

  unfoldable pub open_device : List (DevOpen D S) → List ℕ → ℕ → Kernel D S → Ret × Kernel D S
  open_device open_table devname flags k =
      open_allocated open_table devname flags k (fd_alloc k.fdtable)

  -- `strncmp(pathname, "/dev/", 5)` picks the devices; `fileio_open` is in system/file.c.
  unfoldable pub sys_open :
      List (DevOpen D S)
      → (List ℕ → ℕ → Kernel D S → Option (Ret × Kernel D S))
      → List ℕ
      → ℕ
      → Kernel D S
      → Option (Ret × Kernel D S)
  sys_open open_table fileio_open pathname flags k =
      if str_eq (take 5 pathname) (codes "/dev/")
      then some (open_device open_table (drop 5 pathname) flags k)
      else fileio_open pathname flags k

  -- Standard input, output and error are the console (O_RDONLY is 0, O_WRONLY is 1).
  unfoldable pub fd_init : List (DevOpen D S) → S → Kernel D S
  fd_init open_table s =
      let k₀ : Kernel D S = record { fdtable = empty_table D; dev = s } in
      let k₁ = (open_device open_table (codes "console") 0 k₀).1 in
      let k₂ = (open_device open_table (codes "console") 1 k₁).1 in
      (open_device open_table (codes "console") 1 k₂).1
