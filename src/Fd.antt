-- ===== src/Fd.antt =====
-- system/fd.h, system/fd.c: the descriptor table and the system calls that dispatch through it.
-- A driver's `FDfunction` table is a record of optional functions over the drivers' state `S`; the
-- pointer `fdfunc` of an entry is a `D`, which `funcs` takes to its table. `none` as the outcome of
-- a call is no return: an access outside `fdtable`, a call through a null pointer, or a driver that
-- faults or waits for what does not come.
pub mod Table
pub mod Open
pub mod Invariant
pub mod Calls
mod Tests
use mathlib.Core.Option
use filestick.Base.{
  ℕ, ◌+◌, Bool, true, Option, none, some, List, [], ltb, ◌==◌, if◌then◌else◌, get_elem?, Ret, val,
  err, ebadf, espipe, get_or,
}
use filestick.Base.Int.{ℤ, pos, negsuc}
use filestick.Fd.Table.{Fd, FdTable, fd_dealloc, max_file_descriptors}

-- What a driver offers. Buffers go in and out as lists of bytes, `ptr` of an ioctl as the bytes
-- that it points to, before and after.
pub record FdFunction (S : Type 0) : Type 0 where
  pub fd_read : Option (ℕ → ℕ → S → Option (Ret × List ℕ × S))
  pub fd_write : Option (ℕ → List ℕ → S → Option (Ret × S))
  pub fd_lseek : Option (ℕ → ℤ → ℕ → S → Option (Ret × S))
  pub fd_fstat : Option (ℕ → S → Option (Ret × List ℕ × S))
  pub fd_close : Option (ℕ → S → Option (Ret × S))
  pub fd_ioctl : Option (ℕ → ℕ → List ℕ → S → Option (Ret × List ℕ × S))
  pub fd_peek : Option (ℕ → S → Option (Ret × S))

pub record Kernel (D S : Type 0) : Type 0 where
  pub fdtable : FdTable D
  pub dev : S

-- `fd > MAX_FILE_DESCRIPTORS || fd < 0`
abbrev pub bad_fd : ℤ → Bool
bad_fd (pos n) = ltb max_file_descriptors n
bad_fd (negsuc n) = true

abbrev pub index : ℤ → ℕ
index (pos n) = n
index (negsuc n) = 0

module _ {D S : Type 0} (funcs : D → FdFunction S) where
  -- `if(fd_ent.flags && fd_ent.fdfunc->m != NULL) return fd_ent.fdfunc->m(...); return -e`: `run`
  -- makes the call of the member that `select` names, `refuse` is the result where there is none. A
  -- used entry whose `fdfunc` is NULL faults.
  abbrev pub call_entry :
      {M R : Type 0} → (FdFunction S → Option M) → R → (M → Option R) → Fd D → Option R
  call_entry select refuse run e = if e.flags == 0 then some refuse else elim e.fdfunc [
    | none ↦ none
    | some d ↦ elim (select (funcs d)) [ none ↦ some refuse | some m ↦ run m ]
  ]

  -- The check of the number and the access `fdtable[fd]`, which faults past the end of the table.
  abbrev pub dispatch :
      {M R : Type 0} → (FdFunction S → Option M) → R → R → (M → Option R) → ℤ → FdTable D → Option R
  dispatch select bad refuse run fd t =
      if bad_fd fd
      then some bad
      else elim (get_elem? t (index fd)) [ none ↦ none | some e ↦ call_entry select refuse run e ]

  unfoldable pub sys_write : ℤ → List ℕ → Kernel D S → Option (Ret × Kernel D S)
  sys_write fd buf k =
      dispatch (λ f. f.fd_write) (err ebadf, k) (err ebadf, k)
        (λ write. Option.map (λ r. (r.0, record k { dev = r.1 })) (write (index fd) buf k.dev)) fd
        k.fdtable

  unfoldable pub sys_read : ℤ → ℕ → Kernel D S → Option (Ret × List ℕ × Kernel D S)
  sys_read fd count k =
      dispatch (λ f. f.fd_read) (err ebadf, [], k) (err ebadf, [], k)
        (λ read. Option.map (λ r. (r.0, r.1, record k { dev = r.2 })) (read (index fd) count k.dev))
        fd k.fdtable

  unfoldable pub sys_peek : ℤ → Kernel D S → Option (Ret × Kernel D S)
  sys_peek fd k =
      dispatch (λ f. f.fd_peek) (err ebadf, k) (err ebadf, k)
        (λ peek. Option.map (λ r. (r.0, record k { dev = r.1 })) (peek (index fd) k.dev)) fd
        k.fdtable

  unfoldable pub sys_ioctl : ℤ → ℕ → List ℕ → Kernel D S → Option (Ret × List ℕ × Kernel D S)
  sys_ioctl fd request ptr k =
      dispatch (λ f. f.fd_ioctl) (err ebadf, ptr, k) (err ebadf, ptr, k)
        (λ ioctl.
          Option.map (λ r. (r.0, r.1, record k { dev = r.2 })) (ioctl (index fd) request ptr k.dev))
        fd k.fdtable

  unfoldable pub sys_fstat : ℤ → Kernel D S → Option (Ret × List ℕ × Kernel D S)
  sys_fstat fd k =
      dispatch (λ f. f.fd_fstat) (err ebadf, [], k) (err ebadf, [], k)
        (λ fstat. Option.map (λ r. (r.0, r.1, record k { dev = r.2 })) (fstat (index fd) k.dev)) fd
        k.fdtable

  -- `ESPIPE` where the driver cannot seek, and where the descriptor is not open.
  unfoldable pub sys_lseek : ℤ → ℤ → ℕ → Kernel D S → Option (Ret × Kernel D S)
  sys_lseek fd offset whence k =
      dispatch (λ f. f.fd_lseek) (err ebadf, k) (err espipe, k)
        (λ lseek.
          Option.map (λ r. (r.0, record k { dev = r.1 })) (lseek (index fd) offset whence k.dev))
        fd k.fdtable

  -- Closing 0, 1 and 2 does nothing. The entry is given back only after a call of `fd_close`.
  unfoldable pub sys_close : ℤ → Kernel D S → Option (Ret × Kernel D S)
  sys_close fd k =
      if bad_fd fd
      then some (err ebadf, k)
      else if ltb (index fd) 3
      then some (val 0, k)
      else dispatch (λ f. f.fd_close) (err ebadf, k) (err ebadf, k)
          (λ close.
            Option.map (λ r. (r.0, record { fdtable = fd_dealloc k.fdtable (index fd); dev = r.1 }))
              (close (index fd) k.dev))
          fd k.fdtable
