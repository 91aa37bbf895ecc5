-- ===== src/Fd/Table.antt =====
-- `fdtable`, `fd_alloc` and `fd_dealloc` of system/fd.c.
pub mod Laws
use mathlib.Core.Option
use filestick.Base.{
  ℕ, zero, suc, ◌+◌, Option, none, some, List, [], ◌∷◌, ◌==◌, if◌then◌else◌, replicate,
}

abbrev pub max_file_descriptors : ℕ
max_file_descriptors = 16

abbrev pub min_fd_number : ℕ
min_fd_number = 3

abbrev pub flag_allocated : ℕ
flag_allocated = 0x8000_0000

-- `FD`. `priv` is the pointer `data`, 0 for NULL; no driver uses it.
pub record Fd (D : Type 0) : Type 0 where
  pub flags : ℕ
  pub fdfunc : Option D
  pub priv : ℕ
  pub fd : ℕ

abbrev pub FdTable : Type 0 → Type 0
FdTable D = List (Fd D)

-- An entry of `memset(fdtable, 0, sizeof(fdtable))`.
abbrev pub zeroed : (D : Type 0) → Fd D
zeroed D = record { flags = 0; fdfunc = none; priv = 0; fd = 0 }

abbrev pub empty_table : (D : Type 0) → FdTable D
empty_table D = replicate max_file_descriptors (zeroed D)

module _ {D : Type 0} where
  -- The loop of `fd_alloc`, from entry `i` on. It hands out the number and marks the entry.
  unfoldable pub alloc_from : ℕ → FdTable D → Option (ℕ × FdTable D)
  alloc_from i [] = none
  alloc_from i (e ∷ t) =
      if e.flags == 0
      then some (i, record e { flags = flag_allocated; fd = i } ∷ t)
      else Option.map (λ r. (r.0, e ∷ r.1)) (alloc_from (i + 1) t)

  unfoldable pub fd_alloc : FdTable D → Option (ℕ × FdTable D)
  fd_alloc t = alloc_from 0 t

  -- A change of the entry that a pointer into the table names.
  unfoldable pub modify : FdTable D → ℕ → (Fd D → Fd D) → FdTable D
  modify [] i f = []
  modify (e ∷ t) zero f = f e ∷ t
  modify (e ∷ t) (suc i) f = e ∷ modify t i f

  -- What `fd_dealloc` writes. The number `fd` stays.
  abbrev pub cleared : Fd D → Fd D
  cleared e = record e { flags = 0; fdfunc = none; priv = 0 }

  unfoldable pub fd_dealloc : FdTable D → ℕ → FdTable D
  fd_dealloc t i = modify t i cleared
