-- ===== src/Fd/Invariant/Closing.antt =====
-- `SYS_close` and the invariant of `fdtable`.
use filestick.Base.{◌≤◌, ◌≡◌, refl, ◌⊎◌, inl, inr, some, arith, Ret}
use filestick.Base.Int.{ℤ, pos, negsuc}
use filestick.Fd.{FdFunction, Kernel, index, sys_close}
use filestick.Fd.Table.{min_fd_number, fd_dealloc, cleared}
use filestick.Fd.Invariant.{IsValid, modify-IsValid}

module _ {D S : Type 0} where
  -- A close leaves the table, or frees an entry above the standard ones.
  sys_close_table :
      (funcs : D → FdFunction S) (fd : ℤ) (k : Kernel D S) {r : Ret} {k' : Kernel D S}
      → sys_close funcs fd k ≡ some (r, k')
      → (k'.fdtable ≡ k.fdtable)
        ⊎ ((min_fd_number ≤ index fd) × (k'.fdtable ≡ fd_dealloc k.fdtable (index fd)))
  unfolding sys_close
  sys_close_table funcs (negsuc n) k h = ground arith
  sys_close_table funcs (pos n) k h = ground arith

  -- A close that returns keeps the invariant, for every descriptor and every driver.
  pub sys_close-IsValid :
      (funcs : D → FdFunction S) (fd : ℤ) (k : Kernel D S) {r : Ret} {k' : Kernel D S}
      → IsValid k.fdtable
      → sys_close funcs fd k ≡ some (r, k')
      → IsValid k'.fdtable
  unfolding fd_dealloc
  sys_close-IsValid funcs fd k v h = elim (sys_close_table funcs fd k h) [
    | inl q ↦ rw q v
    | inr (l, q) ↦ rw q (
        modify-IsValid k.fdtable (index fd) cleared v (λ e _ u. absurd (u refl))
          (λ e _ lt. absurd (omega arith)))
  ]
