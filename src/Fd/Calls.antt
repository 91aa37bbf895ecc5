-- ===== src/Fd/Calls.antt =====
-- How the system calls of system/fd.c dispatch: what they do for every number, and what a driver
-- without the method asked for leads to.
use native.Mathlib.Decide.{ℕ_discrete, dec_lt}
use filestick.Base.{
  ℕ, ◌≤◌, ◌<◌, ◌≡◌, refl, sym, ap, ◌≢◌, ◌⊎◌, inl, inr, true, false, Option, none, some, List, arith,
  ltb, Option-cases, length, get_elem?, get_elem?_of_lt, get_elem?-none, ebadf, Ret, err,
}
use filestick.Base.Int.{ℤ, pos, negsuc}
use filestick.Fd.{
  FdFunction, Kernel, bad_fd, index, call_entry, dispatch, sys_read, sys_write, sys_peek, sys_ioctl,
  sys_fstat, sys_lseek, sys_close,
}
use filestick.Fd.Table.{Fd, FdTable, max_file_descriptors, min_fd_number, fd_dealloc}
use filestick.Fd.Table.Laws.{get-modify_self, get-modify_ne}
use filestick.Fd.Invariant.{IsOpen, IsValid}

module _ {D S : Type 0} (funcs : D → FdFunction S) where
  -- The calls that test `fd > MAX_FILE_DESCRIPTORS` accept the number 16, one past the last entry
  -- of the table: every one of them, `SYS_close` included, reads outside `fdtable`.
  pub syscalls_past_end :
      (k : Kernel D S) (buf : List ℕ) (count request whence : ℕ) (ptr : List ℕ) (offset : ℤ)
      → length k.fdtable ≡ max_file_descriptors
      → let fd = pos max_file_descriptors in
        (sys_write funcs fd buf k ≡ none)
        × (sys_read funcs fd count k ≡ none)
        × (sys_peek funcs fd k ≡ none)
        × (sys_ioctl funcs fd request ptr k ≡ none)
        × (sys_fstat funcs fd k ≡ none)
        × (sys_lseek funcs fd offset whence k ≡ none)
        × (sys_close funcs fd k ≡ none)
  unfolding sys_read sys_write sys_peek sys_ioctl sys_fstat sys_lseek sys_close
  syscalls_past_end k buf count request whence ptr offset h =
      let e : get_elem? k.fdtable 16 ≡ none = get_elem?-none k.fdtable 16 (omega arith) in
      (rw e, rw e, rw e, rw e, rw e, rw e, rw e)

  -- What a dispatched call comes to: the refusal, or the driver's own function.
  pub data Dispatched {M R : Type 0} (select : FdFunction S → Option M) (bad refuse : R)
      (run : M → Option R) (fd : ℤ) (t : FdTable D) (out : Option R) : Type 0 where
    out_of_range : bad_fd fd ≡ true → out ≡ some bad → Dispatched select bad refuse run fd t out
    refused :
        (e : Fd D)
        → get_elem? t (index fd) ≡ some e
        → (e.flags ≡ 0) ⊎ ((d : D) × (e.fdfunc ≡ some d) × (select (funcs d) ≡ none))
        → out ≡ some refuse
        → Dispatched select bad refuse run fd t out
    called :
        (e : Fd D) (d : D) (m : M)
        → get_elem? t (index fd) ≡ some e
        → e.flags ≢ 0
        → e.fdfunc ≡ some d
        → select (funcs d) ≡ some m
        → out ≡ run m
        → Dispatched select bad refuse run fd t out

  dispatch_entry :
      {M R : Type 0} (select : FdFunction S → Option M) (bad refuse : R) (run : M → Option R)
      (n : ℕ) (t : FdTable D) (e : Fd D)
      → get_elem? t n ≡ some e
      → (e.flags ≢ 0 → IsOpen n e)
      → Dispatched select bad refuse run (pos n) t (call_entry funcs select refuse run e)
  dispatch_entry select bad refuse run n t e g o = elim (ℕ_discrete e.flags 0) [
    | yes z ↦ refused e g (inl z) (ground arith)
    | no u ↦ elim (Option-cases (select (funcs (o u).driver))) [
      | inl q ↦
          refused e g (inr ((o u).driver, (o u).is_driver, q)) (ground (arith, (o u).is_driver))
      | inr (m, q) ↦ called e (o u).driver m g u (o u).is_driver q (ground (arith, (o u).is_driver))
    ]
  ]

  -- On a valid table a call faults neither on the table nor on a null `fdfunc`: for every number
  -- but 16 it is refused, or it is the function of the driver that the entry names.
  pub dispatch-Dispatched :
      {M R : Type 0} (select : FdFunction S → Option M) (bad refuse : R) (run : M → Option R)
      (fd : ℤ) (t : FdTable D)
      → IsValid t
      → fd ≢ pos max_file_descriptors
      → Dispatched select bad refuse run fd t (dispatch funcs select bad refuse run fd t)
  dispatch-Dispatched select bad refuse run (negsuc n) t v ne = out_of_range refl refl
  dispatch-Dispatched select bad refuse run (pos n) t v ne = elim (dec_lt n 16) [
    | yes lt ↦
        let (e, g) = get_elem?_of_lt t n (omega (arith, v.size)) in
        let small : ltb 16 n ≡ false = ground arith in
        rw (small, g) (dispatch_entry select bad refuse run n t e g (v.used n e g))
    | no ge ↦ elim (ℕ_discrete n 16) [
      | yes q ↦ absurd (ne (ap pos q))
      | no d ↦ let big : ltb 16 n ≡ true = ground arith in out_of_range big (rw big)
    ]
  ]

  -- Closing an open descriptor above the standard ones whose driver has no `fd_close`, such as the
  -- console's, is refused with EBADF and changes nothing: the entry is never given back.
  pub sys_close-keeps :
      (k : Kernel D S) (n : ℕ) (e : Fd D) (d : D)
      → min_fd_number ≤ n
      → n < max_file_descriptors
      → get_elem? k.fdtable n ≡ some e
      → e.fdfunc ≡ some d
      → (funcs d).fd_close ≡ none
      → sys_close funcs (pos n) k ≡ some (err ebadf, k)
  unfolding sys_close
  sys_close-keeps k n e d l h g f c = ground arith

  -- Closing an open descriptor above the standard ones whose driver's `fd_close` returns `r` hands
  -- `r` on, whatever it is, and frees that entry and no other.
  pub sys_close-frees :
      (k : Kernel D S) (n : ℕ) (e : Fd D) (d : D) (close : ℕ → S → Option (Ret × S)) (r : Ret)
      (s : S)
      → min_fd_number ≤ n
      → n < max_file_descriptors
      → get_elem? k.fdtable n ≡ some e
      → e.flags ≢ 0
      → e.fdfunc ≡ some d
      → (funcs d).fd_close ≡ some close
      → close n k.dev ≡ some (r, s)
      → (t : FdTable D) × (sys_close funcs (pos n) k ≡ some (r, record { fdtable = t; dev = s }))
        × (get_elem? t n ≡ some (record e { flags = 0; fdfunc = none; priv = 0 }))
        × ((j : ℕ) → j ≢ n → get_elem? t j ≡ get_elem? k.fdtable j)
  unfolding sys_close fd_dealloc
  sys_close-frees k n e d close r s l h g u f c q = (
    fd_dealloc k.fdtable n,
    ground arith,
    get-modify_self k.fdtable n _ g,
    λ j ne. get-modify_ne k.fdtable n j _ (λ p. ne (sym p)),
  )
