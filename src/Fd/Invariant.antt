-- ===== src/Fd/Invariant.antt =====
-- The invariant of `fdtable` between two system calls.
pub mod Opening
pub mod Closing
pub mod Init
use native.Mathlib.Decide.{ℕ_discrete}
use native.Mathlib.Decide.{dec_lt}
use mathlib.Core.Path.{subst}
use filestick.Base.{
  ℕ, zero, suc, ◌+◌, ◌-◌, ◌*◌, ◌/◌, ◌%◌, ◌^◌, ◌≤◌, ◌<◌, min, max, bit_and, bit_or, bit_xor, ◌≡◌,
  refl, sym, ap, ap₂, ◌∙◌, fun_ext, ◌≢◌, ◌↔◌, ◌⊎◌, inl, inr, Bool, true, false, not, ◌&&◌, ◌||◌,
  Option, none, some, List, [], ◌∷◌, ◌++◌, map, append-nil, append_assoc, arith, ltb, leb, ◌==◌,
  if◌then◌else◌, ltb→lt, lt→ltb, leb→le, ==_iff, tests, Bool-cases, Option-cases, length, get_elem?,
  get_elem?-lt, get_elem?_of_lt, get_elem?-none, set, length-append, length-set, get_elem?-set_self,
  get_elem?-set_ne, get_or, take, drop, replicate, take-append-drop, length-take, length-drop,
  length-replicate, length-map, Errno, enoent, eio, enoexec, ebadf, enomem, eexist, einval, enfile,
  emfile, espipe, erofs, emsgsize, edestaddrreq, ehostunreach, etimedout, efatfs, Ret, val, err,
}
use filestick.Base.Bits.{le-bit_or}
use filestick.Base.Int.{ℤ, pos, negsuc}
use filestick.Fd.{FdFunction, Kernel, bad_fd, index, sys_close}
use filestick.Fd.Table.{
  Fd, FdTable, flag_allocated, max_file_descriptors, min_fd_number, fd_alloc, modify, fd_dealloc,
  cleared,
}
use filestick.Fd.Table.Laws.{
  length-modify, get-modify_self, get-modify_ne, get-modify_inv, modify-modify, Allocated,
  fd_alloc-Allocated, alloc_from-none,
}
use filestick.Fd.Open.{
  DevOpen, Opened, opened, failed, find_device, finish_open, open_found, open_allocated,
  open_device,
}

module _ {D : Type 0} where
  -- A used entry of number `i` has its function table and knows its number.
  pub record IsOpen (i : ℕ) (e : Fd D) : Type 0 where
    pub driver : D
    pub is_driver : e.fdfunc ≡ some driver
    pub own_number : e.fd ≡ i

  pub record IsValid (t : FdTable D) : Type 0 where
    pub size : length t ≡ max_file_descriptors
    pub used : (i : ℕ) (e : Fd D) → get_elem? t i ≡ some e → e.flags ≢ 0 → IsOpen i e
    pub std : (i : ℕ) (e : Fd D) → i < min_fd_number → get_elem? t i ≡ some e → e.flags ≢ 0

  -- Changing one entry keeps the invariant if the new entry is free or open, and not free below 3.
  pub modify-IsValid :
      (t : FdTable D) (n : ℕ) (f : Fd D → Fd D)
      → IsValid t
      → ((e : Fd D) → get_elem? t n ≡ some e → (f e).flags ≢ 0 → IsOpen n (f e))
      → ((e : Fd D) → get_elem? t n ≡ some e → n < min_fd_number → (f e).flags ≢ 0)
      → IsValid (modify t n f)
  modify-IsValid t n f v good keep = record {
    size = length-modify t n f ∙ v.size;
    used = λ i e g u. elim (get-modify_inv t n f i e g) [
      | inl (p, r) ↦ used_here i e p r u
      | inr q ↦ v.used i e q u
    ];
    std = λ i e l g. elim (get-modify_inv t n f i e g) [
      | inl (p, r) ↦ std_here i e p r l
      | inr q ↦ v.std i e l q
    ];
  }
    where
      used_here :
          (i : ℕ) (e : Fd D)
          → i ≡ n
          → (x : Fd D) × (get_elem? t i ≡ some x) × (e ≡ f x)
          → e.flags ≢ 0
          → IsOpen i e
      used_here i e p (x, g, q) u = rw (p, q) (good x (rw p at g) (rw q at u))

      std_here :
          (i : ℕ) (e : Fd D)
          → i ≡ n
          → (x : Fd D) × (get_elem? t i ≡ some x) × (e ≡ f x)
          → i < min_fd_number
          → e.flags ≢ 0
      std_here i e p (x, g, q) l = rw q (keep x (rw p at g) (rw p at l))
