-- ===== src/Fd/Invariant/Opening.antt =====
-- What `open_device`, and any other way to open a descriptor, does to `fdtable`.
use native.Mathlib.Decide.{dec_lt}
use mathlib.Core.Path.{subst}
use filestick.Base.{
  ℕ, ◌≤◌, ◌<◌, bit_or, ◌≡◌, refl, sym, ap, ◌∙◌, ◌≢◌, Option, none, some, List, arith, get_elem?,
  get_elem?-lt, Errno, enoent, emfile, Ret, val, err,
}
use filestick.Base.Bits.{le-bit_or}
use filestick.Fd.{Kernel}
use filestick.Fd.Table.{
  Fd, FdTable, flag_allocated, max_file_descriptors, min_fd_number, fd_alloc, modify, fd_dealloc,
  cleared,
}
use filestick.Fd.Table.Laws.{
  get-modify_self, get-modify_ne, modify-modify, Allocated, fd_alloc-Allocated, alloc_from-none,
}
use filestick.Fd.Open.{
  DevOpen, Opened, opened, failed, find_device, finish_open, open_found, open_allocated,
  open_device,
}
use filestick.Fd.Invariant.{IsValid, modify-IsValid}

module _ {D : Type 0} where
  -- What opening a descriptor can do to the table: nothing is free; an entry was taken and given
  -- back; entry `n`, the first free one, is now open.
  pub data OpenEffect (flags : ℕ) (t : FdTable D) (r : Ret) (t' : FdTable D) : Type 0 where
    full :
        ((i : ℕ) (e : Fd D) → get_elem? t i ≡ some e → e.flags ≢ 0)
        → r ≡ err emfile
        → t' ≡ t
        → OpenEffect flags t r t'
    given_back :
        (n : ℕ) (x : Errno) (e : Fd D)
        → get_elem? t n ≡ some e
        → e.flags ≡ 0
        → r ≡ err x
        → t' ≡ modify t n (λ e. cleared (record e { fd = n }))
        → OpenEffect flags t r t'
    taken :
        (n : ℕ) (d : D) (e : Fd D)
        → get_elem? t n ≡ some e
        → e.flags ≡ 0
        → ((j : ℕ) (e : Fd D) → j < n → get_elem? t j ≡ some e → e.flags ≢ 0)
        → r ≡ val n
        → t'
          ≡ modify t n
              (λ e. record e { flags = bit_or flag_allocated flags; fd = n; fdfunc = some d })
        → OpenEffect flags t r t'

  -- Every way to open a descriptor keeps the invariant.
  pub OpenEffect-IsValid :
      {flags : ℕ} {t : FdTable D} {r : Ret} {t' : FdTable D}
      → OpenEffect flags t r t'
      → IsValid t
      → IsValid t'
  OpenEffect-IsValid (full _ _ q) v = rw q v
  OpenEffect-IsValid {flags} {t} (given_back n x e g f _ q) v =
      rw q (modify-IsValid t n _ v (λ y _ u. absurd (u refl)) (λ y h l. absurd (v.std n e l g f)))
  OpenEffect-IsValid {flags} {t} (taken n d e g f _ _ q) v = rw q (
      modify-IsValid t n _ v (λ y _ _. record { driver = d; is_driver = refl; own_number = refl })
        (λ y h l. omega (arith, le-bit_or flag_allocated flags)))

  -- What a successful open says of its descriptor.
  pub record IsFresh (flags : ℕ) (t : FdTable D) (n : ℕ) (t' : FdTable D) : Type 0 where
    pub above_std : min_fd_number ≤ n
    pub in_table : n < max_file_descriptors
    pub least : (j : ℕ) (e : Fd D) → j < n → get_elem? t j ≡ some e → e.flags ≢ 0
    pub entry : Fd D
    pub was : get_elem? t n ≡ some entry
    pub free : entry.flags ≡ 0
    pub driver : D
    pub now :
        get_elem? t' n
        ≡ some (record entry { flags = bit_or flag_allocated flags; fd = n; fdfunc = some driver })
    pub others : (j : ℕ) → j ≢ n → get_elem? t' j ≡ get_elem? t j

  taken-IsFresh :
      {flags n : ℕ} {t t' : FdTable D} (d : D) (e : Fd D)
      → IsValid t
      → get_elem? t n ≡ some e
      → e.flags ≡ 0
      → ((j : ℕ) (e : Fd D) → j < n → get_elem? t j ≡ some e → e.flags ≢ 0)
      → t'
        ≡ modify t n
            (λ e. record e { flags = bit_or flag_allocated flags; fd = n; fdfunc = some d })
      → IsFresh flags t n t'
  taken-IsFresh {flags} {n} {t} d e v g f l m = record {
    above_std = elim (dec_lt n min_fd_number) [
      | yes lt ↦ absurd (v.std n e lt g f)
      | no ge ↦ omega arith
    ];
    in_table = omega (arith, v.size, get_elem?-lt t n g);
    least = l;
    entry = e;
    was = g;
    free = f;
    driver = d;
    now = rw m (get-modify_self t n _ g);
    others = λ j ne. rw m (get-modify_ne t n j _ (λ q. ne (sym q)));
  }

  pub OpenEffect-IsFresh :
      {flags : ℕ} {t : FdTable D} {r : Ret} {t' : FdTable D} {n : ℕ}
      → OpenEffect flags t r t'
      → IsValid t
      → r ≡ val n
      → IsFresh flags t n t'
  OpenEffect-IsFresh (full _ p q) v h = absurd (ground arith)
  OpenEffect-IsFresh (given_back n x e g f p q) v h = absurd (ground arith)
  OpenEffect-IsFresh {flags} {t} {r} {t'} (taken n d e g f l p q) v h =
      subst (λ m. IsFresh flags t m t') (ground arith) (taken-IsFresh d e v g f l q)

  pub alloc_at :
      {t t' : FdTable D} {n : ℕ}
      → Allocated 0 t n t'
      → (e : Fd D) × (get_elem? t n ≡ some e)
        × (e.flags ≡ 0)
        × ((j : ℕ) (e : Fd D) → j < n → get_elem? t j ≡ some e → e.flags ≢ 0)
        × (t' ≡ modify t n (λ e. record e { flags = flag_allocated; fd = n }))
  alloc_at {t} {t'} {n} a =
      let p : a.off ≡ n = omega (arith, a.number) in
      (
        a.entry,
        rw (← p) a.was,
        a.free,
        rw (← p) a.least,
        a.marked ∙ ap (λ i. modify t i (λ e. record e { flags = flag_allocated; fd = n })) p,
      )

  pub alloc-none :
      (t : FdTable D)
      → fd_alloc t ≡ none
      → (i : ℕ) (e : Fd D) → get_elem? t i ≡ some e
      → e.flags ≢ 0
  unfolding fd_alloc
  alloc-none t h i e g = alloc_from-none 0 t i e h g

module _ {D S : Type 0} where
  finish_open-OpenEffect :
      (t : FdTable D) {t₁ : FdTable D} (n flags : ℕ) (o : Opened D S)
      → Allocated 0 t n t₁
      → OpenEffect flags t (finish_open n flags t₁ o).0 (finish_open n flags t₁ o).1.fdtable
  unfolding fd_dealloc
  finish_open-OpenEffect t n flags (opened d s) a =
      let (e, g, f, l, m) = alloc_at a in taken n d e g f l refl (rw m (modify-modify t n _ _))
  finish_open-OpenEffect t n flags (failed x s) a =
      let (e, g, f, l, m) = alloc_at a in given_back n x e g f refl (rw m (modify-modify t n _ _))

  open_found-OpenEffect :
      (n flags : ℕ) (t₁ : FdTable D) (k : Kernel D S) (d : Option (DevOpen D S))
      → Allocated 0 k.fdtable n t₁
      → let (r, k') = open_found n flags t₁ k d in OpenEffect flags k.fdtable r k'.fdtable
  unfolding fd_dealloc
  open_found-OpenEffect n flags t₁ k none a =
      let (e, g, f, l, m) = alloc_at a in
      given_back n enoent e g f refl (rw m (modify-modify k.fdtable n _ _))
  open_found-OpenEffect n flags t₁ k (some d) a =
      finish_open-OpenEffect k.fdtable n flags (d.open_device_impl n k.dev) a

  open_allocated-OpenEffect :
      (open_table : List (DevOpen D S)) (devname : List ℕ) (flags : ℕ) (k : Kernel D S)
      (o : Option (ℕ × FdTable D))
      → fd_alloc k.fdtable ≡ o
      → let (r, k') = open_allocated open_table devname flags k o in
        OpenEffect flags k.fdtable r k'.fdtable
  open_allocated-OpenEffect open_table devname flags k none h =
      full (alloc-none k.fdtable h) refl refl
  open_allocated-OpenEffect open_table devname flags k (some (n, t₁)) h =
      open_found-OpenEffect n flags t₁ k (find_device devname open_table)
        (fd_alloc-Allocated k.fdtable h)

  pub open_device-OpenEffect :
      (open_table : List (DevOpen D S)) (devname : List ℕ) (flags : ℕ) (k : Kernel D S)
      → let (r, k') = open_device open_table devname flags k in
        OpenEffect flags k.fdtable r k'.fdtable
  unfolding open_device
  open_device-OpenEffect open_table devname flags k =
      open_allocated-OpenEffect open_table devname flags k (fd_alloc k.fdtable) refl

  -- `open_device` keeps the invariant of the descriptor table, whatever device it is asked for and
  -- however the device's implementation answers.
  pub open_device-IsValid :
      (open_table : List (DevOpen D S)) (devname : List ℕ) (flags : ℕ) (k : Kernel D S)
      → IsValid k.fdtable
      → IsValid (open_device open_table devname flags k).1.fdtable
  open_device-IsValid open_table devname flags k v =
      OpenEffect-IsValid (open_device-OpenEffect open_table devname flags k) v

  -- On a valid table, a descriptor that `open_device` returns lies in 3 … 15, was the lowest free
  -- one, and afterwards is open with its number and flags; the other entries are as they were.
  pub open_device-IsFresh :
      (open_table : List (DevOpen D S)) (devname : List ℕ) (flags : ℕ) (k : Kernel D S) {n : ℕ}
      → IsValid k.fdtable
      → (open_device open_table devname flags k).0 ≡ val n
      → IsFresh flags k.fdtable n (open_device open_table devname flags k).1.fdtable
  open_device-IsFresh open_table devname flags k v h =
      OpenEffect-IsFresh (open_device-OpenEffect open_table devname flags k) v h
