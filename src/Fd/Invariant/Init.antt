-- ===== src/Fd/Invariant/Init.antt =====
-- `fd_init` of system/fd.c: the descriptor table that the kernel starts with.
use filestick.Base.{
  ℕ, zero, suc, ◌<◌, ◌≤◌, ◌≡◌, refl, ap, ◌∙◌, ◌≢◌, none, some, List, ◌∷◌, arith, get_elem?, bit_or,
  replicate,
}
use filestick.Base.Text.{codes}
use filestick.Fd.{Kernel}
use filestick.Fd.Table.{
  Fd, FdTable, empty_table, zeroed, flag_allocated, alloc_from, fd_alloc, modify,
}
use filestick.Fd.Open.{DevOpen, opened, find_device, open_device, fd_init}
use filestick.Fd.Invariant.{IsOpen, IsValid}

module _ {D : Type 0} where
  get-zeroed : (n i : ℕ) (e : Fd D) → get_elem? (replicate n (zeroed D)) i ≡ some e → e.flags ≡ 0
  get-zeroed zero i e h = absurd (ground arith)
  get-zeroed (suc n) zero e h = ground arith
  get-zeroed (suc n) (suc i) e h = get-zeroed n i e h

  -- A standard descriptor.
  abbrev std_fd : ℕ → ℕ → D → Fd D
  std_fd n flags d = record {
    flags = bit_or flag_allocated flags;
    fdfunc = some d;
    priv = 0;
    fd = n;
  }

  abbrev std_table : D → D → D → FdTable D
  std_table a b c = std_fd 0 0 a ∷ std_fd 1 1 b ∷ std_fd 2 1 c ∷ replicate 13 (zeroed D)

  std_fd-IsOpen : (n flags : ℕ) (d : D) (e : Fd D) → some (std_fd n flags d) ≡ some e → IsOpen n e
  std_fd-IsOpen n flags d e h = record {
    driver = d;
    is_driver = ground arith;
    own_number = ground arith;
  }

  std_table-used :
      (a b c : D) (i : ℕ) (e : Fd D)
      → get_elem? (std_table a b c) i ≡ some e
      → e.flags ≢ 0
      → IsOpen i e
  std_table-used a b c zero e h u = std_fd-IsOpen 0 0 a e h
  std_table-used a b c (suc zero) e h u = std_fd-IsOpen 1 1 b e h
  std_table-used a b c (suc (suc zero)) e h u = std_fd-IsOpen 2 1 c e h
  std_table-used a b c (suc (suc (suc i))) e h u = absurd (u (get-zeroed 13 i e h))

  std_table-std :
      (a b c : D) (i : ℕ) (e : Fd D) → i < 3 → get_elem? (std_table a b c) i ≡ some e → e.flags ≢ 0
  std_table-std a b c zero e l h = ground arith
  std_table-std a b c (suc zero) e l h = ground arith
  std_table-std a b c (suc (suc zero)) e l h = ground arith
  std_table-std a b c (suc (suc (suc i))) e l h = absurd (omega arith)

  std_table-IsValid : (a b c : D) → IsValid (std_table a b c)
  std_table-IsValid a b c = record {
    size = refl;
    used = std_table-used a b c;
    std = std_table-std a b c;
  }

  std_table_entry :
      (d : D) (n : ℕ) (e : Fd D)
      → get_elem? (std_table d d d) n ≡ some e
      → (n < 3 → e.fdfunc ≡ some d) × (3 ≤ n → e.flags ≡ 0)
  std_table_entry d zero e h = (λ _. ground arith, λ l. absurd (omega arith))
  std_table_entry d (suc zero) e h = (λ _. ground arith, λ l. absurd (omega arith))
  std_table_entry d (suc (suc zero)) e h = (λ _. ground arith, λ l. absurd (omega arith))
  std_table_entry d (suc (suc (suc i))) e h = (λ l. absurd (omega arith), λ _. get-zeroed 13 i e h)

  -- An entry that is allocated and not yet filled in.
  abbrev fresh : ℕ → Fd D
  fresh n = record { flags = flag_allocated; fdfunc = none; priv = 0; fd = n }

module _ {D S : Type 0} where
  -- Opening the console in a table where entry `n` is the first free one.
  opens_console :
      (open_table : List (DevOpen D S)) (flags n : ℕ) (k : Kernel D S) (t : FdTable D)
      (dev : DevOpen D S) (d : D) (s : S)
      → find_device (codes "console") open_table ≡ some dev
      → dev.open_device_impl n k.dev ≡ opened d s
      → fd_alloc k.fdtable ≡ some (n, t)
      → (open_device open_table (codes "console") flags k).1 ≡ record {
        fdtable = modify t n (λ e. record e { fdfunc = some d; flags = bit_or e.flags flags });
        dev = s;
      }
  unfolding open_device
  opens_console open_table flags n k t dev d s f o a = rw (open_device, a, f, o) refl

  abbrev opens : List (DevOpen D S) → ℕ → Kernel D S → Kernel D S
  opens open_table flags k = (open_device open_table (codes "console") flags k).1

  abbrev kernel : FdTable D → S → Kernel D S
  kernel t s = record { fdtable = t; dev = s }

  fd_init_table :
      (open_table : List (DevOpen D S)) (dev : DevOpen D S) (d : D) (s : S)
      → find_device (codes "console") open_table ≡ some dev
      → ((n : ℕ) (s : S) → dev.open_device_impl n s ≡ opened d s)
      → fd_init open_table s ≡ kernel (std_table d d d) s
  unfolding fd_init fd_alloc alloc_from modify
  fd_init_table open_table dev d s f o =
      let t₀ : FdTable D = empty_table D in
      let t₁ : FdTable D = std_fd 0 0 d ∷ replicate 15 (zeroed D) in
      let t₂ : FdTable D = std_fd 0 0 d ∷ std_fd 1 1 d ∷ replicate 14 (zeroed D) in
      ap (λ k. opens open_table 1 (opens open_table 1 k))
        (opens_console open_table 0 0 (kernel t₀ s) (fresh 0 ∷ replicate 15 (zeroed D)) dev d s f
          (o 0 s) refl)
      ∙ ap (λ k. opens open_table 1 k)
          (opens_console open_table 1 1 (kernel t₁ s)
            (std_fd 0 0 d ∷ fresh 1 ∷ replicate 14 (zeroed D)) dev d s f (o 1 s) refl)
      ∙ opens_console open_table 1 2 (kernel t₂ s)
          (std_fd 0 0 d ∷ std_fd 1 1 d ∷ fresh 2 ∷ replicate 13 (zeroed D)) dev d s f (o 2 s) refl

  -- The kernel starts with a valid table, if the console is among the devices and opens every time:
  -- descriptors 0, 1 and 2 are the console, and the others are free.
  pub fd_init-IsValid :
      (open_table : List (DevOpen D S)) (dev : DevOpen D S) (d : D) (s : S)
      → find_device (codes "console") open_table ≡ some dev
      → ((n : ℕ) (s : S) → dev.open_device_impl n s ≡ opened d s)
      → IsValid (fd_init open_table s).fdtable
        × ((n : ℕ) (e : Fd D)
            → get_elem? (fd_init open_table s).fdtable n ≡ some e
            → (n < 3 → e.fdfunc ≡ some d) × (3 ≤ n → e.flags ≡ 0))
  fd_init-IsValid open_table dev d s f o =
      rw (fd_init_table open_table dev d s f o) ((std_table-IsValid d d d, std_table_entry d))
