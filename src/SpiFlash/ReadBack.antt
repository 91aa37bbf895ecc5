-- ===== src/SpiFlash/ReadBack.antt =====
-- `spiflash_read` on the contents of the device: what was written is read back.
use filestick.Base.{
  ℕ, zero, suc, ◌+◌, ◌-◌, ◌%◌, ◌^◌, ◌≤◌, ◌<◌, ◌≡◌, refl, ap, ap₂, ◌∙◌, ◌⊎◌, inl, inr, true, false,
  ◌&&◌, Option, some, List, [], ◌∷◌, arith, ltb, leb, Option-cases, length, get_elem?, get_elem?-lt,
  set, get_elem?-set_self, get_or, val,
}
use filestick.Base.Int.{pos}
use filestick.SpiFlash.Chip.{FlashChip, cells}
use filestick.SpiFlash.{
  State, OpenFd, find_fd, write_sector_size, spiflash_sync, spiflash_writebuffer, flash_memcpy,
}
use filestick.SpiFlash.Files.{spiflash_read, spiflash_write, spiflash_lseek, seek_target}
use filestick.SpiFlash.View.{IsFlash, view, spiflash_sync-view}
use filestick.SpiFlash.Write.{written}
use filestick.SpiFlash.Stream.{
  moved, moved-IsFlash, moved-view, moved-fd_list, spiflash_write-Streamed,
}

-- `n` bytes of contents `f` from `a` on.
abbrev pub range : (ℕ → ℕ) → ℕ → ℕ → List ℕ
range f a zero = []
range f a (suc n) = f a ∷ range f (a + 1) n

range-cong :
    (f g : ℕ → ℕ) (a n : ℕ) → ((x : ℕ) → a ≤ x → x < a + n → f x ≡ g x) → range f a n ≡ range g a n
range-cong f g a zero h = refl
range-cong f g a (suc n) h =
    ap₂ (λ x l. x ∷ l) (h a (omega arith) (omega arith))
      (range-cong f g (a + 1) n (λ x l m. h x (omega arith) (omega arith)))

cells-range : (fc : FlashChip) (c : fc.Chip) (a n : ℕ) → cells fc c a n ≡ range (fc.cell c) a n
cells-range fc c a zero = refl
cells-range fc c a (suc n) = ap (λ l. fc.cell c a ∷ l) (cells-range fc c (a + 1) n)

range-get_or :
    (bytes : List ℕ) (a : ℕ) → range (λ x. get_or bytes (x - a) 0xFF) a (length bytes) ≡ bytes
range-get_or [] a = refl
range-get_or (b ∷ bytes) a =
    let here : a - a ≡ 0 = omega arith in
    ap₂ (λ x l. x ∷ l) (ap (λ i. get_or (b ∷ bytes) i 0xFF) here)
      (range-cong _ _ (a + 1) (length bytes) (λ x l m. later x l) ∙ range-get_or bytes (a + 1))
  where
    later : (x : ℕ) → a + 1 ≤ x → get_or (b ∷ bytes) (x - a) 0xFF ≡ get_or bytes (x - (a + 1)) 0xFF
    later x l =
        let e : x - a ≡ suc (x - (a + 1)) = omega arith in ap (λ i. get_or (b ∷ bytes) i 0xFF) e

-- A change of a position keeps the numbers of the slots.
find_fd-set :
    (fd i ptr : ℕ) (o : OpenFd) (l : List OpenFd)
    → get_elem? l i ≡ some o
    → find_fd fd (set l i (record o { fileptr = ptr })) ≡ find_fd fd l
unfolding find_fd
find_fd-set fd i ptr o [] g = refl
find_fd-set fd zero ptr o (x ∷ l) g = ground arith
find_fd-set fd (suc i) ptr o (x ∷ l) g = rw (find_fd-set fd i ptr o l g) refl

module _ {H : Type 0} (fc : FlashChip) (kmalloc : ℕ → H → Option H) (kfree : H → H) where
  abbrev Driver : Type 0
  Driver = State fc kmalloc kfree

  spiflash_sync-fds : (s : Driver) → (spiflash_sync fc kmalloc kfree s).fd_list ≡ s.fd_list
  unfolding spiflash_sync spiflash_writebuffer
  spiflash_sync-fds s = elim (Option-cases s.writebuf) [
    | inl q ↦ rw (spiflash_sync, q) refl
    | inr (buf, q) ↦ rw (spiflash_sync, q) refl
  ]

  -- A read of at least four bytes by an open descriptor returns the contents of the device at its
  -- position, what is buffered included, and moves the position past them; it changes no byte of the
  -- device.
  pub spiflash_read-view :
      (fd i count : ℕ) (o : OpenFd) (s : Driver)
      → IsFlash fc kmalloc kfree s
      → find_fd fd s.fd_list ≡ some i
      → get_elem? s.fd_list i ≡ some o
      → 4 ≤ count
      → o.fileptr + count < 2 ^ 32
      → (s' : Driver) × (spiflash_read fc kmalloc kfree fd count s
          ≡ some (val count, range (view fc kmalloc kfree s) o.fileptr count, s'))
        × (s'.fd_list ≡ set s.fd_list i (record o { fileptr = o.fileptr + count }))
        × ((a : ℕ) → view fc kmalloc kfree s' a ≡ view fc kmalloc kfree s a)
  unfolding spiflash_read flash_memcpy moved
  spiflash_read-view fd i count o s v f g big fits =
      let s₁ = spiflash_sync fc kmalloc kfree s in
      let fds = spiflash_sync-fds s in
      let g₁ : get_elem? s₁.fd_list i ≡ some o = rw fds g in
      let same : cells fc s₁.chip o.fileptr count
          ≡ range (view fc kmalloc kfree s) o.fileptr count =
        cells-range fc s₁.chip o.fileptr count
        ∙ range-cong _ _ o.fileptr count
            (λ x l m. let (_, _, _, c) = spiflash_sync-view fc kmalloc kfree s x v in c) in
      let e : (o.fileptr + count) % 2 ^ 32 ≡ o.fileptr + count = omega arith in
      let t : ltb count 4 ≡ false = ground arith in
      (
        moved fc kmalloc kfree i o (o.fileptr + count) s₁,
        ground arith,
        moved-fd_list fc kmalloc kfree i o (o.fileptr + count) s₁ ∙ rw fds refl,
        λ a.
            moved-view fc kmalloc kfree i o (o.fileptr + count) s₁ a
            ∙ (let (_, _, c, _) = spiflash_sync-view fc kmalloc kfree s a v in c),
      )

  -- A seek to an absolute position.
  spiflash_lseek-moved :
      (fd i ptr : ℕ) (o : OpenFd) (s : Driver)
      → find_fd fd s.fd_list ≡ some i
      → get_elem? s.fd_list i ≡ some o
      → ptr < 2 ^ 32
      → spiflash_lseek fc kmalloc kfree fd (pos ptr) 0 s
        ≡ (val ptr, moved fc kmalloc kfree i o ptr s)
  unfolding spiflash_lseek seek_target moved
  spiflash_lseek-moved fd i ptr o s f g h = let e : ptr % 2 ^ 32 ≡ ptr = omega arith in ground arith

  range-written :
      (ptr : ℕ) (bytes : List ℕ) (f : ℕ → ℕ)
      → range (written fc kmalloc kfree ptr (length bytes) bytes f) ptr (length bytes) ≡ bytes
  range-written ptr bytes f =
      range-cong _ _ ptr (length bytes) (λ x l m.
        let e : (leb ptr x && ltb x (ptr + length bytes)) ≡ true = ground arith in rw e refl)
      ∙ range-get_or bytes ptr

  -- Bytes that are written through a descriptor are read back through it after a seek to where they
  -- were written: the write of four bytes or more, up to the end of the chip at most, reports all of
  -- them, the seek reports the position, and the read returns the same bytes. The bytes of the device
  -- before and after them are as they were. The state is well formed (`IsFlash`) at the start and the
  -- allocator succeeds.
  pub spiflash_read-spiflash_write :
      (fd i : ℕ) (o : OpenFd) (bytes : List ℕ) (s : Driver)
      → IsFlash fc kmalloc kfree s
      → find_fd fd s.fd_list ≡ some i
      → get_elem? s.fd_list i ≡ some o
      → o.fileptr + length bytes ≤ 2 ^ 24
      → 4 ≤ length bytes
      → ((h : H) → (h' : H) × (kmalloc write_sector_size h ≡ some h'))
      → (s₁ : Driver) × (s₂ : Driver) × (s₃ : Driver) × (spiflash_write fc kmalloc kfree fd bytes s
          ≡ some (val (length bytes), s₁))
        × (spiflash_lseek fc kmalloc kfree fd (pos o.fileptr) 0 s₁ ≡ (val o.fileptr, s₂))
        × (spiflash_read fc kmalloc kfree fd (length bytes) s₂
            ≡ some (val (length bytes), bytes, s₃))
        × ((a : ℕ)
            → (a < o.fileptr) ⊎ (o.fileptr + length bytes ≤ a)
            → view fc kmalloc kfree s₃ a ≡ view fc kmalloc kfree s a)
  spiflash_read-spiflash_write fd i o bytes s v f g on big alloc =
      let (s₁, w, t) =
        spiflash_write-Streamed fc kmalloc kfree fd i o bytes s v f g on (omega arith) alloc in
      let lt : i < length s.fd_list = get_elem?-lt s.fd_list i g in
      let o₁ : OpenFd = record o { fileptr = o.fileptr + length bytes } in
      let f₁ : find_fd fd s₁.fd_list ≡ some i =
        ap (find_fd fd) t.fds ∙ find_fd-set fd i _ o s.fd_list g ∙ f in
      let g₁ : get_elem? s₁.fd_list i ≡ some o₁ =
        ap (λ l. get_elem? l i) t.fds ∙ get_elem?-set_self s.fd_list i o₁ lt in
      let lt₁ : i < length s₁.fd_list = get_elem?-lt s₁.fd_list i g₁ in
      let s₂ = moved fc kmalloc kfree i o₁ o.fileptr s₁ in
      let fds₂ = moved-fd_list fc kmalloc kfree i o₁ o.fileptr s₁ in
      let f₂ : find_fd fd s₂.fd_list ≡ some i =
        ap (find_fd fd) fds₂ ∙ find_fd-set fd i o.fileptr o₁ s₁.fd_list g₁ ∙ f₁ in
      let g₂ : get_elem? s₂.fd_list i ≡ some o =
        ap (λ l. get_elem? l i) fds₂ ∙ get_elem?-set_self s₁.fd_list i o lt₁ in
      let (s₃, r, _, same) =
        spiflash_read-view fd i (length bytes) o s₂
          (moved-IsFlash fc kmalloc kfree i o₁ o.fileptr s₁ t.valid) f₂ g₂ big (omega arith) in
      let now : (a : ℕ)
          → view fc kmalloc kfree s₂ a
            ≡ written fc kmalloc kfree o.fileptr (length bytes) bytes (view fc kmalloc kfree s) a =
        λ a. moved-view fc kmalloc kfree i o₁ o.fileptr s₁ a ∙ t.contents a in
      let back : range (view fc kmalloc kfree s₂) o.fileptr (length bytes) ≡ bytes =
        range-cong _ _ o.fileptr (length bytes) (λ x l m. now x)
        ∙ range-written o.fileptr bytes (view fc kmalloc kfree s) in
      (
        s₁,
        s₂,
        s₃,
        w,
        spiflash_lseek-moved fd i o.fileptr o₁ s₁ f₁ g₁ (omega arith),
        r ∙ ap (λ b. some (val (length bytes), b, s₃)) back,
        λ a out. same a ∙ now a ∙ outside a (view fc kmalloc kfree s) out,
      )
    where
      outside :
          (a : ℕ) (m : ℕ → ℕ)
          → (a < o.fileptr) ⊎ (o.fileptr + length bytes ≤ a)
          → written fc kmalloc kfree o.fileptr (length bytes) bytes m a ≡ m a
      outside a m out =
          let e : (leb o.fileptr a && ltb a (o.fileptr + length bytes)) ≡ false = ground arith in
          rw e refl
