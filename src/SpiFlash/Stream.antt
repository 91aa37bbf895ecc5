-- ===== src/SpiFlash/Stream.antt =====
-- `spiflash_write` as a whole: the loop over the sectors ends, and the bytes are all there.
use filestick.Base.{
  ℕ, zero, suc, ◌+◌, ◌-◌, ◌%◌, ◌^◌, ◌≤◌, ◌<◌, ◌≡◌, refl, ap, ◌∙◌, fun_ext, inl, inr, true, false,
  ◌&&◌, Option, none, some, List, arith, ltb, leb, if◌then◌else◌, Bool-cases, length, get_elem?,
  get_elem?-lt, set, get_elem?-set_self, set-set, get_or, drop, length-drop, val,
}
use filestick.SpiFlash.Chip.{FlashChip}
use filestick.SpiFlash.{State, OpenFd, find_fd, write_sector_size}
use filestick.SpiFlash.Files.{write_loop, spiflash_write, spiflash_write_to_sector}
use filestick.SpiFlash.Sector.{get_or-drop}
use filestick.SpiFlash.View.{IsFlash, view}
use filestick.SpiFlash.Write.{Wrote, written}
use filestick.SpiFlash.Contents.{spiflash_write_to_sector-Wrote}

module _ {H : Type 0} (fc : FlashChip) (kmalloc : ℕ → H → Option H) (kfree : H → H) where
  abbrev Driver : Type 0
  Driver = State fc kmalloc kfree

  -- The contents after a write of the first bytes and then of the rest.
  written-written :
      (ptr n : ℕ) (bytes : List ℕ) (f : ℕ → ℕ) (a : ℕ)
      → n ≤ length bytes
      → written fc kmalloc kfree
          (ptr + n)
          (length bytes - n)
          (drop n bytes)
          (written fc kmalloc kfree ptr n bytes f)
          a
        ≡ written fc kmalloc kfree ptr (length bytes) bytes f a
  written-written ptr n bytes f a h = elim (Bool-cases (leb ptr a && ltb a (ptr + n))) [
    | inl e ↦
        let p : (leb (ptr + n) a && ltb a (ptr + n + (length bytes - n))) ≡ false = ground arith in
        let q : (leb ptr a && ltb a (ptr + length bytes)) ≡ true = ground arith in rw (p, e, q) refl
    | inr e ↦ elim (Bool-cases (leb ptr a && ltb a (ptr + length bytes))) [
      | inl q ↦
          let p : (leb (ptr + n) a && ltb a (ptr + n + (length bytes - n))) ≡ true = ground arith in
          let i : n + (a - (ptr + n)) ≡ a - ptr = ground arith in
          rw (p, q) (get_or-drop bytes n (a - (ptr + n)) 0xFF ∙ ap (λ x. get_or bytes x 0xFF) i)
      | inr q ↦
          let p : (leb (ptr + n) a && ltb a (ptr + n + (length bytes - n))) ≡ false =
            ground arith in
          rw (p, q, e) refl
    ]
  ]

  pub record Streamed (i : ℕ) (o : OpenFd) (bytes : List ℕ) (s s' : Driver) : Type 0 where
    pub valid : IsFlash fc kmalloc kfree s'
    pub fds : s'.fd_list ≡ set s.fd_list i (record o { fileptr = o.fileptr + length bytes })
    pub contents :
        (a : ℕ)
        → view fc kmalloc kfree s' a
          ≡ written fc kmalloc kfree o.fileptr (length bytes) bytes (view fc kmalloc kfree s) a

  unfoldable pub moved : ℕ → OpenFd → ℕ → Driver → Driver
  moved i o ptr s = record s { fd_list = set s.fd_list i (record o { fileptr = ptr }) }

  pub moved-IsFlash :
      (i : ℕ) (o : OpenFd) (ptr : ℕ) (s : Driver)
      → IsFlash fc kmalloc kfree s
      → IsFlash fc kmalloc kfree (moved i o ptr s)
  unfolding moved
  moved-IsFlash i o ptr s v = record {
    is_ready = v.is_ready;
    sector = λ b h.
        let w = v.sector b h in
        record {
          whole = w.whole;
          aligned = w.aligned;
          on_chip = w.on_chip;
          block_end = w.block_end;
        };
  }

  pub moved-view :
      (i : ℕ) (o : OpenFd) (ptr : ℕ) (s : Driver) (a : ℕ)
      → view fc kmalloc kfree (moved i o ptr s) a ≡ view fc kmalloc kfree s a
  unfolding moved view
  moved-view i o ptr s a = refl

  -- One round of the loop.
  write_loop-round :
      (fuel i : ℕ) (o : OpenFd) (bytes : List ℕ) (s s' : Driver) (n : ℕ)
      → get_elem? s.fd_list i ≡ some o
      → spiflash_write_to_sector fc kmalloc kfree o.fileptr bytes s ≡ some (val n, s')
      → s'.fd_list ≡ s.fd_list
      → o.fileptr + n < 2 ^ 32
      → write_loop fc kmalloc kfree (suc fuel) i bytes s ≡ (
          if leb (length bytes) n
          then some (none, moved i o (o.fileptr + n) s')
          else write_loop fc kmalloc kfree fuel i (drop n bytes) (moved i o (o.fileptr + n) s'))
  unfolding write_loop moved
  write_loop-round fuel i o bytes s s' n g w f fits =
      let g' : get_elem? s'.fd_list i ≡ some o = rw f g in
      let e : (o.fileptr + n) % 2 ^ 32 ≡ o.fileptr + n = omega arith in ground arith

  pub moved-fd_list :
      (i : ℕ) (o : OpenFd) (ptr : ℕ) (s : Driver)
      → (moved i o ptr s).fd_list ≡ set s.fd_list i (record o { fileptr = ptr })
  unfolding moved
  moved-fd_list i o ptr s = refl

  whole-Streamed :
      (i : ℕ) (o : OpenFd) (n : ℕ) (bytes : List ℕ) (s s' : Driver)
      → n ≡ length bytes
      → Wrote fc kmalloc kfree o.fileptr n bytes s s'
      → Streamed i o bytes s (moved i o (o.fileptr + n) s')
  whole-Streamed i o n bytes s s' e r = record {
    valid = moved-IsFlash i o (o.fileptr + n) s' r.valid;
    fds = moved-fd_list i o (o.fileptr + n) s' ∙ rw (r.fds, e) refl;
    contents = λ a.
        moved-view i o (o.fileptr + n) s' a
        ∙ r.contents a
        ∙ ap (λ m. written fc kmalloc kfree o.fileptr m bytes (view fc kmalloc kfree s) a) e;
  }

  then-Streamed :
      (i : ℕ) (o : OpenFd) (n : ℕ) (bytes : List ℕ) (s s₁ s' : Driver)
      → Wrote fc kmalloc kfree o.fileptr n bytes s s₁
      → Streamed i
          (record o { fileptr = o.fileptr + n })
          (drop n bytes)
          (moved i o (o.fileptr + n) s₁)
          s'
      → Streamed i o bytes s s'
  then-Streamed i o n bytes s s₁ s' r t =
      let rest : length (drop n bytes) ≡ length bytes - n = length-drop n bytes in
      let total : o.fileptr + n + (length bytes - n) ≡ o.fileptr + length bytes =
        omega (arith, r.at_most) in
      record {
        valid = t.valid;
        fds =
            t.fds
            ∙ rw (moved-fd_list i o (o.fileptr + n) s₁, r.fds, rest, total)
                (set-set s.fd_list i (record o { fileptr = o.fileptr + n })
                  (record o { fileptr = o.fileptr + length bytes }));
        contents = λ a.
            t.contents a
            ∙ ap
                (λ m.
                  written fc kmalloc kfree (o.fileptr + n) m (drop n bytes)
                    (view fc kmalloc kfree (moved i o (o.fileptr + n) s₁)) a)
                rest
            ∙ ap
                (λ f.
                  written fc kmalloc kfree (o.fileptr + n) (length bytes - n) (drop n bytes) f a)
                (fun_ext (λ x. moved-view i o (o.fileptr + n) s₁ x ∙ r.contents x))
            ∙ written-written o.fileptr n bytes (view fc kmalloc kfree s) a r.at_most;
      }

  write_loop-Streamed :
      (fuel i : ℕ) (o : OpenFd) (bytes : List ℕ) (s : Driver)
      → IsFlash fc kmalloc kfree s
      → get_elem? s.fd_list i ≡ some o
      → o.fileptr + length bytes ≤ 2 ^ 24
      → 0 < length bytes
      → length bytes ≤ fuel
      → ((h : H) → (h' : H) × (kmalloc write_sector_size h ≡ some h'))
      → (s' : Driver) × (write_loop fc kmalloc kfree fuel i bytes s ≡ some (none, s'))
        × Streamed i o bytes s s'
  write_loop-Streamed zero i o bytes s v g on pos_n enough alloc = absurd (omega arith)
  write_loop-Streamed (suc fuel) i o bytes s v g on pos_n enough alloc =
      let (n, s₁, w, r) =
        spiflash_write_to_sector-Wrote fc kmalloc kfree o.fileptr bytes s v (omega arith) pos_n
          (omega arith) alloc in
      let round = write_loop-round fuel i o bytes s s₁ n g w r.fds (omega (arith, r.at_most)) in
      let s₂ = moved i o (o.fileptr + n) s₁ in
      elim (Bool-cases (leb (length bytes) n)) [
        | inl all ↦
            (s₂, round ∙ rw all refl, whole-Streamed i o n bytes s s₁ (ground (arith, r.at_most)) r)
        | inr part ↦
            let g₂ : get_elem? s₂.fd_list i ≡ some (record o { fileptr = o.fileptr + n }) =
              ap (λ l. get_elem? l i)
                (moved-fd_list i o (o.fileptr + n) s₁
                  ∙ ap (λ l. set l i (record o { fileptr = o.fileptr + n })) r.fds)
              ∙ get_elem?-set_self s.fd_list i _ (get_elem?-lt s.fd_list i g) in
            let (s', p, t) =
              write_loop-Streamed fuel i (record o { fileptr = o.fileptr + n }) (drop n bytes) s₂
                (moved-IsFlash i o (o.fileptr + n) s₁ r.valid) g₂
                (omega (arith, length-drop n bytes, r.at_most))
                (ground (arith, length-drop n bytes))
                (omega (arith, length-drop n bytes, r.progress)) alloc in
            (s', round ∙ rw part p, then-Streamed i o n bytes s s₁ s' r t)
      ]

  -- `spiflash_write` of some bytes to an open descriptor, from its position to the end of the chip at
  -- most, ends: its loop over the sectors comes to the last byte. It reports all the bytes as written;
  -- the contents of the device are then the old ones with the bytes at the position, and the position
  -- has moved past them. The state is well formed (`IsFlash`) before and after; the allocator must
  -- succeed.
  pub spiflash_write-Streamed :
      (fd i : ℕ) (o : OpenFd) (bytes : List ℕ) (s : Driver)
      → IsFlash fc kmalloc kfree s
      → find_fd fd s.fd_list ≡ some i
      → get_elem? s.fd_list i ≡ some o
      → o.fileptr + length bytes ≤ 2 ^ 24
      → 0 < length bytes
      → ((h : H) → (h' : H) × (kmalloc write_sector_size h ≡ some h'))
      → (s' : Driver) × (spiflash_write fc kmalloc kfree fd bytes s ≡ some (val (length bytes), s'))
        × Streamed i o bytes s s'
  unfolding spiflash_write
  spiflash_write-Streamed fd i o bytes s v f g on pos_n alloc =
      let (s', p, t) =
        write_loop-Streamed (length bytes + 1) i o bytes s v g on pos_n (omega arith) alloc in
      (s', rw (spiflash_write, f, p) refl, t)
