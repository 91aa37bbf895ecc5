-- ===== src/SpiFlash/Contents.antt =====
-- `spiflash_write_to_sector` on the contents of the device, whatever is buffered before.
use filestick.Base.{
  ℕ, ◌+◌, ◌-◌, ◌%◌, ◌^◌, ◌≤◌, ◌<◌, ◌≡◌, refl, sym, ap, ◌∙◌, inl, inr, Bool, ◌&&◌, ◌||◌, Option,
  none, some, List, arith, ltb, leb, if◌then◌else◌, Bool-cases, Option-cases, length, get_or, Ret,
  val,
}
use filestick.SpiFlash.Chip.{FlashChip}
use filestick.SpiFlash.{State, spiflash_writebuffer, spiflash_load_sector, write_sector_size}
use filestick.SpiFlash.Files.{write_after_load, spiflash_write_to_sector}
use filestick.SpiFlash.View.{
  IsFlash, IsSector, view, buffered, writebuffer-view, spiflash_writebuffer-Programmed,
  spiflash_load_sector-view,
}
use filestick.SpiFlash.Write.{Wrote, write_loaded-Wrote}

module _ {H : Type 0} (fc : FlashChip) (kmalloc : ℕ → H → Option H) (kfree : H → H) where
  open fc use {Chip, cell, ready}

  abbrev Driver : Type 0
  Driver = State fc kmalloc kfree

  flushed-none :
      (buf : List ℕ) (s : Driver) → (spiflash_writebuffer fc kmalloc kfree buf s).writebuf ≡ none
  unfolding spiflash_writebuffer
  flushed-none buf s = refl

  flushed-fds :
      (buf : List ℕ) (s : Driver)
      → (spiflash_writebuffer fc kmalloc kfree buf s).fd_list ≡ s.fd_list
  unfolding spiflash_writebuffer
  flushed-fds buf s = refl

  flushed-IsFlash :
      (buf : List ℕ) (s : Driver)
      → IsFlash fc kmalloc kfree s
      → IsSector fc kmalloc kfree s buf
      → IsFlash fc kmalloc kfree (spiflash_writebuffer fc kmalloc kfree buf s)
  flushed-IsFlash buf s v w = record {
    is_ready = (spiflash_writebuffer-Programmed fc kmalloc kfree buf s v.is_ready w).is_ready;
    sector = λ b h. absurd (ground (arith, flushed-none buf s));
  }

  flushed-view :
      (buf : List ℕ) (s : Driver) (a : ℕ)
      → IsFlash fc kmalloc kfree s
      → s.writebuf ≡ some buf
      → view fc kmalloc kfree (spiflash_writebuffer fc kmalloc kfree buf s) a
        ≡ view fc kmalloc kfree s a
  unfolding view
  flushed-view buf s a v q =
      writebuffer-view fc kmalloc kfree buf s a v.is_ready (v.sector buf q)
      ∙ ap (λ o. buffered fc kmalloc kfree o s.write_blk_offset s.chip a) (sym q)

  -- The same contents before the write.
  same-Wrote :
      (ptr n : ℕ) (bytes : List ℕ) (s s₁ s' : Driver)
      → s₁.fd_list ≡ s.fd_list
      → ((a : ℕ) → view fc kmalloc kfree s₁ a ≡ view fc kmalloc kfree s a)
      → Wrote fc kmalloc kfree ptr n bytes s₁ s'
      → Wrote fc kmalloc kfree ptr n bytes s s'
  same-Wrote ptr n bytes s s₁ s' f e r = record {
    fds = r.fds ∙ f;
    progress = r.progress;
    at_most = r.at_most;
    valid = r.valid;
    contents = λ a.
        r.contents a
        ∙ ap (λ x. if leb ptr a && ltb a (ptr + n) then get_or bytes (a - ptr) 0xFF else x) (e a);
  }

  -- What a write into one sector comes to.
  abbrev pub Writes : ℕ → List ℕ → Driver → Option (Ret × Driver) → Type 0
  Writes ptr bytes s out =
      (n : ℕ) × (s' : Driver) × (out ≡ some (val n, s')) × Wrote fc kmalloc kfree ptr n bytes s s'

  direct-Writes :
      (ptr : ℕ) (bytes buf : List ℕ) (s : Driver)
      → IsFlash fc kmalloc kfree s
      → s.writebuf ≡ some buf
      → s.write_blk_offset ≤ ptr
      → ptr < s.write_blk_end
      → 0 < length bytes
      → ptr + length bytes < 2 ^ 32
      → Writes ptr bytes s (write_after_load fc kmalloc kfree ptr bytes (some (val 0, s)))
  direct-Writes ptr bytes buf s v q l h pos_n fits =
      let (n, s', e, r) = write_loaded-Wrote fc kmalloc kfree ptr bytes buf s v q l h pos_n fits in
      (n, s', rw (q, e) refl, r)

  loaded-Writes :
      (ptr : ℕ) (bytes : List ℕ) (s : Driver) (heap : H)
      → IsFlash fc kmalloc kfree s
      → s.writebuf ≡ none
      → ptr < 2 ^ 24
      → kmalloc write_sector_size s.heap ≡ some heap
      → 0 < length bytes
      → ptr + length bytes < 2 ^ 32
      → Writes ptr bytes s (
          write_after_load fc kmalloc kfree ptr bytes (spiflash_load_sector fc kmalloc kfree ptr s))
  loaded-Writes ptr bytes s heap v q on m pos_n fits =
      let (s₁, e, v₁, l, h, (buf, q₁), fds, same) =
        spiflash_load_sector-view fc kmalloc kfree ptr s heap v q on m in
      let (n, s', p, r) = direct-Writes ptr bytes buf s₁ v₁ q₁ l h pos_n fits in
      (
        n,
        s',
        ap (write_after_load fc kmalloc kfree ptr bytes) e ∙ p,
        same-Wrote ptr n bytes s s₁ s' fds same r,
      )

  -- In a well-formed state (`IsFlash`) a write of some bytes at a position on the chip gets on: it
  -- takes the first `n` of them, with `n` not 0, and afterwards the contents of the device are the
  -- old ones with these bytes at the position, in the chip or in the buffer, whichever sector was
  -- buffered before. The allocator must succeed.
  pub spiflash_write_to_sector-Wrote :
      (ptr : ℕ) (bytes : List ℕ) (s : Driver)
      → IsFlash fc kmalloc kfree s
      → ptr < 2 ^ 24
      → 0 < length bytes
      → ptr + length bytes < 2 ^ 32
      → ((h : H) → (h' : H) × (kmalloc write_sector_size h ≡ some h'))
      → (n : ℕ) × (s' : Driver) × (spiflash_write_to_sector fc kmalloc kfree ptr bytes s
          ≡ some (val n, s'))
        × Wrote fc kmalloc kfree ptr n bytes s s'
  unfolding spiflash_write_to_sector
  spiflash_write_to_sector-Wrote ptr bytes s v on pos_n fits alloc =
      elim (Option-cases s.writebuf) [
        | inl q ↦
            let (heap, m) = alloc s.heap in
            let (n, s', p, r) = loaded-Writes ptr bytes s heap v q on m pos_n fits in
            (n, s', rw (spiflash_write_to_sector, q) p, r)
        | inr (buf, q) ↦ elim (Bool-cases (other_sector s)) [
          | inl t ↦
              let s₀ = spiflash_writebuffer fc kmalloc kfree buf s in
              let (heap, m) = alloc s₀.heap in
              let w = v.sector buf q in
              let (n, s', p, r) =
                loaded-Writes ptr bytes s₀ heap (flushed-IsFlash buf s v w) (flushed-none buf s) on
                  m pos_n fits in
              (
                n,
                s',
                rw (spiflash_write_to_sector, q, t) p,
                same-Wrote ptr n bytes s s₀ s' (flushed-fds buf s) (λ a. flushed-view buf s a v q)
                    r,
              )
          | inr t ↦
              let u : (length bytes + ptr) % 2 ^ 32 ≡ length bytes + ptr = omega arith in
              let (n, s', p, r) =
                direct-Writes ptr bytes buf s v q (ground arith) (ground arith) pos_n fits in
              (n, s', rw (spiflash_write_to_sector, q, t) p, r)
        ]
      ]
    where
      other_sector : Driver → Bool
      other_sector s =
          ltb s.write_blk_end ((length bytes + ptr) % 2 ^ 32) || ltb ptr s.write_blk_offset
