-- ===== src/SpiFlash/Write.antt =====
-- `spiflash_write_to_sector`: what a write into one sector does to the contents of the device.
use native.Mathlib.Decide.{dec_lt}
use filestick.Base.{
  ℕ, ◌+◌, ◌-◌, ◌%◌, ◌^◌, ◌≤◌, ◌<◌, ◌≡◌, refl, sym, ap, ◌∙◌, inl, inr, true, false, ◌&&◌, Option,
  some, List, arith, ltb, leb, if◌then◌else◌, Bool-cases, length, get_or, take, length-take,
}
use filestick.SpiFlash.Chip.{FlashChip}
use filestick.SpiFlash.{State, memcpy_at, spiflash_writebuffer}
use filestick.SpiFlash.Files.{write_loaded}
use filestick.SpiFlash.Sector.{get_or-take}
use filestick.SpiFlash.Splice.{splice, length-splice, get_or-splice}
use filestick.SpiFlash.View.{
  IsFlash, IsSector, view, buffered, writebuffer-view, spiflash_writebuffer-Programmed,
}

module _ {H : Type 0} (fc : FlashChip) (kmalloc : ℕ → H → Option H) (kfree : H → H) where
  open fc use {Chip, cell, ready}

  abbrev Driver : Type 0
  Driver = State fc kmalloc kfree

  -- Contents `f` after the first `n` of `bytes` were written at `ptr`.
  abbrev pub written : ℕ → ℕ → List ℕ → (ℕ → ℕ) → ℕ → ℕ
  written ptr n bytes f a =
      if leb ptr a && ltb a (ptr + n) then get_or bytes (a - ptr) 0xFF else f a

  pub record Wrote (ptr n : ℕ) (bytes : List ℕ) (s s' : Driver) : Type 0 where
    pub progress : 0 < n
    pub at_most : n ≤ length bytes
    pub valid : IsFlash fc kmalloc kfree s'
    pub fds : s'.fd_list ≡ s.fd_list
    pub contents :
        (a : ℕ) → view fc kmalloc kfree s' a ≡ written ptr n bytes (view fc kmalloc kfree s) a

  abbrev copied : ℕ → ℕ → List ℕ → List ℕ → Driver → Driver
  copied ptr n bytes buf s = record s { writebuf = some (splice buf (ptr % 4096) (take n bytes)) }

  copied-contents :
      (ptr n : ℕ) (bytes buf : List ℕ) (s : Driver) (a : ℕ)
      → s.writebuf ≡ some buf
      → IsSector fc kmalloc kfree s buf
      → s.write_blk_offset ≤ ptr
      → 0 < n
      → n ≤ length bytes
      → ptr + n ≤ s.write_blk_end
      → view fc kmalloc kfree (copied ptr n bytes buf s) a
        ≡ written ptr n bytes (view fc kmalloc kfree s) a
  unfolding view
  copied-contents ptr n bytes buf s a q w l pos_n small h =
      let off = s.write_blk_offset in
      let k : ptr % 4096 ≡ ptr - off = omega (arith, w.aligned, w.block_end) in
      let len : length (take n bytes) ≡ n = omega (arith, length-take n bytes) in
      let g =
        get_or-splice buf (ptr % 4096) (take n bytes) (a - off) 0xFF
          (omega (arith, w.whole, w.block_end)) in
      elim (Bool-cases (leb off a && ltb a (off + 4096))) [
        | inr out ↦
            let e : (leb ptr a && ltb a (ptr + n)) ≡ false = ground (arith, w.block_end) in
            rw (q, out, e) refl
        | inl here ↦ elim (Bool-cases (leb ptr a && ltb a (ptr + n))) [
          | inl e ↦
              let i : (leb (ptr % 4096) (a - off)
                    && ltb (a - off) (ptr % 4096 + length (take n bytes)))
                  ≡ true =
                ground arith in
              let j : (a - off) - ptr % 4096 ≡ a - ptr = ground arith in
              rw (q, here, e)
                (g
                  ∙ rw i (get_or-take bytes n (a - off - ptr % 4096) 0xFF (ground arith))
                  ∙ ap (λ x. get_or bytes x 0xFF) j)
          | inr e ↦
              let i : (leb (ptr % 4096) (a - off)
                    && ltb (a - off) (ptr % 4096 + length (take n bytes)))
                  ≡ false =
                ground arith in
              rw (q, here, e) (g ∙ rw i refl)
        ]
      ]

  copied-Wrote :
      (ptr n : ℕ) (bytes buf : List ℕ) (s : Driver)
      → IsFlash fc kmalloc kfree s
      → s.writebuf ≡ some buf
      → s.write_blk_offset ≤ ptr
      → 0 < n
      → n ≤ length bytes
      → ptr + n ≤ s.write_blk_end
      → Wrote ptr n bytes s (copied ptr n bytes buf s)
  copied-Wrote ptr n bytes buf s v q l pos_n small h =
      let w = v.sector buf q in
      let len : length (take n bytes) ≡ n = omega (arith, length-take n bytes) in
      let fits : ptr % 4096 + length (take n bytes) ≤ length buf =
        omega (arith, w.aligned, w.block_end, w.whole) in
      record {
        progress = pos_n;
        at_most = small;
        valid = record {
          is_ready = v.is_ready;
          sector = λ b h'.
              let e : splice buf (ptr % 4096) (take n bytes) ≡ b = ground arith in
              rw (← e) (record {
                whole = length-splice buf (ptr % 4096) (take n bytes) fits ∙ w.whole;
                aligned = w.aligned;
                on_chip = w.on_chip;
                block_end = w.block_end;
              });
        };
        fds = refl;
        contents = λ a. copied-contents ptr n bytes buf s a q w l pos_n small h;
      }

  -- Writing the buffer out afterwards changes no byte.
  flushed-Wrote :
      (ptr n : ℕ) (bytes buf : List ℕ) (s s' : Driver)
      → Wrote ptr n bytes s s'
      → s'.writebuf ≡ some buf
      → Wrote ptr n bytes s (spiflash_writebuffer fc kmalloc kfree buf s')
  unfolding view spiflash_writebuffer
  flushed-Wrote ptr n bytes buf s s' r q =
      let w = r.valid.sector buf q in
      record {
        progress = r.progress;
        at_most = r.at_most;
        valid = record {
          is_ready =
              (spiflash_writebuffer-Programmed fc kmalloc kfree buf s' r.valid.is_ready w).is_ready;
          sector = λ b h. absurd (ground arith);
        };
        fds = r.fds;
        contents = λ a.
            writebuffer-view fc kmalloc kfree buf s' a r.valid.is_ready w
            ∙ ap (λ o. buffered fc kmalloc kfree o s'.write_blk_offset s'.chip a) (sym q)
            ∙ r.contents a;
      }

  pub write_loaded-Wrote :
      (ptr : ℕ) (bytes buf : List ℕ) (s : Driver)
      → IsFlash fc kmalloc kfree s
      → s.writebuf ≡ some buf
      → s.write_blk_offset ≤ ptr
      → ptr < s.write_blk_end
      → 0 < length bytes
      → ptr + length bytes < 2 ^ 32
      → (n : ℕ) × (s' : Driver) × (write_loaded fc kmalloc kfree ptr bytes buf s ≡ some (n, s'))
        × Wrote ptr n bytes s s'
  unfolding write_loaded memcpy_at
  write_loaded-Wrote ptr bytes buf s v q l h pos_n fits =
      let w = v.sector buf q in
      let u : (length bytes + ptr) % 2 ^ 32 ≡ length bytes + ptr = omega arith in
      elim (dec_lt s.write_blk_end (length bytes + ptr)) [
        | yes past ↦
            let n = s.write_blk_end - ptr in
            let c : (s.write_blk_end + 2 ^ 32 - ptr) % 2 ^ 32 ≡ n =
              omega (arith, w.block_end, w.on_chip) in
            let t₁ : ltb s.write_blk_end (length bytes + ptr) ≡ true = ground arith in
            let t₂ : ltb (length bytes) n ≡ false = ground arith in
            let t₃ : leb (ptr % 4096 + length (take n bytes)) (length buf) ≡ true =
              ground (arith, length-take n bytes, w.whole, w.aligned, w.block_end) in
            let t₄ : leb s.write_blk_end (length bytes + ptr) ≡ true = ground arith in
            let r =
              copied-Wrote ptr n bytes buf s v q l (omega arith) (omega arith) (omega arith) in
            (
              n,
              spiflash_writebuffer fc kmalloc kfree (splice buf (ptr % 4096) (take n bytes))
                  (copied ptr n bytes buf s),
              ground arith,
              flushed-Wrote ptr n bytes _ s (copied ptr n bytes buf s) r refl,
            )
        | no inside ↦
            let n = length bytes in
            let t₁ : ltb s.write_blk_end (length bytes + ptr) ≡ false = ground arith in
            let t₂ : ltb (length bytes) (length bytes) ≡ false = ground arith in
            let t₃ : leb (ptr % 4096 + length (take n bytes)) (length buf) ≡ true =
              ground (arith, length-take n bytes, w.whole, w.aligned, w.block_end) in
            let r =
              copied-Wrote ptr n bytes buf s v q l (omega arith) (omega arith) (omega arith) in
            elim (Bool-cases (leb s.write_blk_end (length bytes + ptr))) [
              | inl t₄ ↦ (
                n,
                spiflash_writebuffer fc kmalloc kfree (splice buf (ptr % 4096) (take n bytes))
                    (copied ptr n bytes buf s),
                ground arith,
                flushed-Wrote ptr n bytes _ s (copied ptr n bytes buf s) r refl,
              )
              | inr t₄ ↦ (n, copied ptr n bytes buf s, ground arith, r)
            ]
      ]
