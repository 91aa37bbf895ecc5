-- ===== src/SpiFlash/View.antt =====
-- The contents of the device: the chip, with the sector that is buffered in front of it.
use native.Mathlib.Decide.{dec_lt}
use filestick.Base.{
  ℕ, zero, suc, ◌+◌, ◌-◌, ◌*◌, ◌/◌, ◌%◌, ◌^◌, ◌≤◌, ◌<◌, ◌≡◌, refl, ap, ◌∙◌, ◌⊎◌, inl, inr, true,
  false, ◌&&◌, Option, none, some, List, arith, ltb, leb, ◌==◌, if◌then◌else◌, Bool-cases,
  Option-cases, length, get_or, val,
}
use filestick.SpiFlash.Chip.{FlashChip, cells}
use filestick.SpiFlash.{
  State, erase_sector, spiflash_writebuffer, spiflash_sync, spiflash_load_sector, flash_memcpy,
  sector_of, write_sector_size,
}
use filestick.SpiFlash.Sector.{Programmed, program_pages-Programmed}

cells-get_or :
    (fc : FlashChip) (c : fc.Chip) (a n i : ℕ) (d : ℕ)
    → i < n
    → get_or (cells fc c a n) i d ≡ fc.cell c (a + i)
cells-get_or fc c a zero i d h = absurd (omega arith)
cells-get_or fc c a (suc n) zero d h = ap (fc.cell c) (omega arith)
cells-get_or fc c a (suc n) (suc i) d h =
    cells-get_or fc c (a + 1) n i d (omega arith) ∙ ap (fc.cell c) (omega arith)

length-cells : (fc : FlashChip) (c : fc.Chip) (a n : ℕ) → length (cells fc c a n) ≡ n
length-cells fc c a zero = refl
length-cells fc c a (suc n) = ap suc (length-cells fc c (a + 1) n)

module _ {H : Type 0} (fc : FlashChip) (kmalloc : ℕ → H → Option H) (kfree : H → H) where
  open fc use {Chip, cell, ready}

  abbrev Driver : Type 0
  Driver = State fc kmalloc kfree

  -- The byte at an address, as a reader is to find it.
  abbrev pub buffered : Option (List ℕ) → ℕ → Chip → ℕ → ℕ
  buffered none off c a = cell c a
  buffered (some buf) off c a =
      if leb off a && ltb a (off + 4096) then get_or buf (a - off) 0xFF else cell c a

  unfoldable pub view : Driver → ℕ → ℕ
  view s a = buffered s.writebuf s.write_blk_offset s.chip a

  -- A buffer holds a whole sector of the chip.
  pub record IsSector (s : Driver) (buf : List ℕ) : Type 0 where
    pub whole : length buf ≡ 4096
    pub aligned : s.write_blk_offset % 4096 ≡ 0
    pub on_chip : s.write_blk_offset + 4096 ≤ 2 ^ 24
    pub block_end : s.write_blk_end ≡ s.write_blk_offset + 4096

  pub record IsFlash (s : Driver) : Type 0 where
    pub is_ready : ready s.chip ≡ true
    pub sector : (buf : List ℕ) → s.writebuf ≡ some buf → IsSector s buf

  erase_sector-cell :
      (off : ℕ) (c : Chip) (a : ℕ)
      → ready c ≡ true
      → off % 4096 ≡ 0
      → off + 4096 ≤ 2 ^ 24
      → cell (erase_sector fc kmalloc kfree off c) a
        ≡ (if a / 4096 == off / 4096 then 0xFF else cell c a)
  unfolding erase_sector
  erase_sector-cell off c a r al on =
      let e : off / 2 ^ 16 % 256 * 65536 + off / 2 ^ 8 % 256 * 256 + off % 256 ≡ off =
        omega arith in
      fc.poll_cell _ a
      ∙ fc.erase_cell c (off / 2 ^ 16 % 256) (off / 2 ^ 8 % 256) (off % 256) a r
      ∙ ap (λ x. if a / 4096 == x / 4096 then 0xFF else cell c a) e

  erase_sector-ready : (off : ℕ) (c : Chip) → ready (erase_sector fc kmalloc kfree off c) ≡ true
  unfolding erase_sector
  erase_sector-ready off c = fc.poll_ready _

  -- Erasing the sector and programming its sixteen pages leaves the buffer there and nothing else.
  pub spiflash_writebuffer-Programmed :
      (buf : List ℕ) (s : Driver)
      → ready s.chip ≡ true
      → IsSector s buf
      → Programmed fc s.write_blk_offset 4096 buf s.chip
          (spiflash_writebuffer fc kmalloc kfree buf s).chip
  unfolding spiflash_writebuffer
  spiflash_writebuffer-Programmed buf s r v =
      let off = s.write_blk_offset in
      let c₁ = erase_sector fc kmalloc kfree off s.chip in
      let al : off % 4096 ≡ 0 = v.aligned in
      let on : off + 4096 ≤ 2 ^ 24 = v.on_chip in
      let p =
        program_pages-Programmed fc kmalloc kfree 16 off buf c₁ (erase_sector-ready off s.chip)
          (omega arith) (omega arith) (omega (arith, v.whole))
          (λ a l h.
            let e : (a / 4096 == off / 4096) ≡ true = ground arith in
            erase_sector-cell off s.chip a r al on ∙ rw e refl) in
      record {
        is_ready = p.is_ready;
        inside = p.inside;
        outside = λ a h.
            let e : (a / 4096 == off / 4096) ≡ false = other_sector off a al h in
            p.outside a h ∙ erase_sector-cell off s.chip a r al on ∙ rw e refl;
      }
    where
      other_sector :
          (off a : ℕ)
          → off % 4096 ≡ 0
          → (a < off) ⊎ (off + 4096 ≤ a)
          → (a / 4096 == off / 4096) ≡ false
      other_sector off a al (inl l) = ground arith
      other_sector off a al (inr l) = ground arith

  -- Writing the buffer out keeps the contents of the device, byte for byte.
  pub writebuffer-view :
      (buf : List ℕ) (s : Driver) (a : ℕ)
      → ready s.chip ≡ true
      → IsSector s buf
      → view (spiflash_writebuffer fc kmalloc kfree buf s) a
        ≡ buffered (some buf) s.write_blk_offset s.chip a
  unfolding view spiflash_writebuffer
  writebuffer-view buf s a r v =
      let p = spiflash_writebuffer-Programmed buf s r v in
      let off = s.write_blk_offset in
      elim (dec_lt a off) [
        | yes l ↦
            let e : (leb off a && ltb a (off + 4096)) ≡ false = ground arith in
            rw e (p.outside a (inl l))
        | no g ↦ elim (dec_lt a (off + 4096)) [
          | yes l ↦
              let e : (leb off a && ltb a (off + 4096)) ≡ true = ground arith in
              rw e (p.inside a (omega arith) l)
          | no h ↦
              let e : (leb off a && ltb a (off + 4096)) ≡ false = ground arith in
              rw e (p.outside a (inr (omega arith)))
        ]
      ]

  -- In a well-formed state (`IsFlash`: the chip is ready and a buffer is a whole sector of it) a
  -- flush keeps the contents of the device, byte for byte, and leaves no buffer: every byte is then
  -- in the chip.
  pub spiflash_sync-view :
      (s : Driver) (a : ℕ)
      → IsFlash s
      → let s' = spiflash_sync fc kmalloc kfree s in
        (s'.writebuf ≡ none) × IsFlash s' × (view s' a ≡ view s a) × (cell s'.chip a ≡ view s a)
  unfolding view spiflash_sync spiflash_writebuffer
  spiflash_sync-view s a v = elim (Option-cases s.writebuf) [
    | inl q ↦ rw (spiflash_sync, q) (q, v, rw q refl, refl)
    | inr (buf, q) ↦
        let w = v.sector buf q in
        let p = writebuffer-view buf s a v.is_ready w in
        rw (spiflash_sync, q)
          (
            refl,
            record {
              is_ready = (spiflash_writebuffer-Programmed buf s v.is_ready w).is_ready;
              sector = λ b h. absurd (ground arith);
            },
            p,
            p,
          )
  ]

  loaded-cell : (off a : ℕ) (c : Chip) → buffered (some (cells fc c off 4096)) off c a ≡ cell c a
  loaded-cell off a c = elim (Bool-cases (leb off a && ltb a (off + 4096))) [
    | inl e ↦
        let l : off ≤ a = ground arith in
        let h : a < off + 4096 = ground arith in
        rw e (cells-get_or fc c off 4096 (a - off) 0xFF (omega arith) ∙ ap (cell c) (omega arith))
    | inr e ↦ rw e refl
  ]

  -- In a well-formed state loading a sector keeps the contents of the device: the buffer is what
  -- the chip holds there. The position must lie on the chip, nothing be buffered, and the allocator
  -- succeed.
  pub spiflash_load_sector-view :
      (ptr : ℕ) (s : Driver) (heap : H)
      → IsFlash s
      → s.writebuf ≡ none
      → ptr < 2 ^ 24
      → kmalloc write_sector_size s.heap ≡ some heap
      → (s' : Driver) × (spiflash_load_sector fc kmalloc kfree ptr s ≡ some (val 0, s'))
        × IsFlash s'
        × (s'.write_blk_offset ≤ ptr)
        × (ptr < s'.write_blk_end)
        × ((buf : List ℕ) × (s'.writebuf ≡ some buf))
        × (s'.fd_list ≡ s.fd_list)
        × ((a : ℕ) → view s' a ≡ view s a)
  unfolding view spiflash_load_sector flash_memcpy
  spiflash_load_sector-view ptr s heap v q l m =
      let off = sector_of fc kmalloc kfree ptr in
      let buf = cells fc s.chip off 4096 in
      let s' : Driver = record s {
        heap = heap;
        writebuf = some buf;
        write_blk_offset = off;
        write_blk_end = (off + 4096) % 2 ^ 32;
      } in
      (
        s',
        rw (spiflash_load_sector, m) refl,
        record {
          is_ready = v.is_ready;
          sector = λ b h.
              let e : buf ≡ b = ground arith in
              rw (← e) (record {
                whole = length-cells fc s.chip off 4096;
                aligned = omega arith;
                on_chip = omega arith;
                block_end = omega arith;
              });
        },
        omega arith,
        omega arith,
        (buf, refl),
        refl,
        λ a. rw q (loaded-cell off a s.chip),
      )
