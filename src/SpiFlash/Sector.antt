-- ===== src/SpiFlash/Sector.antt =====
-- What the erasing and programming of a sector leave in the chip.
use native.Mathlib.Decide.{dec_lt}
use filestick.Base.{
  ℕ, zero, suc, ◌+◌, ◌-◌, ◌*◌, ◌/◌, ◌%◌, ◌^◌, ◌≤◌, ◌<◌, ◌≡◌, refl, ap, ◌∙◌, ◌≢◌, ◌⊎◌, inl, inr,
  true, Option, List, [], ◌∷◌, arith, length, get_or, take, drop, length-take, length-drop,
}
use filestick.SpiFlash.Chip.{FlashChip}
use filestick.SpiFlash.{program_page, program_pages}

pub get_or-take : (xs : List ℕ) (n i d : ℕ) → i < n → get_or (take n xs) i d ≡ get_or xs i d
get_or-take xs zero i d h = absurd (omega arith)
get_or-take [] (suc n) i d h = refl
get_or-take (x ∷ xs) (suc n) zero d h = refl
get_or-take (x ∷ xs) (suc n) (suc i) d h = get_or-take xs n i d (omega arith)

pub get_or-drop : (xs : List ℕ) (k i d : ℕ) → get_or (drop k xs) i d ≡ get_or xs (k + i) d
get_or-drop xs zero i d = let e : 0 + i ≡ i = omega arith in rw e refl
get_or-drop [] (suc k) i d = refl
get_or-drop (x ∷ xs) (suc k) i d =
    let e : suc k + i ≡ suc (k + i) = omega arith in rw e (get_or-drop xs k i d)

module _ (fc : FlashChip) where
  open fc use {Chip, cell, ready}

  -- From `addr` on stand `size` bytes of `buf`, the rest is as it was, and the chip is ready.
  pub record Programmed (addr size : ℕ) (buf : List ℕ) (c c' : Chip) : Type 0 where
    pub is_ready : ready c' ≡ true
    pub inside : (a : ℕ) → addr ≤ a → a < addr + size → cell c' a ≡ get_or buf (a - addr) 0xFF
    pub outside : (a : ℕ) → (a < addr) ⊎ (addr + size ≤ a) → cell c' a ≡ cell c a

  -- The bytes of a range are erased.
  abbrev pub Erased : ℕ → ℕ → Chip → Type 0
  Erased addr size c = (a : ℕ) → addr ≤ a → a < addr + size → cell c a ≡ 0xFF

module _ {H : Type 0} (fc : FlashChip) (kmalloc : ℕ → H → Option H) (kfree : H → H) where
  open fc use {Chip, cell, ready}

  program_page-Programmed :
      (addr : ℕ) (page : List ℕ) (c : Chip)
      → ready c ≡ true
      → addr % 256 ≡ 0
      → addr < 2 ^ 24
      → length page ≡ 256
      → Erased fc addr 256 c
      → Programmed fc addr 256 page c (program_page fc kmalloc kfree addr page c)
  unfolding program_page
  program_page-Programmed addr page c r al small len er = record {
    is_ready = fc.poll_ready _;
    inside = λ a l h.
        let off : a % 256 ≡ a - addr = omega arith in
        fc.poll_cell _ a
        ∙ fc.program_in c (addr / 2 ^ 16 % 256) (addr / 2 ^ 8 % 256) a (addr % 256) page r len al
            (omega arith) (er a l h)
        ∙ ap (λ i. get_or page i 0xFF) off;
    outside = λ a h.
        fc.poll_cell _ a
        ∙ fc.program_out c (addr / 2 ^ 16 % 256) (addr / 2 ^ 8 % 256) a (addr % 256) page r len al
            (out_of_page addr a al small h);
  }
    where
      out_of_page :
          (addr a : ℕ)
          → addr % 256 ≡ 0
          → addr < 2 ^ 24
          → (a < addr) ⊎ (addr + 256 ≤ a)
          → a / 256 ≢ addr / 2 ^ 16 % 256 * 256 + addr / 2 ^ 8 % 256
      out_of_page addr a al small (inl l) = omega arith
      out_of_page addr a al small (inr l) = omega arith

  pub program_pages-Programmed :
      (n addr : ℕ) (buf : List ℕ) (c : Chip)
      → ready c ≡ true
      → addr % 256 ≡ 0
      → addr + n * 256 ≤ 2 ^ 24
      → n * 256 ≤ length buf
      → Erased fc addr (n * 256) c
      → Programmed fc addr (n * 256) buf c (program_pages fc kmalloc kfree n addr buf c)
  unfolding program_pages
  program_pages-Programmed zero addr buf c r al small len er = record {
    is_ready = r;
    inside = λ a l h. absurd (omega arith);
    outside = λ a h. refl;
  }
  program_pages-Programmed (suc n) addr buf c r al small len er =
      let first =
        program_page-Programmed addr (take 256 buf) c r al (omega arith)
          (omega (arith, length-take 256 buf)) (λ a l h. er a l (omega arith)) in
      let c₁ = program_page fc kmalloc kfree addr (take 256 buf) c in
      let next =
        program_pages-Programmed n (addr + 256) (drop 256 buf) c₁ first.is_ready (omega arith)
          (omega arith) (omega (arith, length-drop 256 buf))
          (λ a l h. first.outside a (inr l) ∙ er a (omega arith) (omega arith)) in
      record {
        is_ready = next.is_ready;
        inside = λ a l h. elim (dec_lt a (addr + 256)) [
          | yes lt ↦
              next.outside a (inl lt)
              ∙ first.inside a l lt
              ∙ get_or-take buf 256 (a - addr) 0xFF (omega arith)
          | no ge ↦
              let i : 256 + (a - (addr + 256)) ≡ a - addr = omega arith in
              next.inside a (omega arith) (omega arith)
              ∙ get_or-drop buf 256 (a - (addr + 256)) 0xFF
              ∙ ap (λ i. get_or buf i 0xFF) i
        ];
        outside = λ a h. next.outside a (beyond addr n a h) ∙ first.outside a (before addr n a h);
      }
    where
      beyond :
          (addr n a : ℕ)
          → (a < addr) ⊎ (addr + suc n * 256 ≤ a)
          → (a < addr + 256) ⊎ (addr + 256 + n * 256 ≤ a)
      beyond addr n a (inl l) = inl (omega arith)
      beyond addr n a (inr l) = inr (omega arith)

      before :
          (addr n a : ℕ) → (a < addr) ⊎ (addr + suc n * 256 ≤ a) → (a < addr) ⊎ (addr + 256 ≤ a)
      before addr n a (inl l) = inl l
      before addr n a (inr l) = inr (omega arith)
