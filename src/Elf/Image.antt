-- ===== src/Elf/Image.antt =====
-- What loading the segments of a program leaves in memory.
use filestick.Base.{
  ℕ, zero, suc, ◌+◌, ◌-◌, ◌*◌, ◌%◌, ◌^◌, ◌≤◌, ◌<◌, min, ◌≡◌, refl, sym, ap, ◌∙◌, inl, inr, Bool,
  true, false, not, ◌&&◌, ◌||◌, List, arith, ltb, leb, if◌then◌else◌, Bool-cases, length, get_or,
  take, drop, length-take, length-drop,
}
use filestick.Memory.{Brk, set_min_brk}
use filestick.Elf.{
  usrmem_start, phdr_size, File, chunk, after, read_into, Phdr, phdr_of, is_load, Machine,
  load_segment, load_loop,
}
use filestick.Elf.Chunks.{get_or-drop, get_or-take}
use filestick.Elf.Loaded.{on_bus-within}

-- The next `n` program headers lie within the file.
abbrev pub Whole : ℕ → File → Type 0
Whole n f = f.at + 32 * n ≤ length f.contents

-- The segments of the next `n` headers end within the 24 bits of an address.
abbrev pub fits : ℕ → File → Bool
fits zero f = true
fits (suc n) f =
    let p = phdr_of (chunk phdr_size f) in
    (not (is_load p) || leb (p.p_paddr + p.p_filesz) (2 ^ 24)) && fits n (after phdr_size f)

-- Whether a segment has a byte of the file for an address, and that byte.
abbrev pub covers : ℕ → Phdr → File → ℕ → Bool
covers offset p f x =
    let at = (offset + p.p_offset) % 2 ^ 32 in
    is_load p
    && (leb p.p_paddr x && ltb x (p.p_paddr + p.p_filesz))
    && ltb (at + (x - p.p_paddr)) (length f.contents)

abbrev pub file_byte : ℕ → Phdr → File → ℕ → ℕ
file_byte offset p f x = get_or f.contents ((offset + p.p_offset) % 2 ^ 32 + (x - p.p_paddr)) 0

-- The byte at an address after the segments of the next `n` headers, of which the last that covers
-- the address counts; `b` is the byte before.
abbrev pub image : ℕ → ℕ → File → ℕ → ℕ → ℕ
image zero offset f x b = b
image (suc n) offset f x b =
    let p = phdr_of (chunk phdr_size f) in
    image n offset (after phdr_size f) x (if covers offset p f x then file_byte offset p f x else b)

-- The break after them: behind the memory of the last one.
abbrev pub break_after : ℕ → File → Brk → Brk
break_after zero f b = b
break_after (suc n) f b =
    let p = phdr_of (chunk phdr_size f) in
    let top = (p.p_paddr + p.p_memsz) % 2 ^ 32 in
    break_after n (after phdr_size f)
      (if is_load p then record { program_brk = top; min_brk = top } else b)

-- A segment that is loaded puts the file's bytes at its address.
load_segment-covers :
    (offset : ℕ) (p : Phdr) (f : File) (m : Machine) (x : ℕ)
    → is_load p ≡ true
    → p.p_paddr + p.p_filesz ≤ 2 ^ 24
    → x < 2 ^ 24
    → (load_segment offset p (after phdr_size f) m).mem x
      ≡ (if covers offset p f x then file_byte offset p f x else m.mem x)
unfolding load_segment
load_segment-covers offset p f m x load fit l =
    let at = (offset + p.p_offset) % 2 ^ 32 in
    let bytes = take p.p_filesz (drop at f.contents) in
    let n₁ = length-take p.p_filesz (drop at f.contents) in
    let n₂ = length-drop at f.contents in
    let i = x - p.p_paddr in
    on_bus-within p.p_paddr (length bytes) (λ i. get_or bytes i 0) m.mem x (omega arith) l
    ∙ elim (Bool-cases (leb p.p_paddr x && ltb x (p.p_paddr + length bytes))) [
      | inl e ↦
          let there : covers offset p f x ≡ true = rw load (
            inside p.p_paddr p.p_filesz (length bytes) x at (length f.contents)
              (length (drop at f.contents)) true n₁ n₂ e) in
          rw (e, there)
            (get_or-take (drop at f.contents) p.p_filesz i (ground arith)
              ∙ get_or-drop f.contents at i)
      | inr e ↦
          let missed : covers offset p f x ≡ false = rw load (
            inside p.p_paddr p.p_filesz (length bytes) x at (length f.contents)
              (length (drop at f.contents)) false n₁ n₂ e) in
          rw (e, missed) refl
    ]
  where
    inside :
        (paddr filesz n x at size left : ℕ) (b : Bool)
        → n ≡ min filesz left
        → left ≡ size - at
        → (leb paddr x && ltb x (paddr + n)) ≡ b
        → ((leb paddr x && ltb x (paddr + filesz)) && ltb (at + (x - paddr)) size) ≡ b
    inside paddr filesz n x at size left true e₁ e₂ q = ground arith
    inside paddr filesz n x at size left false e₁ e₂ q = ground arith

-- What the loop leaves.
abbrev pub Filled : ℕ → ℕ → File → Machine → Bool × Machine → Type 0
Filled n offset f m (ok, m') =
    (ok ≡ true)
    × ((x : ℕ) → x < 2 ^ 24 → m'.mem x ≡ image n offset f x (m.mem x))
    × (m'.brk ≡ break_after n f m.brk)

-- A round of the loop on a header that is accepted.
pub load_loop-round :
    (n offset : ℕ) (old bytes : List ℕ) (f : File) (m : Machine) (b : Bool)
    → read_into phdr_size old f ≡ bytes
    → (is_load (phdr_of bytes) && ltb (phdr_of bytes).p_paddr usrmem_start) ≡ false
    → is_load (phdr_of bytes) ≡ b
    → let f₁ = after phdr_size f in
      load_loop (suc n) offset old f m
      ≡ load_loop n offset bytes f₁ (if b then load_segment offset (phdr_of bytes) f₁ m else m)
unfolding load_loop
load_loop-round n offset old bytes f m b r high e = ap round r ∙ accepted bytes high e
  where
    f₁ : File
    f₁ = after phdr_size f

    round : List ℕ → Bool × Machine
    round bs =
        if is_load (phdr_of bs) && ltb (phdr_of bs).p_paddr usrmem_start
        then (false, m)
        else load_loop n offset bs f₁
            (if is_load (phdr_of bs) then load_segment offset (phdr_of bs) f₁ m else m)

    accepted :
        (bs : List ℕ)
        → (is_load (phdr_of bs) && ltb (phdr_of bs).p_paddr usrmem_start) ≡ false
        → is_load (phdr_of bs) ≡ b
        → round bs
          ≡ load_loop n offset bs f₁ (if b then load_segment offset (phdr_of bs) f₁ m else m)
    accepted bs high e =
        ap
          (λ c.
            if c
            then (false, m)
            else load_loop n offset bs f₁
                (if is_load (phdr_of bs) then load_segment offset (phdr_of bs) f₁ m else m))
          high
        ∙ ap
            (λ c. load_loop n offset bs f₁ (if c then load_segment offset (phdr_of bs) f₁ m else m))
            e

-- The machine after such a round, and the parts of the specification that it accounts for.
pub segment-Filled :
    (n offset : ℕ) (f : File) (m : Machine) (b : Bool) (out : Bool × Machine)
    → let p = phdr_of (chunk phdr_size f) in
      let f₁ = after phdr_size f in
      is_load p ≡ b
      → (not b || leb (p.p_paddr + p.p_filesz) (2 ^ 24)) ≡ true
      → Filled n offset f₁ (if b then load_segment offset p f₁ m else m) out
      → Filled (suc n) offset f m out
unfolding load_segment set_min_brk
segment-Filled n offset f m true out e fit (ok, mem, brk) =
    let p = phdr_of (chunk phdr_size f) in
    let f₁ = after phdr_size f in
    (
      ok,
      (λ x l.
          mem x l
          ∙ ap (image n offset f₁ x) (load_segment-covers offset p f m x e (ground arith) l)),
      brk
          ∙ ap
              (λ c. break_after n f₁ (
                if c
                then record {
                  program_brk = (p.p_paddr + p.p_memsz) % 2 ^ 32;
                  min_brk = (p.p_paddr + p.p_memsz) % 2 ^ 32;
                }
                else m.brk))
              (sym e),
    )
segment-Filled n offset f m false out e fit (ok, mem, brk) =
    let p = phdr_of (chunk phdr_size f) in
    let f₁ = after phdr_size f in
    (
      ok,
      (λ x l.
          mem x l
          ∙ ap (image n offset f₁ x) (
              ap
                (λ c.
                  if c
                    && (leb p.p_paddr x && ltb x (p.p_paddr + p.p_filesz))
                    && ltb ((offset + p.p_offset) % 2 ^ 32 + (x - p.p_paddr)) (length f.contents)
                  then file_byte offset p f x
                  else m.mem x)
                (sym e))),
      brk
          ∙ ap
              (λ c. break_after n f₁ (
                if c
                then record {
                  program_brk = (p.p_paddr + p.p_memsz) % 2 ^ 32;
                  min_brk = (p.p_paddr + p.p_memsz) % 2 ^ 32;
                }
                else m.brk))
              (sym e),
    )
