-- ===== src/Elf/Chunks.antt =====
-- What a read of a program's file gives: whole structures, and single bytes.
use filestick.Base.{
  ℕ, zero, suc, ◌+◌, ◌≤◌, ◌<◌, ◌≡◌, refl, sym, ap, ◌∙◌, List, [], ◌∷◌, ◌++◌, append-nil, arith,
  length, get_or, take, drop, length-take, length-drop,
}
use filestick.Elf.{phdr_size, File, chunk, read_into}

pub length-chunk : (n : ℕ) (f : File) → f.at + n ≤ length f.contents → length (chunk n f) ≡ n
length-chunk n f h =
    omega (arith, length-take n (drop f.at f.contents), length-drop f.at f.contents)

drop_all : (old : List ℕ) (n : ℕ) → length old ≤ n → drop n old ≡ []
drop_all [] zero h = refl
drop_all [] (suc n) h = refl
drop_all (x ∷ old) zero h = absurd (omega arith)
drop_all (x ∷ old) (suc n) h = drop_all old n (omega arith)

pub get_or-drop : (xs : List ℕ) (n i : ℕ) → get_or (drop n xs) i 0 ≡ get_or xs (n + i) 0
get_or-drop xs zero i = ap (λ j. get_or xs j 0) (omega arith)
get_or-drop [] (suc n) i = refl
get_or-drop (x ∷ xs) (suc n) i =
    let e : suc n + i ≡ suc (n + i) = omega arith in
    get_or-drop xs n i ∙ ap (λ j. get_or (x ∷ xs) j 0) (sym e)

pub get_or-take : (xs : List ℕ) (n i : ℕ) → i < n → get_or (take n xs) i 0 ≡ get_or xs i 0
get_or-take xs zero i h = absurd (omega arith)
get_or-take [] (suc n) i h = refl
get_or-take (x ∷ xs) (suc n) zero h = refl
get_or-take (x ∷ xs) (suc n) (suc i) h = get_or-take xs n i (omega arith)

-- A whole header replaces what the structure held.
pub read_into-whole :
    (old : List ℕ) (f : File)
    → length old ≡ 32
    → f.at + 32 ≤ length f.contents
    → read_into phdr_size old f ≡ chunk phdr_size f
read_into-whole old f l h =
    let n = length-chunk 32 f h in
    ap (λ t. chunk phdr_size f ++ t) (ap (λ k. drop k old) n ∙ drop_all old 32 (omega arith))
    ∙ append-nil (chunk phdr_size f)
