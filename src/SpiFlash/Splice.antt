-- ===== src/SpiFlash/Splice.antt =====
-- A copy into the middle of a buffer, as `memcpy` makes it, byte by byte.
use native.Mathlib.Decide.{dec_lt}
use filestick.Base.{
  ℕ, zero, suc, ◌+◌, ◌-◌, ◌≤◌, ◌<◌, ◌≡◌, refl, sym, ap, ◌∙◌, true, false, ◌&&◌, List, [], ◌∷◌, ◌++◌,
  arith, ltb, leb, if◌then◌else◌, length, length-append, get_or, take, drop, length-take,
  length-drop,
}
use filestick.SpiFlash.Sector.{get_or-take, get_or-drop}

get_or-append_left :
    (xs ys : List ℕ) (i d : ℕ) → i < length xs → get_or (xs ++ ys) i d ≡ get_or xs i d
get_or-append_left [] ys i d h = absurd (omega arith)
get_or-append_left (x ∷ xs) ys zero d h = refl
get_or-append_left (x ∷ xs) ys (suc i) d h = get_or-append_left xs ys i d (omega arith)

get_or-append_right :
    (xs ys : List ℕ) (i d : ℕ) → get_or (xs ++ ys) (length xs + i) d ≡ get_or ys i d
get_or-append_right [] ys i d = let e : 0 + i ≡ i = omega arith in rw e refl
get_or-append_right (x ∷ xs) ys i d =
    let e : suc (length xs) + i ≡ suc (length xs + i) = omega arith in
    rw e (get_or-append_right xs ys i d)

-- The buffer after a copy of `bytes` to `at`.
abbrev pub splice : List ℕ → ℕ → List ℕ → List ℕ
splice buf at bytes = take at buf ++ (bytes ++ drop (at + length bytes) buf)

pub length-splice :
    (buf : List ℕ) (at : ℕ) (bytes : List ℕ)
    → at + length bytes ≤ length buf
    → length (splice buf at bytes) ≡ length buf
length-splice buf at bytes h = omega (
  arith,
  length-append (take at buf) (bytes ++ drop (at + length bytes) buf),
  length-append bytes (drop (at + length bytes) buf),
  length-take at buf,
  length-drop (at + length bytes) buf,
)

pub get_or-splice :
    (buf : List ℕ) (at : ℕ) (bytes : List ℕ) (i d : ℕ)
    → at + length bytes ≤ length buf
    → get_or (splice buf at bytes) i d
      ≡ (if leb at i && ltb i (at + length bytes) then get_or bytes (i - at) d else get_or buf i d)
get_or-splice buf at bytes i d h =
    let n : length (take at buf) ≡ at = omega (arith, length-take at buf) in
    let rest = bytes ++ drop (at + length bytes) buf in
    elim (dec_lt i at) [
      | yes l ↦
          let e : (leb at i && ltb i (at + length bytes)) ≡ false = ground arith in
          rw e (get_or-append_left (take at buf) rest i d (omega arith) ∙ get_or-take buf at i d l)
      | no g ↦
          let s : length (take at buf) + (i - at) ≡ i = omega arith in
          let past : get_or (splice buf at bytes) i d ≡ get_or rest (i - at) d =
            ap (λ j. get_or (splice buf at bytes) j d) (sym s)
            ∙ get_or-append_right (take at buf) rest (i - at) d in
          elim (dec_lt i (at + length bytes)) [
            | yes l ↦
                let e : (leb at i && ltb i (at + length bytes)) ≡ true = ground arith in
                rw e (past ∙ get_or-append_left bytes _ (i - at) d (omega arith))
            | no m ↦
                let e : (leb at i && ltb i (at + length bytes)) ≡ false = ground arith in
                let j : length bytes + (i - at - length bytes) ≡ i - at = omega arith in
                let k : at + length bytes + (i - at - length bytes) ≡ i = omega arith in
                rw e (
                  past
                  ∙ ap (λ j. get_or rest j d) (sym j)
                  ∙ get_or-append_right bytes _ (i - at - length bytes) d
                  ∙ get_or-drop buf (at + length bytes) (i - at - length bytes) d
                  ∙ ap (λ j. get_or buf j d) k)
          ]
    ]
