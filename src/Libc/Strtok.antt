-- ===== src/Libc/Strtok.antt =====
-- One call of `strtok`.
use filestick.Base.{
  ℕ, suc, ◌+◌, ◌<◌, ◌≡◌, refl, sym, ap, ◌∙◌, ◌≢◌, ◌⊎◌, true, false, none, some, List, [], ◌∷◌, ◌++◌,
  append_assoc, arith, ◌==◌, if◌then◌else◌, length, set, length-append, get_or, drop,
  drop-append_self, drop-drop,
}
use filestick.Libc.Tokens.{until_nul, c_str, spaces_at, word_at, strtok_at}
use filestick.Libc.Words.{plain, word_at-word, until_nul-word, get_or-append, set-append}

pub strtok-space :
    (pre r : List ℕ)
    → strtok_at (pre ++ 32 ∷ r) (length pre)
      ≡ strtok_at ((pre ++ 32 ∷ []) ++ r) (length (pre ++ 32 ∷ []))
unfolding strtok_at spaces_at
strtok-space pre r =
    let a : (pre ++ 32 ∷ []) ++ r ≡ pre ++ 32 ∷ r = append_assoc pre (32 ∷ []) r in
    let d₁ : drop (length pre) (pre ++ 32 ∷ r) ≡ 32 ∷ r = drop-append_self pre (32 ∷ r) in
    let n : length (pre ++ 32 ∷ []) ≡ length pre + 1 = length-append pre (32 ∷ []) in
    let d₂ : drop (length pre + 1) (pre ++ 32 ∷ r) ≡ r =
      sym (drop-drop (pre ++ 32 ∷ r) 1 (length pre)) ∙ ap (drop 1) d₁ in
    let q : length pre + suc (spaces_at r) ≡ length pre + 1 + spaces_at r = omega arith in
    rw (a, n, strtok_at, d₁, d₂, spaces_at, q) refl

pub spaces_at-none : (r : List ℕ) → get_or r 0 0 ≢ 32 → spaces_at r ≡ 0
unfolding spaces_at
spaces_at-none [] h = refl
spaces_at-none (x ∷ r) h = ground arith

pub strtok-end :
    (pre r : List ℕ) → get_or r 0 0 ≡ 0 → strtok_at (pre ++ r) (length pre) ≡ (none, pre ++ r, none)
unfolding strtok_at
strtok-end pre r h =
    let d : drop (length pre) (pre ++ r) ≡ r = drop-append_self pre r in
    let k : spaces_at r ≡ 0 = spaces_at-none r (ground arith) in
    let g : get_or (pre ++ r) (length pre + 0) 0 ≡ 0 = get_or-append pre r 0 0 ∙ h in
    rw (strtok_at, d, k, g) refl

-- At a word.
pub strtok-word :
    (pre w t : List ℕ)
    → plain w ≡ true
    → 0 < length w
    → (get_or t 0 0 ≡ 32) ⊎ (get_or t 0 0 ≡ 0)
    → strtok_at (pre ++ (w ++ t)) (length pre) ≡ (
        if get_or t 0 0 == 0
        then (some (length pre), pre ++ (w ++ t), none)
        else (some (length pre), pre ++ (w ++ set t 0 0), some (length pre + length w + 1)))
unfolding strtok_at
strtok-word pre [] t h pos_w k = absurd (omega arith)
strtok-word pre (x ∷ w) t h pos_w k =
    let word = x ∷ w in
    let e : length pre + 0 ≡ length pre = omega arith in
    let d : drop (length pre) (pre ++ (word ++ t)) ≡ word ++ t = drop-append_self pre (word ++ t) in
    let n : spaces_at (word ++ t) ≡ 0 = spaces_at-none (word ++ t) (ground arith) in
    let m : word_at (word ++ t) ≡ length word = word_at-word word t h k in
    let a : get_or (pre ++ (word ++ t)) (length pre) 0 ≡ x =
      ap (λ i. get_or (pre ++ (word ++ t)) i 0) (sym e) ∙ get_or-append pre (word ++ t) 0 0 in
    let here : (x == 0) ≡ false = ground arith in
    let z : length word + 0 ≡ length word = omega arith in
    let b : get_or (pre ++ (word ++ t)) (length pre + length word) 0 ≡ get_or t 0 0 =
      get_or-append pre (word ++ t) (length word) 0
      ∙ ap (λ i. get_or (word ++ t) i 0) (sym z)
      ∙ get_or-append word t 0 0 in
    let c : set (pre ++ (word ++ t)) (length pre + length word) 0 ≡ pre ++ (word ++ set t 0 0) =
      set-append pre (word ++ t) (length word) 0
      ∙ ap (λ i. pre ++ set (word ++ t) i 0) (sym z)
      ∙ ap (λ l. pre ++ l) (set-append word t 0 0) in
    rw (strtok_at, d, n, e, d, m, a, here, b, c) refl

pub c_str-word :
    (pre w t : List ℕ)
    → plain w ≡ true
    → get_or t 0 0 ≡ 0
    → c_str (pre ++ (w ++ t)) (length pre) ≡ w
c_str-word pre w t h k = ap until_nul (drop-append_self pre (w ++ t)) ∙ until_nul-word w t h k
