-- ===== src/Init/Line.antt =====
-- `clean_cmdbuf`: the spaces at both ends of a line.
use filestick.Base.{
  ℕ, zero, suc, ◌+◌, ◌-◌, ◌≤◌, ◌<◌, min, ◌≡◌, refl, sym, ap, ◌∙◌, ◌⊎◌, inl, inr, true, false, List,
  [], ◌∷◌, ◌++◌, append_assoc, arith, ltb, leb, ◌==◌, if◌then◌else◌, Bool-cases, length, set,
  length-append, get_or, drop, replicate, length-drop,
}
use mathlib.Core.Path.{subst}
use filestick.Libc.Tokens.{until_nul}
use filestick.Libc.Words.{no_nul}
use filestick.Init.{strcpy, first_nonspace, trim, clean_cmdbuf}

abbrev pub spaces : List ℕ → ℕ
spaces [] = 0
spaces (x ∷ xs) = if x == 32 then suc (spaces xs) else 0

-- A line without the spaces and control characters at its end.
abbrev pub keep_or : ℕ → List ℕ → List ℕ
keep_or x [] = if leb x 32 then [] else x ∷ []
keep_or x (y ∷ ys) = x ∷ y ∷ ys

unfoldable pub trim_right : List ℕ → List ℕ
trim_right [] = []
trim_right (x ∷ xs) = keep_or x (trim_right xs)

trim_right-end :
    (s : List ℕ) (c : ℕ)
    → trim_right (s ++ c ∷ []) ≡ (if leb c 32 then trim_right s else s ++ c ∷ [])
unfolding trim_right
trim_right-end [] c = refl
trim_right-end (x ∷ s) c = elim (Bool-cases (leb c 32)) [
  | inl e ↦ rw (trim_right, trim_right-end s c, e) refl
  | inr e ↦ rw (trim_right, trim_right-end s c, e) (kept s)
]
  where
    kept : (s : List ℕ) → keep_or x (s ++ c ∷ []) ≡ x ∷ (s ++ c ∷ [])
    kept [] = refl
    kept (y ∷ s) = refl

last_cases : (s : List ℕ) → (s ≡ []) ⊎ ((t : List ℕ) × (c : ℕ) × (s ≡ t ++ c ∷ []))
last_cases [] = inl refl
last_cases (x ∷ s) = elim (last_cases s) [
  | inl e ↦ inr ([], x, ap (λ l. x ∷ l) e)
  | inr (t, c, e) ↦ inr (x ∷ t, c, ap (λ l. x ∷ l) e)
]

get_or-last : (t z : List ℕ) (c : ℕ) → get_or (t ++ c ∷ z) (length t) 0 ≡ c
get_or-last [] z c = refl
get_or-last (x ∷ t) z c = get_or-last t z c

set-last : (t z : List ℕ) (c v : ℕ) → set (t ++ c ∷ z) (length t) v ≡ t ++ v ∷ z
set-last [] z c v = refl
set-last (x ∷ t) z c v = ap (λ l. x ∷ l) (set-last t z c v)

length-trim_right : (s : List ℕ) → length (trim_right s) ≤ length s
unfolding trim_right
length-trim_right [] = omega arith
length-trim_right (x ∷ s) = kept (trim_right s) (length-trim_right s)
  where
    kept : (r : List ℕ) → length r ≤ length s → length (keep_or x r) ≤ suc (length s)
    kept [] h = ground arith
    kept (y ∷ r) h = omega arith

-- One round of the loop at a last byte.
trim-round :
    (t : List ℕ) (c z : ℕ)
    → trim (length (t ++ c ∷ [])) ((t ++ c ∷ []) ++ replicate z 0) ≡ (
        if leb c 32
        then trim (length t) (t ++ replicate (suc z) 0)
        else (length (t ++ c ∷ []), (t ++ c ∷ []) ++ replicate z 0))
unfolding trim
trim-round t c z =
    let a : (t ++ c ∷ []) ++ replicate z 0 ≡ t ++ c ∷ replicate z 0 =
      append_assoc t (c ∷ []) (replicate z 0) in
    let n : length (t ++ c ∷ []) ≡ suc (length t) = omega (arith, length-append t (c ∷ [])) in
    let g = get_or-last t (replicate z 0) c in
    let u = set-last t (replicate z 0) c 0 in
    elim (Bool-cases (leb c 32)) [
      | inl e ↦ let d : ltb 32 c ≡ false = ground arith in rw (a, n, trim, g, u, d, e) refl
      | inr e ↦ let d : ltb 32 c ≡ true = ground arith in rw (a, n, trim, g, u, d, e) refl
    ]

-- The loop as a whole, on a buffer that holds a string and then only NULs.
abbrev trimmed : List ℕ → ℕ → ℕ × List ℕ
trimmed s z = let r = trim_right s in (length r, r ++ replicate (z + (length s - length r)) 0)

trim-trimmed :
    (k : ℕ) (s : List ℕ) (z : ℕ) → length s ≤ k → trim (length s) (s ++ replicate z 0) ≡ trimmed s z
unfolding trim trim_right
trim-trimmed k [] z h = ap (λ n. (0, replicate n 0)) (omega arith)
trim-trimmed zero (x ∷ s) z h = absurd (omega arith)
trim-trimmed (suc k) (x ∷ s) z h = elim (last_cases (x ∷ s)) [
  | inl e ↦ let bad : suc (length s) ≡ 0 = ap length e in absurd (omega arith)
  | inr (t, c, e) ↦
      let n : length (t ++ c ∷ []) ≡ suc (length t) = omega (arith, length-append t (c ∷ [])) in
      let small : length t ≤ k = omega (arith, ap length e) in
      subst (λ l. trim (length l) (l ++ replicate z 0) ≡ trimmed l z) (sym e)
        (shorter t c n (trim-trimmed k t (suc z) small))
]
  where
    shorter :
        (t : List ℕ) (c : ℕ)
        → length (t ++ c ∷ []) ≡ suc (length t)
        → trim (length t) (t ++ replicate (suc z) 0) ≡ trimmed t (suc z)
        → trim (length (t ++ c ∷ [])) ((t ++ c ∷ []) ++ replicate z 0) ≡ trimmed (t ++ c ∷ []) z
    shorter t c n ih = elim (Bool-cases (leb c 32)) [
      | inl e ↦
          let m : suc z + (length t - length (trim_right t))
              ≡ z + (suc (length t) - length (trim_right t)) =
            omega (arith, length-trim_right t) in
          rw (trim-round t c z, trim_right-end t c, e, n, ih)
            (ap (λ j. (length (trim_right t), trim_right t ++ replicate j 0)) m)
      | inr e ↦
          let m : z ≡ z + (length (t ++ c ∷ []) - length (t ++ c ∷ [])) = omega arith in
          trim-round t c z
          ∙ rw (trim_right-end t c, e)
              (ap (λ j. (length (t ++ c ∷ []), (t ++ c ∷ []) ++ replicate j 0)) m)
    ]

first_nonspace-spaces : (size : ℕ) (s : List ℕ) → first_nonspace size s ≡ min size (spaces s)
unfolding first_nonspace
first_nonspace-spaces zero s = omega arith
first_nonspace-spaces (suc size) [] = omega arith
first_nonspace-spaces (suc size) (x ∷ s) = let rest = first_nonspace-spaces size s in ground arith

until_nul-strcpy : (s z : List ℕ) → no_nul s ≡ true → until_nul (s ++ 0 ∷ z) ≡ s
until_nul-strcpy [] z h = refl
until_nul-strcpy (x ∷ s) z h =
    let rest = until_nul-strcpy s z (ground arith) in
    let e : (x == 0) ≡ false = ground arith in rw (e, rest) refl

no_nul-drop : (n : ℕ) (s : List ℕ) → no_nul s ≡ true → no_nul (drop n s) ≡ true
no_nul-drop zero s h = h
no_nul-drop (suc n) [] h = refl
no_nul-drop (suc n) (x ∷ s) h = no_nul-drop n s (ground arith)

drop-replicate : (n m : ℕ) → drop {A = ℕ} n (replicate m 0) ≡ replicate (m - n) 0
drop-replicate zero m = let e : m - 0 ≡ m = omega arith in rw e refl
drop-replicate (suc n) zero = let e : 0 - suc n ≡ 0 = omega arith in rw e refl
drop-replicate (suc n) (suc m) =
    let e : suc m - suc n ≡ m - n = omega arith in rw e (drop-replicate n m)

no_nul-trim_right : (s : List ℕ) → no_nul s ≡ true → no_nul (trim_right s) ≡ true
unfolding trim_right
no_nul-trim_right [] h = refl
no_nul-trim_right (x ∷ s) h = kept (trim_right s) (no_nul-trim_right s (ground arith))
  where
    kept : (r : List ℕ) → no_nul r ≡ true → no_nul (keep_or x r) ≡ true
    kept [] k = ground arith
    kept (y ∷ r) k = ground arith

-- A line without the spaces at both ends.
abbrev pub cleaned : List ℕ → List ℕ
cleaned s = trim_right (drop (spaces s) s)

pub no_nul-cleaned : (s : List ℕ) → no_nul s ≡ true → no_nul (cleaned s) ≡ true
no_nul-cleaned s h = no_nul-trim_right (drop (spaces s) s) (no_nul-drop (spaces s) s h)

-- `clean_cmdbuf`, called on a buffer of NULs that is longer than the line, leaves there the line
-- without its leading spaces and without the spaces and control characters at its end, followed by
-- NULs only, and returns its length; but a line that starts with as many spaces as its `size`
-- argument, or more, it takes for blank: it returns 0 and leaves the buffer. The line has no NUL.
pub clean_cmdbuf-cleaned :
    (room size : ℕ) (line : List ℕ)
    → no_nul line ≡ true
    → length line < room
    → clean_cmdbuf (replicate room 0) line size ≡ (
        if ltb (spaces line) size
        then (length (cleaned line), cleaned line ++ replicate (room - length (cleaned line)) 0)
        else (0, replicate room 0))
unfolding clean_cmdbuf
clean_cmdbuf-cleaned room size line h fits =
    let f = first_nonspace-spaces size line in
    elim (Bool-cases (ltb (spaces line) size)) [
      | inr e ↦
          let n : (first_nonspace size line == size) ≡ true = ground arith in
          rw (e, clean_cmdbuf, n) refl
      | inl e ↦
          let n : (first_nonspace size line == size) ≡ false = ground arith in
          let i : first_nonspace size line ≡ spaces line = ground arith in
          let t = drop (spaces line) line in
          let z = suc (room - (length t + 1)) in
          let u =
            until_nul-strcpy t (drop (length t + 1) (replicate room 0))
              (no_nul-drop (spaces line) line h) in
          let b : strcpy (replicate room 0) t ≡ t ++ replicate z 0 =
            ap (λ l. t ++ 0 ∷ l) (drop-replicate (length t + 1) room) in
          let m : z + (length t - length (cleaned line)) ≡ room - length (cleaned line) =
            omega (arith, length-drop (spaces line) line, length-trim_right t) in
          rw (e, clean_cmdbuf, n, i, u, b)
            (trim-trimmed (length t) t z (omega arith)
              ∙ ap (λ j. (length (cleaned line), cleaned line ++ replicate j 0)) m)
    ]
