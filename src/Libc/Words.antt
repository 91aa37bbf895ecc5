-- ===== src/Libc/Words.antt =====
-- The loop over `strtok` finds the words of a line.
use filestick.Base.{
  ℕ, suc, ◌+◌, ◌≡◌, refl, ap, ◌⊎◌, inl, inr, Bool, true, false, not, ◌&&◌, ◌||◌, List, [], ◌∷◌,
  ◌++◌, arith, ◌==◌, if◌then◌else◌, Bool-cases, length, set, get_or,
}
use filestick.Libc.Tokens.{until_nul, word_at}

-- The words of a line: it is cut at each space, and the empty parts are left out.
abbrev grow : ℕ → List (List ℕ) → List (List ℕ)
grow x [] = (x ∷ []) ∷ []
grow x (w ∷ ws) = (x ∷ w) ∷ ws

unfoldable pub cut : List ℕ → List (List ℕ)
cut [] = [] ∷ []
cut (x ∷ xs) = let rest = cut xs in if x == 32 then [] ∷ rest else grow x rest

abbrev pub nonempty : List (List ℕ) → List (List ℕ)
nonempty [] = []
nonempty ([] ∷ ws) = nonempty ws
nonempty ((x ∷ w) ∷ ws) = (x ∷ w) ∷ nonempty ws

abbrev pub words : List ℕ → List (List ℕ)
words s = nonempty (cut s)

abbrev pub no_nul : List ℕ → Bool
no_nul [] = true
no_nul (x ∷ xs) = not (x == 0) && no_nul xs

abbrev pub plain : List ℕ → Bool
plain [] = true
plain (x ∷ xs) = not (x == 32) && (not (x == 0) && plain xs)

pub cut-word : (w s : List ℕ) → plain w ≡ true → cut (w ++ 32 ∷ s) ≡ w ∷ cut s
unfolding cut
cut-word [] s h = refl
cut-word (x ∷ w) s h =
    let rest = cut-word w s (ground arith) in
    let e : (x == 32) ≡ false = ground arith in rw (cut, e, rest) refl

pub cut-last : (w : List ℕ) → plain w ≡ true → cut w ≡ w ∷ []
unfolding cut
cut-last [] h = refl
cut-last (x ∷ w) h =
    let rest = cut-last w (ground arith) in
    let e : (x == 32) ≡ false = ground arith in rw (cut, e, rest) refl

pub cut-space : (s : List ℕ) → cut (32 ∷ s) ≡ [] ∷ cut s
unfolding cut
cut-space s = refl

-- The first word of a line, and what follows it.
pub record FirstWord (s : List ℕ) : Type 0 where
  pub word : List ℕ
  pub rest : List ℕ
  pub parts : s ≡ word ++ rest
  pub is_plain : plain word ≡ true
  pub rest_no_nul : no_nul rest ≡ true
  pub stop : (rest ≡ []) ⊎ ((t : List ℕ) × (rest ≡ 32 ∷ t))

pub first_word : (s : List ℕ) → no_nul s ≡ true → FirstWord s
first_word [] h = record {
  word = [];
  rest = [];
  parts = refl;
  is_plain = refl;
  rest_no_nul = refl;
  stop = inl refl;
}
first_word (x ∷ s) h = elim (Bool-cases (x == 32)) [
  | inl e ↦ record {
    word = [];
    rest = x ∷ s;
    parts = refl;
    is_plain = refl;
    rest_no_nul = h;
    stop = inr (s, ap (λ y. y ∷ s) (ground arith));
  }
  | inr e ↦
      let f = first_word s (ground arith) in
      record {
        word = x ∷ f.word;
        rest = f.rest;
        parts = ap (λ l. x ∷ l) f.parts;
        is_plain = ground (arith, f.is_plain);
        rest_no_nul = f.rest_no_nul;
        stop = f.stop;
      }
]

pub word_at-word :
    (w t : List ℕ)
    → plain w ≡ true
    → (get_or t 0 0 ≡ 32) ⊎ (get_or t 0 0 ≡ 0)
    → word_at (w ++ t) ≡ length w
unfolding word_at
word_at-word [] [] h k = refl
word_at-word [] (y ∷ t) h k = ground arith
word_at-word (x ∷ w) t h k =
    let rest = word_at-word w t (ground arith) k in
    let e : (x == 32 || x == 0) ≡ false = ground arith in rw (word_at, e, rest) refl

pub until_nul-word : (w t : List ℕ) → plain w ≡ true → get_or t 0 0 ≡ 0 → until_nul (w ++ t) ≡ w
until_nul-word [] [] h k = refl
until_nul-word [] (y ∷ t) h k = ground arith
until_nul-word (x ∷ w) t h k =
    let rest = until_nul-word w t (ground arith) k in
    let e : (x == 0) ≡ false = ground arith in rw (e, rest) refl

pub get_or-append : (xs ys : List ℕ) (i d : ℕ) → get_or (xs ++ ys) (length xs + i) d ≡ get_or ys i d
get_or-append [] ys i d = ap (λ j. get_or ys j d) (omega arith)
get_or-append (x ∷ xs) ys i d =
    let e : suc (length xs) + i ≡ suc (length xs + i) = omega arith in
    rw e (get_or-append xs ys i d)

pub set-append : (xs ys : List ℕ) (i v : ℕ) → set (xs ++ ys) (length xs + i) v ≡ xs ++ set ys i v
set-append [] ys i v = ap (λ j. set ys j v) (omega arith)
set-append (x ∷ xs) ys i v =
    let e : suc (length xs) + i ≡ suc (length xs + i) = omega arith in
    rw e (ap (λ l. x ∷ l) (set-append xs ys i v))
