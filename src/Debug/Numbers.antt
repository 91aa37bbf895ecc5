-- ===== src/Debug/Numbers.antt =====
-- `hextoint` against the value of a number by its digits.
use native.Mathlib.Nat.{pow-suc, mul-le-mul_right, suc-mul, add-mul, mul_assoc, mod-eq_of_lt}
use filestick.Base.{
  ℕ, zero, suc, ◌+◌, ◌-◌, ◌*◌, ◌%◌, ◌^◌, ◌≤◌, ◌<◌, bit_or, ◌≡◌, refl, sym, ap, ◌∙◌, inl, inr, Bool,
  true, false, Option, none, some, List, [], ◌∷◌, arith, leb, Option-cases, ◌==◌, if◌then◌else◌,
  length,
}
use filestick.Base.Bits.{bit_or_disjoint}
use filestick.Base.Text.{codes}
use filestick.Debug.{hex_digit, hex_round, hextoint}

-- The digits in the order of their values.
abbrev digits : List ℕ
digits = codes "0123456789abcdef"

-- The place of a byte in a list, of which the first is `n`.
abbrev place : ℕ → ℕ → List ℕ → Option ℕ
place n c [] = none
place n c (d ∷ ds) = let rest = place (n + 1) c ds in if c == d then some n else rest

abbrev pub digit_value : ℕ → Option ℕ
digit_value c = place 0 c digits

hex_digit-place : (c : ℕ) → hex_digit c ≡ digit_value c
unfolding hex_digit
hex_digit-place c = ground arith

-- The number that digits stand for, read from the left; none if a byte is not a digit.
unfoldable pub hex_from : ℕ → List ℕ → Option ℕ
hex_from n [] = some n
hex_from n (c ∷ s) = elim (digit_value c) [ none ↦ none | some d ↦ hex_from (n * 16 + d) s ]

hex_from-digit :
    (n c : ℕ) (s : List ℕ)
    → hex_from n (c ∷ s) ≡ elim (hex_digit c) [ none ↦ none | some d ↦ hex_from (n * 16 + d) s ]
unfolding hex_from
hex_from-digit n c s =
    ap (λ o. elim o as (λ _. Option ℕ) [ none ↦ none | some d ↦ hex_from (n * 16 + d) s ])
      (sym (hex_digit-place c))

abbrev pub hex_value : List ℕ → Option ℕ
hex_value s = hex_from 0 s

-- The number, if the string is one.
abbrev pub number : Option (Bool × ℕ) → Option (Option ℕ)
number none = none
number (some (false, v)) = some none
number (some (true, v)) = some (some v)

hex_digit_lt : (c d : ℕ) → hex_digit c ≡ some d → d < 16
unfolding hex_digit
hex_digit_lt c d h = ground arith

-- 16 ^ n
abbrev weight : ℕ → ℕ
weight n = 2 ^ (4 * n)

weight-suc : (n : ℕ) → weight (suc n) ≡ 16 * weight n
weight-suc n =
    let e : 4 * suc n ≡ suc (suc (suc (suc (4 * n)))) = omega arith in
    rw e (
      omega (
        arith,
        pow-suc 2 (suc (suc (suc (4 * n)))),
        pow-suc 2 (suc (suc (4 * n))),
        pow-suc 2 (suc (4 * n)),
        pow-suc 2 (4 * n),
      ))

weight_bound : (n : ℕ) → n < 8 → 16 * weight n ≤ 2 ^ 32
weight_bound n h = up n (8 - suc n) (omega arith)
  where
    up : (n k : ℕ) → n + suc k ≡ 8 → 16 * weight n ≤ 2 ^ 32
    up n zero e = let f : n ≡ 7 = omega arith in rw f (omega arith)
    up n (suc k) e = omega (arith, weight-suc n, up (suc n) k (omega arith))

-- What comes before a number adds its weight.
data Shape (s : List ℕ) : Type 0 where
  bad : (v : ℕ) → hextoint s ≡ some (false, v) → ((n : ℕ) → hex_from n s ≡ none) → Shape s
  good :
      (v : ℕ)
      → hextoint s ≡ some (true, v)
      → v < weight (length s)
      → ((n : ℕ) → hex_from n s ≡ some (n * weight (length s) + v))
      → Shape s

-- A digit before so many others.
digit_bound : (d n : ℕ) → d < 16 → d * weight n + weight n ≤ 16 * weight n
digit_bound d n h =
    let m : suc d * weight n ≤ 16 * weight n = mul-le-mul_right (weight n) h in
    omega (arith, suc-mul d (weight n))

longer :
    (c d v : ℕ) (s : List ℕ)
    → length s < 8
    → hex_digit c ≡ some d
    → hextoint s ≡ some (true, v)
    → v < weight (length s)
    → ((n : ℕ) → hex_from n s ≡ some (n * weight (length s) + v))
    → Shape (c ∷ s)
unfolding hextoint hex_from
longer c d v s h p q lt all =
    let w = weight (length s) in
    let top = digit_bound d (length s) (hex_digit_lt c d p) in
    let max = weight_bound (length s) h in
    let cut : d * 2 ^ (4 * length s) % 2 ^ 32 ≡ d * w = mod-eq_of_lt (omega arith) in
    let sum : bit_or v (d * 2 ^ (4 * length s)) ≡ v + d * w =
      bit_or_disjoint (4 * length s) v d lt in
    let small : leb 32 (4 * length s) ≡ false = ground arith in
    good (v + d * w) (rw (hextoint, q, hex_round, p, small, cut, sum) refl)
      (omega (arith, weight-suc (length s)))
      (λ n.
        let e : (n * 16 + d) * w + v ≡ n * weight (suc (length s)) + (v + d * w) = omega (
          arith,
          add-mul (n * 16) d w,
          mul_assoc n 16 w,
          ap (λ t. n * t) (weight-suc (length s)),
        ) in
        hex_from-digit n c s ∙ rw p (all (n * 16 + d) ∙ ap some e))

shape : (s : List ℕ) → length s < 9 → Shape s
unfolding hextoint hex_from
shape [] h = good 0 refl (omega arith) (λ n. ap some (omega arith))
shape (c ∷ s) h = elim (shape s (omega arith)) [
  | bad v p q ↦ bad v (rw (hextoint, p) refl) (λ n. elim (Option-cases (hex_digit c)) [
    | inl e ↦ hex_from-digit n c s ∙ rw e refl
    | inr (d, e) ↦ hex_from-digit n c s ∙ rw e (q (n * 16 + d))
  ])
  | good v p lt q ↦ elim (Option-cases (hex_digit c)) [
    | inl e ↦ bad v (rw (hextoint, p, hex_round, e) refl) (λ n. hex_from-digit n c s ∙ rw e refl)
    | inr (d, e) ↦ longer c d v s (omega arith) e p lt q
  ]
]

-- `hextoint` on a string of at most eight bytes, which goes from its end and sets bits: it accepts
-- exactly the strings of the digits 0123456789abcdef, the empty one included, and gives the number
-- that they stand for when they are read from the left; a digit's value is its place among these.
pub hextoint-hex_value : (s : List ℕ) → length s < 9 → number (hextoint s) ≡ some (hex_value s)
hextoint-hex_value s h = elim (shape s h) [
  | bad v p q ↦ rw p (ap some (sym (q 0)))
  | good v p lt q ↦ rw p (ap some (sym (q 0 ∙ ap some (omega arith))))
]
