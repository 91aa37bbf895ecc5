-- ===== src/Libc/Numbers.antt =====
-- `atoi` of the C library, as the source uses it: white space, a sign, and the digits up to the first
-- other byte.
use filestick.Base.{
  ℕ, zero, suc, ◌+◌, ◌-◌, ◌*◌, Bool, ◌&&◌, ◌||◌, List, [], ◌∷◌, leb, ◌==◌, if◌then◌else◌,
}
use filestick.Base.Int.{ℤ, pos, negsuc}

abbrev is_digit : ℕ → Bool
is_digit c = leb 48 c && leb c 57

unfoldable pub digits_from : ℕ → List ℕ → ℕ
digits_from n [] = n
digits_from n (c ∷ s) =
    let rest = digits_from (n * 10 + (c - 48)) s in if is_digit c then rest else n

abbrev pub negative : ℕ → ℤ
negative zero = pos 0
negative (suc n) = negsuc n

unfoldable pub signed_from : List ℕ → ℤ
signed_from [] = pos 0
signed_from (c ∷ s) =
    if c == 45
    then negative (digits_from 0 s)
    else if c == 43
    then pos (digits_from 0 s)
    else pos (digits_from 0 (c ∷ s))

unfoldable pub atoi : List ℕ → ℤ
atoi [] = pos 0
atoi (c ∷ s) =
    let rest = atoi s in if c == 32 || (leb 9 c && leb c 13) then rest else signed_from (c ∷ s)
