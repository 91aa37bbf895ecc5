-- ===== src/Base/Bits.antt =====
-- Laws of the native bit operations at variables, from the digit recursion they stand for.
use Prim.Native.Nat.{digits, bit_or-bitwise, bit_and-bitwise}
use native.Mathlib.Nat.{pow-suc, mod-lt, mod-add-div', add-mul-mod_self_right, mod-eq_of_lt}
use filestick.Base.{
  ℕ, zero, suc, ◌+◌, ◌*◌, ◌/◌, ◌%◌, ◌≤◌, min, max, bit_or, bit_and, ◌<◌, ◌^◌, ap, ◌≡◌, refl, arith,
  ◌-◌, sym, ◌∙◌,
}

-- The recursion on the digits, with `rest` for what is left of the second number when the first one
-- is used up, and `digit` on two digits. Fuel beyond the first number changes nothing.
module _ (rest : ℕ → ℕ) (digit : ℕ → ℕ → ℕ) where
  abbrev bitwise : ℕ → ℕ → ℕ → ℕ
  bitwise fuel a b = digits rest digit fuel a b

  one_more : (fuel a b : ℕ) → a ≤ fuel → bitwise (suc fuel) a b ≡ bitwise fuel a b
  one_more zero zero b h = refl
  one_more (suc fuel) zero b h = refl
  one_more zero (suc a) b h = absurd (omega arith)
  one_more (suc fuel) (suc a) b h =
      let half = one_more fuel (suc a / 2) (b / 2) (omega arith) in omega arith

  many_more : (extra a b : ℕ) → bitwise (extra + a) a b ≡ bitwise a a b
  many_more zero a b = let same : 0 + a ≡ a = omega arith in rw same refl
  many_more (suc extra) a b =
      let next : suc extra + a ≡ suc (extra + a) = omega arith in
      rw next (one_more (extra + a) a b (omega arith) ∙ many_more extra a b)

  -- One digit of numbers that are not used up.
  halved :
      (a b : ℕ)
      → bitwise (suc a) (suc a) b
        ≡ bitwise (suc a / 2) (suc a / 2) (b / 2) * 2 + digit (suc a % 2) (b % 2)
  halved a b =
      let split : (a - suc a / 2) + suc a / 2 ≡ a = omega arith in
      let less = many_more (a - suc a / 2) (suc a / 2) (b / 2) in
      let there : bitwise a (suc a / 2) (b / 2) ≡ bitwise (suc a / 2) (suc a / 2) (b / 2) =
        ap (λ fuel. bitwise fuel (suc a / 2) (b / 2)) (sym split) ∙ less in
      ap (λ x. x * 2 + digit (suc a % 2) (b % 2)) there

pub zero-bit_or : (b : ℕ) → bit_or 0 b ≡ b
zero-bit_or b = bit_or-bitwise 0 b

pub zero-bit_and : (b : ℕ) → bit_and 0 b ≡ 0
zero-bit_and b = bit_and-bitwise 0 b

pub bit_or_step : (m n : ℕ) → bit_or m n ≡ bit_or (m / 2) (n / 2) * 2 + max (m % 2) (n % 2)
bit_or_step zero b = let here = zero-bit_or b in let half = zero-bit_or (b / 2) in omega arith
bit_or_step (suc a) b =
    let here = bit_or-bitwise (suc a) b in
    let half = bit_or-bitwise (suc a / 2) (b / 2) in
    here ∙ halved (λ b. b) max a b ∙ ap (λ x. x * 2 + max (suc a % 2) (b % 2)) (sym half)

pub bit_and_step : (m n : ℕ) → bit_and m n ≡ bit_and (m / 2) (n / 2) * 2 + min (m % 2) (n % 2)
bit_and_step zero b = let here = zero-bit_and b in let half = zero-bit_and (b / 2) in omega arith
bit_and_step (suc a) b =
    let here = bit_and-bitwise (suc a) b in
    let half = bit_and-bitwise (suc a / 2) (b / 2) in
    here ∙ halved (λ b. 0) min a b ∙ ap (λ x. x * 2 + min (suc a % 2) (b % 2)) (sym half)

le-bit_or_fuel : (n a b : ℕ) → a ≤ n → a ≤ bit_or a b
le-bit_or_fuel n zero b h = omega arith
le-bit_or_fuel zero (suc a) b h = absurd (omega arith)
le-bit_or_fuel (suc n) (suc a) b h =
    omega (arith, bit_or_step (suc a) b, le-bit_or_fuel n (suc a / 2) (b / 2) (omega arith))

-- Setting bits never lowers a number.
pub le-bit_or : (a b : ℕ) → a ≤ bit_or a b
le-bit_or a b = le-bit_or_fuel a a b (omega arith)

-- Bits below and from position `k` on do not meet.
pub bit_or_disjoint : (k a b : ℕ) → a < 2 ^ k → bit_or a (b * 2 ^ k) ≡ a + b * 2 ^ k
bit_or_disjoint zero a b h =
    let e : a ≡ 0 = omega arith in rw e (omega (arith, zero-bit_or (b * 2 ^ 0)))
bit_or_disjoint (suc k) a b h =
    let p : b * 2 ^ suc k ≡ 2 * (b * 2 ^ k) = omega (arith, ap (λ (t : ℕ). b * t) (pow-suc 2 k)) in
    let q : 2 * (b * 2 ^ k) / 2 ≡ b * 2 ^ k = omega arith in
    let below : a / 2 < 2 ^ k = omega (arith, pow-suc 2 k) in
    rw p (
      omega (
        arith,
        bit_or_step a (2 * (b * 2 ^ k)),
        bit_or_disjoint k (a / 2) b below,
        ap (λ t. bit_or (a / 2) t) q,
      ))

bit_and_nothing : (bound m : ℕ) → m ≤ bound → bit_and m 0 ≡ 0
bit_and_nothing bound zero le = zero-bit_and 0
bit_and_nothing zero (suc b) le = absurd (omega arith)
bit_and_nothing (suc bound) (suc b) le =
    let digit = bit_and_step (suc b) 0 in
    let half = bit_and_nothing bound (suc b / 2) (omega arith) in omega arith

pub bit_and-zero : (m : ℕ) → bit_and m 0 ≡ 0
bit_and-zero m = let whole = bit_and_nothing m m (omega arith) in whole

-- A mask of the low bits is a remainder.
pub bit_and-mask : (k a : ℕ) → bit_and a (2 ^ k - 1) ≡ a % 2 ^ k
bit_and-mask zero a = omega (arith, bit_and-zero a)
bit_and-mask (suc k) a =
    let p : 2 ^ suc k ≡ 2 * 2 ^ k = omega (arith, pow-suc 2 k) in
    let pos : 0 < 2 ^ k = pow_pos k in
    let half : (2 * 2 ^ k - 1) / 2 ≡ 2 ^ k - 1 = omega arith in
    let odd : (2 * 2 ^ k - 1) % 2 ≡ 1 = omega arith in
    let c = a / 2 / 2 ^ k in
    let d = a / 2 % 2 ^ k in
    let less : d < 2 ^ k = mod-lt (a / 2) pos in
    let split : d + c * 2 ^ k ≡ a / 2 = mod-add-div' (a / 2) (2 ^ k) in
    let prod : c * (2 * 2 ^ k) ≡ 2 * (c * 2 ^ k) = omega arith in
    let whole : d * 2 + a % 2 + c * (2 * 2 ^ k) ≡ a = omega arith in
    let rem : a % (2 * 2 ^ k) ≡ d * 2 + a % 2 =
      ap (λ x. x % (2 * 2 ^ k)) (sym whole)
      ∙ add-mul-mod_self_right (d * 2 + a % 2) c (2 * 2 ^ k)
      ∙ mod-eq_of_lt (omega arith) in
    rw p (
      omega (
        arith,
        bit_and_step a (2 * 2 ^ k - 1),
        bit_and-mask k (a / 2),
        ap (λ t. bit_and (a / 2) t) half,
        odd,
        rem,
      ))
  where
    pow_pos : (k : ℕ) → 0 < 2 ^ k
    pow_pos zero = omega arith
    pow_pos (suc k) = omega (arith, pow-suc 2 k, pow_pos k)

bit_or_nothing : (bound m : ℕ) → m ≤ bound → bit_or m 0 ≡ m
bit_or_nothing bound zero le = zero-bit_or 0
bit_or_nothing zero (suc b) le = absurd (omega arith)
bit_or_nothing (suc bound) (suc b) le =
    let digit = bit_or_step (suc b) 0 in
    let half = bit_or_nothing bound (suc b / 2) (omega arith) in omega arith

pub bit_or-zero : (m : ℕ) → bit_or m 0 ≡ m
bit_or-zero m = let whole = bit_or_nothing m m (omega arith) in whole
