-- ===== src/Base/Lists.antt =====
-- Lists measured and indexed by native numbers, under the library's names.
use Prim.Native.Nat.{ℕ, zero, suc, ◌+◌, ◌-◌, ◌≤◌, ◌<◌, min}
use mathlib.Core.Path.{◌≡◌, refl, ap}
use mathlib.Core.Logic.{◌≢◌}
use mathlib.Core.List.{List, [], ◌∷◌, ◌++◌, map}
use mathlib.Core.Option.{Option, none, some}
use native.Mathlib.Omega.{arith}

module _ {ℓ} {A : Type ℓ} where
  abbrev pub length : List A → ℕ
  length [] = 0
  length (x ∷ xs) = suc (length xs)

  abbrev pub get_elem? : List A → ℕ → Option A
  get_elem? [] i = none
  get_elem? (x ∷ xs) zero = some x
  get_elem? (x ∷ xs) (suc i) = get_elem? xs i

  -- A write out of bounds changes nothing.
  abbrev pub set : List A → ℕ → A → List A
  set [] i v = []
  set (x ∷ xs) zero v = v ∷ xs
  set (x ∷ xs) (suc i) v = x ∷ set xs i v

  pub length-append : (xs ys : List A) → length (xs ++ ys) ≡ length xs + length ys
  length-append [] ys = omega arith
  length-append (x ∷ xs) ys = omega (arith, length-append xs ys)

module _ {ℓ} {A : Type ℓ} where
  pub length-set : (xs : List A) (i : ℕ) (v : A) → length (set xs i v) ≡ length xs
  length-set [] i v = refl
  length-set (x ∷ xs) zero v = refl
  length-set (x ∷ xs) (suc i) v = ap suc (length-set xs i v)

  pub get_elem?-set_self :
      (xs : List A) (i : ℕ) (v : A) → i < length xs → get_elem? (set xs i v) i ≡ some v
  get_elem?-set_self [] i v h = elim h [ ]
  get_elem?-set_self (x ∷ xs) zero v h = refl
  get_elem?-set_self (x ∷ xs) (suc i) v h = get_elem?-set_self xs i v (omega arith)

  pub get_elem?-set_ne :
      (xs : List A) {i j : ℕ} (v : A) → i ≢ j → get_elem? (set xs i v) j ≡ get_elem? xs j
  get_elem?-set_ne [] v h = refl
  get_elem?-set_ne (x ∷ xs) {i = zero} {j = zero} v h = absurd (h refl)
  get_elem?-set_ne (x ∷ xs) {i = zero} {j = suc j} v h = refl
  get_elem?-set_ne (x ∷ xs) {i = suc i} {j = zero} v h = refl
  get_elem?-set_ne (x ∷ xs) {i = suc i} {j = suc j} v h = get_elem?-set_ne xs v (λ e. h (ap suc e))

  pub set-set : (xs : List A) (i : ℕ) (v w : A) → set (set xs i v) i w ≡ set xs i w
  set-set [] i v w = refl
  set-set (x ∷ xs) zero v w = refl
  set-set (x ∷ xs) (suc i) v w = ap (λ l. x ∷ l) (set-set xs i v w)

module _ {ℓ} {A : Type ℓ} where
  abbrev pub get_or : List A → ℕ → A → A
  get_or [] i d = d
  get_or (x ∷ xs) zero d = x
  get_or (x ∷ xs) (suc i) d = get_or xs i d

  abbrev pub take : ℕ → List A → List A
  take zero xs = []
  take (suc n) [] = []
  take (suc n) (x ∷ xs) = x ∷ take n xs

  abbrev pub drop : ℕ → List A → List A
  drop zero xs = xs
  drop (suc n) [] = []
  drop (suc n) (x ∷ xs) = drop n xs

  abbrev pub replicate : ℕ → A → List A
  replicate zero a = []
  replicate (suc n) a = a ∷ replicate n a

  pub take-append-drop : (n : ℕ) (xs : List A) → take n xs ++ drop n xs ≡ xs
  take-append-drop zero xs = refl
  take-append-drop (suc n) [] = refl
  take-append-drop (suc n) (x ∷ xs) = rw (take-append-drop n xs)

  pub length-take : (n : ℕ) (xs : List A) → length (take n xs) ≡ min n (length xs)
  length-take zero xs = omega arith
  length-take (suc n) [] = omega arith
  length-take (suc n) (x ∷ xs) = omega (arith, length-take n xs)

  pub length-drop : (n : ℕ) (xs : List A) → length (drop n xs) ≡ length xs - n
  length-drop zero xs = omega arith
  length-drop (suc n) [] = omega arith
  length-drop (suc n) (x ∷ xs) = omega (arith, length-drop n xs)

  pub length-replicate : (n : ℕ) (a : A) → length (replicate n a) ≡ n
  length-replicate zero a = refl
  length-replicate (suc n) a = ap suc (length-replicate n a)

  pub length-map {κ} : {B : Type κ} (xs : List A) (f : A → B) → length (map f xs) ≡ length xs
  length-map [] f = refl
  length-map (x ∷ xs) f = ap suc (length-map xs f)

module _ {ℓ} {A : Type ℓ} where
  pub get_elem?-lt : (xs : List A) (n : ℕ) {a : A} → get_elem? xs n ≡ some a → n < length xs
  get_elem?-lt [] n h = absurd (ground arith)
  get_elem?-lt (x ∷ xs) zero h = omega arith
  get_elem?-lt (x ∷ xs) (suc n) h = omega (arith, get_elem?-lt xs n h)

  pub get_elem?_of_lt : (xs : List A) (n : ℕ) → n < length xs → (a : A) × (get_elem? xs n ≡ some a)
  get_elem?_of_lt [] n h = absurd (omega arith)
  get_elem?_of_lt (x ∷ xs) zero h = (x, refl)
  get_elem?_of_lt (x ∷ xs) (suc n) h = get_elem?_of_lt xs n (omega arith)

  pub get_elem?-none : (xs : List A) (n : ℕ) → length xs ≤ n → get_elem? xs n ≡ none
  get_elem?-none [] n h = refl
  get_elem?-none (x ∷ xs) zero h = absurd (omega arith)
  get_elem?-none (x ∷ xs) (suc n) h = get_elem?-none xs n (omega arith)

module _ {ℓ} {A : Type ℓ} where
  -- Writing just past a prefix extends it.
  pub take-set_end :
      (xs : List A) (n : ℕ) (v : A)
      → n < length xs
      → take (suc n) (set xs n v) ≡ take n xs ++ (v ∷ [])
  take-set_end [] n v h = absurd (omega arith)
  take-set_end (x ∷ xs) zero v h = refl
  take-set_end (x ∷ xs) (suc n) v h = ap (λ u. x ∷ u) (take-set_end xs n v (omega arith))

  -- Writing at or past the end of a prefix leaves it.
  pub take-set_ge : (xs : List A) (n i : ℕ) (v : A) → n ≤ i → take n (set xs i v) ≡ take n xs
  take-set_ge xs zero i v h = refl
  take-set_ge [] (suc n) i v h = refl
  take-set_ge (x ∷ xs) (suc n) zero v h = absurd (omega arith)
  take-set_ge (x ∷ xs) (suc n) (suc i) v h = ap (λ u. x ∷ u) (take-set_ge xs n i v (omega arith))

  pub take-take : (xs : List A) (m n : ℕ) → m ≤ n → take m (take n xs) ≡ take m xs
  take-take xs zero n h = refl
  take-take xs (suc m) zero h = absurd (omega arith)
  take-take [] (suc m) (suc n) h = refl
  take-take (x ∷ xs) (suc m) (suc n) h = ap (λ u. x ∷ u) (take-take xs m n (omega arith))

  pub take_all : (xs : List A) (n : ℕ) → length xs ≤ n → take n xs ≡ xs
  take_all [] zero h = refl
  take_all [] (suc n) h = refl
  take_all (x ∷ xs) zero h = absurd (omega arith)
  take_all (x ∷ xs) (suc n) h = ap (λ u. x ∷ u) (take_all xs n (omega arith))

  pub take-append_self : (xs ys : List A) → take (length xs) (xs ++ ys) ≡ xs
  take-append_self [] ys = refl
  take-append_self (x ∷ xs) ys = ap (λ u. x ∷ u) (take-append_self xs ys)

  pub drop-append_self : (xs ys : List A) → drop (length xs) (xs ++ ys) ≡ ys
  drop-append_self [] ys = refl
  drop-append_self (x ∷ xs) ys = drop-append_self xs ys

  pub drop-nil : (n : ℕ) → drop {A = A} n [] ≡ []
  drop-nil zero = refl
  drop-nil (suc n) = refl

  pub drop-drop : (xs : List A) (m n : ℕ) → drop m (drop n xs) ≡ drop (n + m) xs
  drop-drop xs m zero = ap (λ k. drop k xs) (omega arith)
  drop-drop [] m (suc n) = rw (drop-nil m, drop-nil (suc n + m))
  drop-drop (x ∷ xs) m (suc n) =
      let e : suc n + m ≡ suc (n + m) = omega arith in rw (e, drop-drop xs m n)

  pub take-append_left : (xs ys : List A) (n : ℕ) → length xs ≡ n → take n (xs ++ ys) ≡ xs
  take-append_left xs ys n h = rw (← h) (take-append_self xs ys)

  pub drop-append_left : (xs ys : List A) (n : ℕ) → length xs ≡ n → drop n (xs ++ ys) ≡ ys
  drop-append_left xs ys n h = rw (← h) (drop-append_self xs ys)

  -- A prefix is a shorter prefix and what follows it.
  pub take-append-take :
      (xs : List A) (n m : ℕ) → n ≤ m → take n xs ++ take (m - n) (drop n xs) ≡ take m xs
  take-append-take xs zero m h = ap (λ k. take k xs) (omega arith)
  take-append-take [] (suc n) zero h = absurd (omega arith)
  take-append-take [] (suc n) (suc m) h = take-nil (suc m - suc n)
    where
      take-nil : (k : ℕ) → take {A = A} k [] ≡ []
      take-nil zero = refl
      take-nil (suc k) = refl
  take-append-take (x ∷ xs) (suc n) zero h = absurd (omega arith)
  take-append-take (x ∷ xs) (suc n) (suc m) h =
      let e : suc m - suc n ≡ m - n = omega arith in
      rw e (ap (λ u. x ∷ u) (take-append-take xs n m (omega arith)))
