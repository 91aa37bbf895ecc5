-- ===== src/Libc/Copied.antt =====
-- `memcpy` and `memset` byte for byte.
use filestick.Base.{
  ℕ, zero, suc, ◌+◌, ◌-◌, ◌*◌, ◌/◌, ◌%◌, ◌≤◌, ◌<◌, bit_and, ◌≡◌, refl, ap, ◌∙◌, fun_ext, ◌⊎◌, inl,
  inr, true, false, ◌&&◌, arith, ltb, leb, ◌==◌, if◌then◌else◌, Bool-cases,
}
use filestick.Base.Bits.{bit_and_step, bit_and-zero}
use filestick.Libc.{
  Bytes, store8, load32, store32, copy_words, copy_bytes, memcpy, unaligned, memset,
}

-- The memory after `n` bytes from `s` on were put at `d`.
abbrev pub moved : ℕ → ℕ → ℕ → Bytes → Bytes
moved n d s m x = if leb d x && ltb x (d + n) then m (s + (x - d)) else m x

abbrev pub Apart : ℕ → ℕ → ℕ → Type 0
Apart n d s = (d + n ≤ s) ⊎ (s + n ≤ d)

-- A copy of the first bytes and then of the rest.
moved-moved :
    (j k d s : ℕ) (m : Bytes) (x : ℕ)
    → Apart (j + k) d s
    → moved k (d + j) (s + j) (moved j d s m) x ≡ moved (j + k) d s m x
moved-moved j k d s m x apart = elim (Bool-cases (leb (d + j) x && ltb x (d + j + k))) [
  | inl late ↦
      let p : (leb d x && ltb x (d + (j + k))) ≡ true = ground arith in
      let i : s + j + (x - (d + j)) ≡ s + (x - d) = ground arith in
      let q : (leb d (s + (x - d)) && ltb (s + (x - d)) (d + j)) ≡ false = ground arith in
      rw (late, p, i, q) refl
  | inr early ↦ elim (Bool-cases (leb d x && ltb x (d + j))) [
    | inl here ↦
        let p : (leb d x && ltb x (d + (j + k))) ≡ true = ground arith in rw (early, here, p) refl
    | inr out ↦
        let p : (leb d x && ltb x (d + (j + k))) ≡ false = ground arith in rw (early, out, p) refl
  ]
]

store8-moved : (d s : ℕ) (m : Bytes) (x : ℕ) → store8 d (m s) m x ≡ moved 1 d s m x
store8-moved d s m x = elim (Bool-cases (x == d)) [
  | inl e ↦
      let p : (leb d x && ltb x (d + 1)) ≡ true = ground arith in
      let i : s + (x - d) ≡ s = ground arith in rw (e, p, i) refl
  | inr e ↦ let p : (leb d x && ltb x (d + 1)) ≡ false = ground arith in rw (e, p) refl
]

copy_bytes-moved : (n d s : ℕ) (m : Bytes) → Apart n d s → copy_bytes n d s m ≡ moved n d s m
unfolding copy_bytes
copy_bytes-moved zero d s m apart =
    fun_ext (λ x. let p : (leb d x && ltb x (d + 0)) ≡ false = ground arith in rw p refl)
copy_bytes-moved (suc n) d s m apart =
    copy_bytes-moved n (d + 1) (s + 1) (store8 d (m s) m) (omega arith)
    ∙ ap (moved n (d + 1) (s + 1)) (fun_ext (store8-moved d s m))
    ∙ fun_ext (λ x. moved-moved 1 n d s m x (omega arith) ∙ ap (λ k. moved k d s m x) (omega arith))

-- The four bytes of a word.
word_bytes :
    (a b c d : ℕ)
    → a < 256
    → b < 256
    → c < 256
    → d < 256
    → let v = a + 256 * b + 65536 * c + 16777216 * d in
      (v % 256 ≡ a) × (v / 256 % 256 ≡ b) × (v / 65536 % 256 ≡ c) × (v / 16777216 % 256 ≡ d)
word_bytes a b c d ha hb hc hd = (omega arith, omega arith, omega arith, omega arith)

four_stores :
    (d s : ℕ) (m : Bytes) (x : ℕ)
    → store8
        (d + 3)
        (m (s + 3))
        (store8 (d + 2) (m (s + 2)) (store8 (d + 1) (m (s + 1)) (store8 d (m s) m)))
        x
      ≡ moved 4 d s m x
four_stores d s m x = elim (Bool-cases (leb d x && ltb x (d + 4))) [
  | inr out ↦ ground arith
  | inl here ↦
      let h : (x - d ≡ 0) ⊎ ((x - d ≡ 1) ⊎ ((x - d ≡ 2) ⊎ (x - d ≡ 3))) = ground arith in
      elim h [
        | inl e ↦ ground arith
        | inr (inl e) ↦ ground arith
        | inr (inr (inl e)) ↦ ground arith
        | inr (inr (inr e)) ↦ ground arith
      ]
]

word-moved :
    (d s : ℕ) (m : Bytes) → ((a : ℕ) → m a < 256) → store32 d (load32 s m) m ≡ moved 4 d s m
unfolding store32 load32
word-moved d s m byte =
    let (p, q, r, t) =
      word_bytes (m s) (m (s + 1)) (m (s + 2)) (m (s + 3)) (byte s) (byte (s + 1)) (byte (s + 2))
        (byte (s + 3)) in
    rw (p, q, r, t) (fun_ext (four_stores d s m))

moved_byte : (n d s : ℕ) (m : Bytes) → ((a : ℕ) → m a < 256) → (a : ℕ) → moved n d s m a < 256
moved_byte n d s m byte a = elim (Bool-cases (leb d a && ltb a (d + n))) [
  | inl e ↦ rw e (byte (s + (a - d)))
  | inr e ↦ rw e (byte a)
]

copy_words-moved :
    (k d s : ℕ) (m : Bytes)
    → Apart (4 * k) d s
    → ((a : ℕ) → m a < 256)
    → copy_words k d s m ≡ moved (4 * k) d s m
unfolding copy_words
copy_words-moved zero d s m apart byte =
    fun_ext (λ x. let p : (leb d x && ltb x (d + 4 * 0)) ≡ false = ground arith in rw p refl)
copy_words-moved (suc k) d s m apart byte =
    ap (copy_words k (d + 4) (s + 4)) (word-moved d s m byte)
    ∙ copy_words-moved k (d + 4) (s + 4) (moved 4 d s m) (omega arith) (moved_byte 4 d s m byte)
    ∙ fun_ext
        (λ x. moved-moved 4 (4 * k) d s m x (omega arith) ∙ ap (λ n. moved n d s m x) (omega arith))

low_two_bits : (n : ℕ) → bit_and n 3 ≡ n % 4
low_two_bits n = omega (arith, bit_and_step n 3, bit_and_step (n / 2) 1, bit_and-zero (n / 2 / 2))

-- `memcpy` of areas that do not meet is the copy byte for byte, whether it goes by words or by bytes:
-- each byte of the target area is the byte at the same place of the source, and no other byte of the
-- memory changes.
pub memcpy-moved :
    (dest src n : ℕ) (m : Bytes) (x : ℕ)
    → Apart n dest src
    → ((a : ℕ) → m a < 256)
    → memcpy dest src n m x ≡ moved n dest src m x
unfolding memcpy
memcpy-moved dest src n m x apart byte = elim (Bool-cases (unaligned dest src == 0 && leb 4 n)) [
  | inl e ↦
      let r : n / 4 * 4 + n % 4 ≡ n = omega arith in
      let low = low_two_bits n in
      rw
        (
          e,
          low,
          copy_words-moved (n / 4) dest src m (omega arith) byte,
          copy_bytes-moved (n % 4) (dest + 4 * (n / 4)) (src + 4 * (n / 4))
              (moved (4 * (n / 4)) dest src m) (omega arith),
        )
        (moved-moved (4 * (n / 4)) (n % 4) dest src m x (omega arith)
          ∙ ap (λ k. moved k dest src m x) (omega arith))
  | inr e ↦ rw (e, copy_bytes-moved n dest src m apart) refl
]

-- `memset` makes each byte of its area the low byte of the value, and changes no other byte.
pub memset_lem :
    (ptr c n : ℕ) (m : Bytes) (x : ℕ)
    → memset ptr c n m x ≡ (if leb ptr x && ltb x (ptr + n) then c % 256 else m x)
unfolding memset
memset_lem ptr c zero m x =
    let p : (leb ptr x && ltb x (ptr + 0)) ≡ false = ground arith in rw p refl
memset_lem ptr c (suc n) m x = memset_lem (ptr + 1) c n (store8 ptr (c % 256) m) x ∙ ground arith
