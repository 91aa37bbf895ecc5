-- ===== src/Debug/Dump.antt =====
-- `hexdump` of system/hexdump.c: the lines that it prints for some bytes of memory.
use filestick.Base.{
  ℕ, zero, suc, ◌+◌, ◌-◌, ◌/◌, ◌%◌, ◌^◌, ◌≤◌, ◌<◌, ◌≡◌, refl, sym, ap, ◌∙◌, inl, inr, true, ◌&&◌,
  Option, none, some, List, [], ◌∷◌, ◌++◌, map, append-nil, arith, ltb, leb, if◌then◌else◌,
  Bool-cases, length, take, drop, take_all, take-append-drop, length-drop,
}

-- `printchars`: a byte as it is shown.
unfoldable pub shown_char : ℕ → ℕ
shown_char b = if ltb 31 b && ltb b 127 then b else 46

-- A line: the address, the bytes in hexadecimal, and as characters. `hexline` fills up a short line
-- with so many blanks.
pub record DumpLine : Type 0 where
  pub addr : ℕ
  pub hexline : List ℕ
  pub blanks : ℕ
  pub printchars : List ℕ

unfoldable pub dump_line : ℕ → ℕ → List ℕ → DumpLine
dump_line addr linelen buf = record {
  addr = addr;
  hexline = take linelen buf;
  blanks = 16 - linelen;
  printchars = map shown_char (take linelen buf);
}

-- The `do … while` loop, on fuel, for a size that is not negative.
unfoldable pub dump_loop : ℕ → List ℕ → ℕ → ℕ → Option (List DumpLine)
dump_loop zero buf size addr = none
dump_loop (suc fuel) buf size addr =
    let line = dump_line addr (if leb 16 size then 16 else size) buf in
    let rest = dump_loop fuel (drop 16 buf) (size - 16) ((addr + 16) % 2 ^ 32) in
    if leb size 16
    then some (line ∷ [])
    else elim rest [ none ↦ none | some lines ↦ some (line ∷ lines) ]

unfoldable pub hexdump : List ℕ → ℕ → ℕ → Option (List DumpLine)
hexdump buf size addr = dump_loop (size / 16 + 1) buf size addr

-- The bytes and characters that the lines show, one line after the other.
abbrev pub all_bytes : List DumpLine → List ℕ
all_bytes [] = []
all_bytes (l ∷ ls) = l.hexline ++ all_bytes ls

abbrev pub all_chars : List DumpLine → List ℕ
all_chars [] = []
all_chars (l ∷ ls) = l.printchars ++ all_chars ls

-- Addresses that go up by 16.
abbrev pub Addressed : ℕ → List DumpLine → Type 0
Addressed addr [] = Unit
Addressed addr (l ∷ ls) = (l.addr ≡ addr) × Addressed ((addr + 16) % 2 ^ 32) ls

map-append : (f : ℕ → ℕ) (xs ys : List ℕ) → map f (xs ++ ys) ≡ map f xs ++ map f ys
map-append f [] ys = refl
map-append f (x ∷ xs) ys = ap (λ l. f x ∷ l) (map-append f xs ys)

dump_loop-bytes :
    (fuel : ℕ) (buf : List ℕ) (size addr : ℕ)
    → length buf ≡ size
    → size / 16 < fuel
    → (lines : List DumpLine) × (dump_loop fuel buf size addr ≡ some lines)
      × (all_bytes lines ≡ buf)
      × (all_chars lines ≡ map shown_char buf)
      × Addressed addr lines
unfolding dump_loop dump_line
dump_loop-bytes zero buf size addr n h = absurd (omega arith)
dump_loop-bytes (suc fuel) buf size addr n h = elim (Bool-cases (leb size 16)) [
  | inl e ↦
      let len : length buf ≤ (if leb 16 size then 16 else size) = ground arith in
      let whole = take_all buf (if leb 16 size then 16 else size) len in
      (
        dump_line addr (if leb 16 size then 16 else size) buf ∷ [],
        rw (dump_loop, e) refl,
        append-nil (take (if leb 16 size then 16 else size) buf) ∙ whole,
        append-nil (map shown_char (take (if leb 16 size then 16 else size) buf))
            ∙ ap (map shown_char) whole,
        (refl, tt),
      )
  | inr e ↦
      let full : leb 16 size ≡ true = ground arith in
      let (lines, p, bytes, chars, addrs) =
        dump_loop-bytes fuel (drop 16 buf) (size - 16) ((addr + 16) % 2 ^ 32)
          (omega (arith, length-drop 16 buf)) (ground arith) in
      let parts = take-append-drop 16 buf in
      (
        dump_line addr 16 buf ∷ lines,
        rw (dump_loop, e, p, full) refl,
        ap (λ l. take 16 buf ++ l) bytes ∙ parts,
        ap (λ l. map shown_char (take 16 buf) ++ l) chars
            ∙ sym (map-append shown_char (take 16 buf) (drop 16 buf))
            ∙ ap (map shown_char) parts,
        (refl, addrs),
      )
]

-- `hexdump` of some bytes ends, after a round for each sixteen of them and one at the end, and shows
-- each of them once and in order, in hexadecimal and as a character; the lines' addresses go up by 16
-- from the one that was given.
pub hexdump-bytes :
    (buf : List ℕ) (addr : ℕ)
    → (lines : List DumpLine) × (hexdump buf (length buf) addr ≡ some lines)
      × (all_bytes lines ≡ buf)
      × (all_chars lines ≡ map shown_char buf)
      × Addressed addr lines
unfolding hexdump
hexdump-bytes buf addr =
    dump_loop-bytes (length buf / 16 + 1) buf (length buf) addr refl (omega arith)
