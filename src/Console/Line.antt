-- ===== src/Console/Line.antt =====
-- Interactive reads: `console_read_interactive` against a line editor on lists.
use filestick.Base.{
  zero, suc, drop, ℕ, ◌+◌, ◌-◌, ◌≤◌, ◌<◌, ◌≡◌, refl, sym, ◌∙◌, ◌≢◌, ◌⊎◌, inl, inr, Bool, true,
  false, ◌||◌, Option, none, some, List, [], ◌∷◌, ◌++◌, arith, ◌==◌, if◌then◌else◌, length, set,
  length-set, take, take-set_end, take-set_ge, take-take, take_all, length-take, Ret, val,
}
use native.Mathlib.Decide.{ℕ_discrete}
use native.Mathlib.Numerals.{add-one}
use filestick.Console.{
  Console, LineBuf, enter, more, key, read_loop, line_result, console_read_interactive, line_result,
}

-- What `key` keeps of a line buffer for a read of `n` bytes: the bytes read and the count left make
-- up `n`, and the pointer stays in the buffer.
pub record IsLine (n : ℕ) (l : LineBuf) : Type 0 where
  pub at_end : l.ptr ≡ l.bytes_read
  pub whole : l.bytes_read + l.count ≡ n
  pub fits : n ≤ length l.buf

abbrev pub is_delete : ℕ → Bool
is_delete b = b == 127 || b == 8

abbrev pub drop_last : List ℕ → List ℕ
drop_last line = take (length line - 1) line

-- A line editor: the line typed so far is a list, a byte goes to its end, a delete removes its last
-- byte, and it is complete at a carriage return or when it is `limit` long. The result is the line
-- and the bytes that were not looked at; none if the line is never completed.
unfoldable pub edit : ℕ → List ℕ → List ℕ → Option (List ℕ × List ℕ)
edit limit line [] = if length line == limit then some (line, []) else none
edit limit line (b ∷ rx) =
    let rest = edit limit (if is_delete b then drop_last line else line ++ (b ∷ [])) rx in
    if length line == limit
    then some (line, b ∷ rx)
    else if b == 0x0d
    then some (line, rx)
    else rest

abbrev typed : LineBuf → List ℕ
typed l = take l.ptr l.buf

length-typed : {n : ℕ} {l : LineBuf} → IsLine n l → length (typed l) ≡ l.ptr
length-typed {l = l} v = omega (arith, length-take l.ptr l.buf)

-- A line buffer after a delete with something typed, and after any other byte.
abbrev deleted : LineBuf → LineBuf
deleted l = record l {
  ptr = l.ptr - 1;
  buf = set l.buf (l.ptr - 1) 0;
  bytes_read = l.bytes_read - 1;
  count = l.count + 1;
}

abbrev added : ℕ → LineBuf → LineBuf
added b l = record l {
  count = l.count - 1;
  bytes_read = l.bytes_read + 1;
  buf = set l.buf l.ptr b;
  ptr = l.ptr + 1;
}

typed-deleted : {n : ℕ} {l : LineBuf} → IsLine n l → typed (deleted l) ≡ drop_last (typed l)
typed-deleted {n} {l} v = rw (length-typed v) (
    take-set_ge l.buf (l.ptr - 1) (l.ptr - 1) 0 (omega arith)
    ∙ sym (take-take l.buf (l.ptr - 1) l.ptr (omega arith)))

typed-added :
    {n : ℕ} {l : LineBuf} (b : ℕ)
    → IsLine n l
    → 0 < l.count
    → typed (added b l) ≡ typed l ++ (b ∷ [])
typed-added {n} {l} b v c = rw add-one (take-set_end l.buf l.ptr b (omega arith))

deleted-IsLine : {n : ℕ} {l : LineBuf} → IsLine n l → 0 < l.ptr → IsLine n (deleted l)
deleted-IsLine {l = l} v p = omega (arith, length-set l.buf (l.ptr - 1) 0)

added-IsLine : {n : ℕ} {l : LineBuf} (b : ℕ) → IsLine n l → 0 < l.count → IsLine n (added b l)
added-IsLine {l = l} b v p = omega (arith, length-set l.buf l.ptr b)

nothing_typed : {n : ℕ} {l : LineBuf} → IsLine n l → l.ptr ≡ 0 → drop_last (typed l) ≡ typed l
nothing_typed {l = l} v p =
    take_all (typed l) (length (typed l) - 1) (omega (arith, length-typed v))

key-cases :
    {n : ℕ} (b : ℕ) (l : LineBuf)
    → IsLine n l
    → 0 < l.count
    → ((b ≡ 0x0d) × (key b l ≡ enter))
      ⊎ ((is_delete b ≡ true) × (0 < l.ptr) × (key b l ≡ more (8 ∷ 32 ∷ 8 ∷ []) (deleted l)))
      ⊎ ((is_delete b ≡ true) × (l.ptr ≡ 0) × (key b l ≡ more (7 ∷ []) l))
      ⊎ ((b ≢ 0x0d) × (is_delete b ≡ false) × (key b l ≡ more (b ∷ []) (added b l)))
unfolding key
key-cases b l v c = ground (arith, v.at_end, v.whole, v.fits)

drop-set_lt : (n : ℕ) (xs : List ℕ) (i v : ℕ) → i < n → drop n (set xs i v) ≡ drop n xs
drop-set_lt n [] i v h = refl
drop-set_lt zero (x ∷ xs) i v h = absurd (omega arith)
drop-set_lt (suc n) (x ∷ xs) zero v h = refl
drop-set_lt (suc n) (x ∷ xs) (suc i) v h = drop-set_lt n xs i v (omega arith)

-- What a run of the loop comes to, given what the line editor makes of the same bytes.
abbrev LoopReads :
    ℕ → List ℕ → Option (List ℕ × List ℕ) → Option (LineBuf × List ℕ × List ℕ) → Type 0
LoopReads n past none out = out ≡ none
LoopReads n past (some (line, rest)) out =
    (l : LineBuf) × (tx : List ℕ) × (out ≡ some (l, rest, tx))
    × (IsLine n l)
    × (typed l ≡ line)
    × (drop n l.buf ≡ past)

loop_done :
    {n : ℕ} {l : LineBuf} (rx tx : List ℕ)
    → IsLine n l
    → l.count ≡ 0
    → LoopReads n (drop n l.buf) (edit n (typed l) rx) (read_loop l rx tx)
unfolding edit read_loop
loop_done {n} {l} [] tx v c =
    let e : (length (typed l) == n) ≡ true = ground (arith, length-typed v) in
    let f : (l.count == 0) ≡ true = ground arith in rw (e, f) (l, tx, refl, v, refl, refl)
loop_done {n} {l} (b ∷ rx) tx v c =
    let e : (length (typed l) == n) ≡ true = ground (arith, length-typed v) in
    let f : (l.count == 0) ≡ true = ground arith in rw (e, f) (l, tx, refl, v, refl, refl)

read_loop-LoopReads :
    (n : ℕ) (l : LineBuf) (rx tx : List ℕ)
    → IsLine n l
    → LoopReads n (drop n l.buf) (edit n (typed l) rx) (read_loop l rx tx)
unfolding edit read_loop
read_loop-LoopReads n l [] tx v = elim (ℕ_discrete l.count 0) [
  | yes c ↦ loop_done [] tx v c
  | no c ↦
      let e : (length (typed l) == n) ≡ false = ground (arith, length-typed v) in
      let f : (l.count == 0) ≡ false = ground arith in rw (e, f) refl
]
read_loop-LoopReads n l (b ∷ rx) tx v = elim (ℕ_discrete l.count 0) [
  | yes c ↦ loop_done (b ∷ rx) tx v c
  | no c ↦
      let e : (length (typed l) == n) ≡ false = ground (arith, length-typed v) in
      let f : (l.count == 0) ≡ false = ground arith in
      elim (key-cases b l v (omega arith)) [
        | inl (q, k) ↦
            let g : (b == 0x0d) ≡ true = ground arith in
            rw (e, f, g, k) (l, tx ++ (0x0a ∷ 0x0d ∷ []), refl, v, refl, refl)
        | inr (inl (q, p, k)) ↦
            let g : (b == 0x0d) ≡ false = ground arith in
            rw (e, f, g, k, q, ← typed-deleted v, ← drop-set_lt n l.buf (l.ptr - 1) 0 (omega arith))
              (read_loop-LoopReads n (deleted l) rx (tx ++ (8 ∷ 32 ∷ 8 ∷ [])) (deleted-IsLine v p))
        | inr (inr (inl (q, p, k))) ↦
            let g : (b == 0x0d) ≡ false = ground arith in
            rw (e, f, g, k, q, nothing_typed v p) (read_loop-LoopReads n l rx (tx ++ (7 ∷ [])) v)
        | inr (inr (inr (r, q, k))) ↦
            let g : (b == 0x0d) ≡ false = ground arith in
            let pos : 0 < l.count = omega arith in
            rw (e, f, g, k, q, ← typed-added b v pos, ← drop-set_lt n l.buf l.ptr b (omega arith))
              (read_loop-LoopReads n (added b l) rx (tx ++ (b ∷ [])) (added-IsLine b v pos))
      ]
]

-- What the system call comes to.
abbrev pub Completes :
    ℕ → List ℕ → Console → Option (List ℕ × List ℕ) → Option (Ret × List ℕ × Console) → Type 0
Completes count past c none out = out ≡ none
Completes count past c (some (line, rest)) out =
    (buf : List ℕ) × (tx : List ℕ) × (out
      ≡ some (val (length line), buf, record c { rx = rest; tx = tx }))
    × (take (length line) buf ≡ line)
    × (length line ≤ count)
    × (drop count buf ≡ past)

complete :
    (count : ℕ) (past : List ℕ) (c : Console) (e : Option (List ℕ × List ℕ))
    (out : Option (LineBuf × List ℕ × List ℕ))
    → LoopReads count past e out
    → Completes count past c e (line_result c out)
complete count past c none out h = rw h refl
complete count past c (some (line, rest)) out (l, tx, h, v, t, s) =
    let len : length line ≡ l.bytes_read = rw (← t) (length-typed v ∙ v.at_end) in
    (l.buf, tx, rw (h, len) refl, rw (len, ← v.at_end) t, omega arith, s)

-- The console's line editor: `console_read_interactive` returns exactly when `edit` completes a
-- line from the bytes that arrive. It then returns the length of that line, has put the line at the
-- start of the caller's buffer, leaves the bytes after it unread, and has written nothing in the
-- buffer from `count` on, nor past its end. The buffer has room for `count` bytes.
pub console_read_interactive-edit :
    (count : ℕ) (buf : List ℕ) (c : Console)
    → count ≤ length buf
    → Completes count (drop count buf) c (edit count [] c.rx) (console_read_interactive count buf c)
unfolding console_read_interactive
console_read_interactive-edit count buf c h =
    complete count (drop count buf) c (edit count [] c.rx)
      (read_loop (record { buf = buf; ptr = 0; count = count; bytes_read = 0 }) c.rx c.tx)
      (read_loop-LoopReads count (record { buf = buf; ptr = 0; count = count; bytes_read = 0 }) c.rx
        c.tx (record { at_end = refl; whole = omega arith; fits = h }))
