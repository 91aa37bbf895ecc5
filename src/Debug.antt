-- ===== src/Debug.antt =====
-- The debugging commands on memory: `peek` and `poke` of system/hexdump.c, which init/peekpoke.c has
-- too. Arguments are C strings. What is printed is the result.
pub mod Numbers
pub mod PeekPoke
pub mod Shell
pub mod Dump
mod Tests
use filestick.Base.{
  ℕ, zero, suc, ◌+◌, ◌-◌, ◌*◌, ◌/◌, ◌%◌, ◌^◌, ◌≤◌, ◌<◌, min, max, bit_and, bit_or, bit_xor, ◌≡◌,
  refl, sym, ap, ap₂, ◌∙◌, fun_ext, ◌≢◌, ◌↔◌, ◌⊎◌, inl, inr, Bool, true, false, not, ◌&&◌, ◌||◌,
  Option, none, some, List, [], ◌∷◌, ◌++◌, map, append-nil, append_assoc, arith, ltb, leb, ◌==◌,
  if◌then◌else◌, ltb→lt, lt→ltb, leb→le, ==_iff, tests, Bool-cases, Option-cases, length, get_elem?,
  get_elem?-lt, get_elem?_of_lt, get_elem?-none, set, length-append, length-set, get_elem?-set_self,
  get_elem?-set_ne, set-set, get_or, take, drop, replicate, take-set_end, take-set_ge, take-take,
  take_all, take-append_self, take-append-take, take-append_left, drop-append_left,
  drop-append_self, drop-drop, take-append-drop, length-take, length-drop, length-replicate,
  length-map, Errno, enoent, eio, enoexec, ebadf, enomem, eexist, einval, enfile, emfile, espipe,
  erofs, emsgsize, edestaddrreq, ehostunreach, etimedout, efatfs, Ret, val, err,
}
use filestick.Libc.{Bytes, store8, load32, store32}

-- The value of a hexadecimal digit: small letters only.
unfoldable pub hex_digit : ℕ → Option ℕ
hex_digit c =
    if leb 48 c && leb c 57
    then some (c - 48)
    else if leb 97 c && leb c 102
    then some (c - 97 + 10)
    else none

-- One round of the loop in `hextoint`, at a byte with `shift` bits behind it. A shift by 32 or more
-- has no defined result.
abbrev pub hex_round : ℕ → ℕ → Option (Bool × ℕ) → Option (Bool × ℕ)
hex_round c shift none = none
hex_round c shift (some (false, v)) = some (false, v)
hex_round c shift (some (true, v)) = elim (hex_digit c) [
  | none ↦ some (false, v)
  | some d ↦ if leb 32 shift then none else some (true, bit_or v (d * 2 ^ shift % 2 ^ 32))
]

-- `hextoint` goes through the string from its end: whether it is a number, and `*val`.
unfoldable pub hextoint : List ℕ → Option (Bool × ℕ)
hextoint [] = some (true, 0)
hextoint (c ∷ s) = hex_round c (4 * length s) (hextoint s)

-- `uint16_t` in memory.
unfoldable pub load16 : ℕ → Bytes → ℕ
load16 a m = m a + 256 * m (a + 1)

unfoldable pub store16 : ℕ → ℕ → Bytes → Bytes
store16 a v m = store8 (a + 1) (v / 256 % 256) (store8 a (v % 256) m)

-- What the commands come to.
pub data Answer : Type 0 where
  usage : Answer
  invalid_address : Answer
  invalid_value : Answer
  invalid_size : Answer
  shows : ℕ → Answer
  done : Answer

-- The size is the first byte of an argument: w, h or b.
pub data Size : Type 0 where
  word half byte : Size

abbrev pub size_of : List ℕ → Option Size
size_of arg =
    let sz = get_or arg 0 0 in
    if sz == 119
    then some word
    else if sz == 104
    then some half
    else if sz == 98
    then some byte
    else none

-- The core's addresses have 24 bits. An access that is not aligned, or lies past them, has no value
-- in the model.
abbrev pub size_bytes : Size → ℕ
size_bytes word = 4
size_bytes half = 2
size_bytes byte = 1

abbrev pub is_access : Size → ℕ → Bool
is_access sz a = a % size_bytes sz == 0 && leb (a + size_bytes sz) (2 ^ 24)

abbrev pub load_size : Size → ℕ → Bytes → ℕ
load_size word a m = load32 a m
load_size half a m = load16 a m
load_size byte a m = m a

abbrev pub store_size : Size → ℕ → ℕ → Bytes → Bytes
store_size word a v m = store32 a v m
store_size half a v m = store16 a (v % 2 ^ 16) m
store_size byte a v m = store8 a (v % 2 ^ 8) m

abbrev pub peek_at : List ℕ → Bytes → Option (Bool × ℕ) → Option Answer
peek_at size m none = none
peek_at size m (some (false, _)) = some invalid_address
peek_at size m (some (true, addr)) = elim (size_of size) [
  | none ↦ some invalid_size
  | some sz ↦ if is_access sz addr then some (shows (load_size sz addr m)) else none
]

unfoldable pub super_peek : List (List ℕ) → Bytes → Option Answer
super_peek (name ∷ size ∷ addr ∷ []) m = peek_at size m (hextoint addr)
super_peek _ m = some usage

abbrev pub poke_value : List ℕ → ℕ → Bytes → Option (Bool × ℕ) → Option (Answer × Bytes)
poke_value size addr m none = none
poke_value size addr m (some (false, _)) = some (invalid_value, m)
poke_value size addr m (some (true, v)) = elim (size_of size) [
  | none ↦ some (invalid_size, m)
  | some sz ↦ if is_access sz addr then some (done, store_size sz addr v m) else none
]

abbrev pub poke_at : List ℕ → List ℕ → Bytes → Option (Bool × ℕ) → Option (Answer × Bytes)
poke_at size value m none = none
poke_at size value m (some (false, _)) = some (invalid_address, m)
poke_at size value m (some (true, addr)) = poke_value size addr m (hextoint value)

unfoldable pub super_poke : List (List ℕ) → Bytes → Option (Answer × Bytes)
super_poke (name ∷ size ∷ addr ∷ value ∷ []) m = poke_at size value m (hextoint addr)
super_poke _ m = some (usage, m)
