-- ===== src/Libc.antt =====
-- The memory copies that the kernel has of its own: `memcpy` of system/memcpy.c and `memset` of
-- system/memset.c, and the splitting of a line into words that the loaders and command lines share.
-- A memory is its bytes by address. A pointer does not pass the end of the address space.
pub mod Copied
pub mod Tokens
pub mod Words
mod Strtok
pub mod Arguments
pub mod Numbers
mod Tests
use filestick.Base.{
  ℕ, zero, suc, ◌+◌, ◌-◌, ◌*◌, ◌/◌, ◌%◌, ◌^◌, ◌≤◌, ◌<◌, min, max, bit_and, bit_or, bit_xor, ◌≡◌,
  refl, sym, ap, ap₂, ◌∙◌, fun_ext, ◌≢◌, ◌↔◌, ◌⊎◌, inl, inr, Bool, true, false, not, ◌&&◌, ◌||◌,
  Option, none, some, List, [], ◌∷◌, ◌++◌, map, append-nil, append_assoc, arith, ltb, leb, ◌==◌,
  if◌then◌else◌, ltb→lt, lt→ltb, leb→le, ==_iff, tests, Bool-cases, Option-cases, length, get_elem?,
  get_elem?-lt, get_elem?_of_lt, get_elem?-none, set, length-append, length-set, get_elem?-set_self,
  get_elem?-set_ne, set-set, get_or, take, drop, replicate, take-set_end, take-set_ge, take-take,
  take_all, take-append_self, take-append-take, take-append_left, drop-append_left,
  drop-append_self, drop-drop, take-append-drop, length-take, length-drop, length-replicate,
  length-map, Errno, enoent, eio, enoexec, ebadf, enomem, eexist, einval, enfile, emfile, espipe,
  erofs, emsgsize, edestaddrreq, ehostunreach, etimedout, efatfs, Ret, val, err,
}

abbrev pub Bytes : Type 0
Bytes = ℕ → ℕ

abbrev pub store8 : ℕ → ℕ → Bytes → Bytes
store8 a v m x = if x == a then v else m x

-- A word of four bytes at an address that is a multiple of four, low byte first.
unfoldable pub load32 : ℕ → Bytes → ℕ
load32 a m = m a + 256 * m (a + 1) + 65536 * m (a + 2) + 16777216 * m (a + 3)

unfoldable pub store32 : ℕ → ℕ → Bytes → Bytes
store32 a v m =
    store8 (a + 3) (v / 16777216 % 256)
      (store8 (a + 2) (v / 65536 % 256) (store8 (a + 1) (v / 256 % 256) (store8 a (v % 256) m)))

-- `UNALIGNED(x, y)`
unfoldable pub unaligned : ℕ → ℕ → ℕ
unaligned x y = bit_or (bit_and x 3) (bit_and y 3)

-- `while(aligned--) *d++ = *s++;`
unfoldable pub copy_words : ℕ → ℕ → ℕ → Bytes → Bytes
copy_words zero d s m = m
copy_words (suc aligned) d s m = copy_words aligned (d + 4) (s + 4) (store32 d (load32 s m) m)

-- `while(n--) *ud++ = *us++;`
unfoldable pub copy_bytes : ℕ → ℕ → ℕ → Bytes → Bytes
copy_bytes zero ud us m = m
copy_bytes (suc n) ud us m = copy_bytes n (ud + 1) (us + 1) (store8 ud (m us) m)

unfoldable pub memcpy : ℕ → ℕ → ℕ → Bytes → Bytes
memcpy dest src n m =
    if unaligned dest src == 0 && leb 4 n
    then (let aligned = n / 4 in
        copy_bytes (bit_and n 3) (dest + 4 * aligned) (src + 4 * aligned)
          (copy_words aligned dest src m))
    else copy_bytes n dest src m

unfoldable pub memset : ℕ → ℕ → ℕ → Bytes → Bytes
memset ptr c zero m = m
memset ptr c (suc n) m = memset (ptr + 1) c n (store8 ptr (c % 256) m)
