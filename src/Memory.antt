-- ===== src/Memory.antt =====
-- system/brk.c and lib/sbrk.c: the program break, in the kernel and as the C library's allocator
-- asks for memory. Addresses have 32 bits.
pub mod Break
pub mod Malloc
pub mod Pool
mod Tests
use filestick.Base.{
  ℕ, zero, suc, ◌+◌, ◌-◌, ◌*◌, ◌/◌, ◌%◌, ◌^◌, ◌≤◌, ◌<◌, min, max, bit_and, bit_or, bit_xor, ◌≡◌,
  refl, sym, ap, ap₂, ◌∙◌, fun_ext, ◌≢◌, ◌↔◌, ◌⊎◌, inl, inr, Bool, true, false, not, ◌&&◌, ◌||◌,
  Option, none, some, List, [], ◌∷◌, ◌++◌, map, append-nil, append_assoc, arith, ltb, leb, ◌==◌,
  if◌then◌else◌, ltb→lt, lt→ltb, leb→le, ==_iff, tests, Bool-cases, Option-cases, length, get_elem?,
  get_elem?-lt, get_elem?_of_lt, get_elem?-none, set, length-append, length-set, get_elem?-set_self,
  get_elem?-set_ne, get_or, take, drop, replicate, take-set_end, take-set_ge, take-take, take_all,
  take-append_self, take-append-take, take-append_left, drop-append_left, drop-append_self,
  drop-drop, take-append-drop, length-take, length-drop, length-replicate, length-map, Errno,
  enoent, eio, enoexec, ebadf, enomem, eexist, einval, enfile, emfile, espipe, erofs, emsgsize,
  edestaddrreq, ehostunreach, etimedout, efatfs, Ret, val, err,
}
use filestick.Base.Int.{ℤ, pos, negsuc}

abbrev pub word : ℕ → ℕ
word n = n % 2 ^ 32

abbrev pub gp_space : ℕ
gp_space = 0x800

-- The program's registers and stack that `SYS_brk` looks at.
pub record Regs : Type 0 where
  pub gp : ℕ
  pub user_sp : ℕ

pub record Brk : Type 0 where
  pub program_brk : ℕ
  pub min_brk : ℕ

unfoldable pub set_min_brk : ℕ → Brk → Brk
set_min_brk addr s = record { program_brk = addr; min_brk = addr }

abbrev pub min_gp : Regs → ℕ
min_gp r = word (r.gp + gp_space)

abbrev pub max_brk : Regs → ℕ
max_brk r = word (r.user_sp + 2 ^ 32 - 1024)

-- The two adjustments that a call makes first.
abbrev pub raise_min : Regs → Brk → Brk
raise_min r s = if ltb s.min_brk (min_gp r) then record s { min_brk = min_gp r } else s

abbrev pub raise_break : Brk → Brk
raise_break s = if ltb s.program_brk s.min_brk then record s { program_brk = s.min_brk } else s

unfoldable pub sys_brk : Regs → ℕ → Brk → ℕ × Brk
sys_brk r addr s =
    let s₁ = raise_break (raise_min r s) in
    if ltb (max_brk r) addr || ltb addr s₁.min_brk
    then (s₁.program_brk, s₁)
    else (addr, record s₁ { program_brk = addr })

-- The process: the kernel's break and `memptr`, 0 for NULL.
pub record Process : Type 0 where
  pub brk : Brk
  pub memptr : ℕ

abbrev pub add_incr : ℕ → ℤ → ℕ
add_incr a (pos n) = word (a + n)
add_incr a (negsuc n) = word (a + 2 ^ 32 - word (n + 1))

-- The first call asks for the break that there is.
abbrev pub find_break : Regs → Process → Process
find_break r p =
    if p.memptr == 0
    then record { brk = (sys_brk r 0 p.brk).1; memptr = (sys_brk r 0 p.brk).0 }
    else p

-- What the second call's answer leads to; none is -1 with ENOMEM.
abbrev pub sbrk_result : Process → ℕ × Brk → Option ℕ × Process
sbrk_result p (addr, brk) =
    if addr == p.memptr
    then (none, record p { brk = brk })
    else (some p.memptr, record { brk = brk; memptr = addr })

abbrev pub sbrk_found : Regs → ℤ → Process → Option ℕ × Process
sbrk_found r incr p = sbrk_result p (sys_brk r (add_incr p.memptr incr) p.brk)

unfoldable pub sbrk : Regs → ℤ → Process → Option ℕ × Process
sbrk r incr p = sbrk_found r incr (find_break r p)
