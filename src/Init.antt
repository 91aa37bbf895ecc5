-- ===== src/Init.antt =====
-- The init program: the command line of init/cli.c, the scripts of init/conffile.c, `main` of
-- init/main.c, commands of init/icommands.c, and init/configure.c. Lines and
-- arguments are C strings, the lists of their bytes.
pub mod Line
pub mod Cli
pub mod Dispatch
pub mod Script
pub mod Configure
pub mod Clock
pub mod Commands
mod Tests
use filestick.Base.{
  ℕ, zero, suc, ◌+◌, ◌-◌, ◌*◌, ◌/◌, ◌%◌, ◌^◌, ◌≤◌, ◌<◌, min, max, bit_and, bit_or, bit_xor, ◌≡◌,
  refl, sym, ap, ap₂, ◌∙◌, fun_ext, ◌≢◌, ◌↔◌, ◌⊎◌, inl, inr, Bool, true, false, not, ◌&&◌, ◌||◌,
  Option, none, some, List, [], ◌∷◌, ◌++◌, map, append-nil, append_assoc, arith, ltb, leb, ◌==◌,
  if◌then◌else◌, ltb→lt, lt→ltb, leb→le, ==_iff, tests, Bool-cases, Option-cases, length, get_elem?,
  get_elem?-lt, get_elem?_of_lt, get_elem?-none, set, length-append, length-set, get_elem?-set_self,
  get_elem?-set_ne, set-set, get_or, take, drop, replicate, take-set_end, take-set_ge, take-take,
  take_all, take-append_self, take-append-take, take-append_left, drop-append_left,
  drop-append_self, drop-drop, take-append-drop, length-take, length-drop, length-replicate,
  length-map, Errno, enoent, eio, enoexec, ebadf, enomem, eexist, einval, enfile, emfile, espipe,
  erofs, emsgsize, edestaddrreq, ehostunreach, etimedout, efatfs, Ret, val, err,
}
use filestick.Libc.Tokens.{until_nul}

-- `strcpy(dest, src)`. The callers' lines have 255 bytes at most, and their buffers 256.
abbrev pub strcpy : List ℕ → List ℕ → List ℕ
strcpy dest src = src ++ 0 ∷ drop (length src + 1) dest

-- `for(i = 0; i < size; i++) if(src[i] != ' ') break;`
unfoldable pub first_nonspace : ℕ → List ℕ → ℕ
first_nonspace zero src = 0
first_nonspace (suc size) [] = 0
first_nonspace (suc size) (x ∷ src) =
    let rest = first_nonspace size src in if x == 32 then suc rest else 0

-- `for(i = len - 1; i >= 0; i--)`, with the length that remains and the buffer.
unfoldable pub trim : ℕ → List ℕ → ℕ × List ℕ
trim zero dest = (0, dest)
trim (suc i) dest =
    let rest = trim i (set dest i 0) in if ltb 32 (get_or dest i 0) then (suc i, dest) else rest

unfoldable pub clean_cmdbuf : List ℕ → List ℕ → ℕ → ℕ × List ℕ
clean_cmdbuf dest src size =
    let i = first_nonspace size src in
    let dest' = strcpy dest (drop i src) in
    if i == size then (0, dest) else trim (length (until_nul dest')) dest'
