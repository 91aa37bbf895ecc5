-- ===== src/Libc/Tokens.antt =====
-- The loop that splits a line into words: `strtok` of the C library, for the delimiter " ", and the
-- loops over it in init/cli.c, system/elfload.c, system/super_shell.c and fileserver/starcmd.c.
-- A buffer is the list of its bytes; past its end stands a NUL.
use filestick.Base.{
  ℕ, zero, suc, ◌+◌, ◌||◌, Option, none, some, List, [], ◌∷◌, ◌==◌, if◌then◌else◌, set, get_or,
  drop,
}

-- The string at an index of a buffer.
abbrev pub until_nul : List ℕ → List ℕ
until_nul [] = []
until_nul (x ∷ xs) = if x == 0 then [] else x ∷ until_nul xs

abbrev pub c_str : List ℕ → ℕ → List ℕ
c_str buf p = until_nul (drop p buf)

unfoldable pub spaces_at : List ℕ → ℕ
spaces_at [] = 0
spaces_at (x ∷ xs) = if x == 32 then suc (spaces_at xs) else 0

unfoldable pub word_at : List ℕ → ℕ
word_at [] = 0
word_at (x ∷ xs) = if x == 32 || x == 0 then 0 else suc (word_at xs)

-- A call of `strtok`: `last` is where it goes on, if it does. The result is the token's index, the
-- buffer and where the next call goes on.
unfoldable pub strtok_at : List ℕ → ℕ → Option ℕ × List ℕ × Option ℕ
strtok_at buf p =
    let q = p + spaces_at (drop p buf) in
    let e = q + word_at (drop q buf) in
    if get_or buf q 0 == 0
    then (none, buf, none)
    else if get_or buf e 0 == 0
    then (some q, buf, none)
    else (some q, set buf e 0, some (e + 1))

abbrev pub strtok : List ℕ → Option ℕ → Option ℕ × List ℕ × Option ℕ
strtok buf none = (none, buf, none)
strtok buf (some p) = strtok_at buf p

-- `while(ptr && argc < MAXARGS)`, with the number of arguments that still fit.
unfoldable pub arg_loop : ℕ → Option ℕ × List ℕ × Option ℕ → List ℕ × List ℕ
arg_loop zero (ptr, buf, last) = ([], buf)
arg_loop (suc room) (none, buf, last) = ([], buf)
arg_loop (suc room) (some ptr, buf, last) =
    let (args, buf') = arg_loop room (strtok buf last) in (ptr ∷ args, buf')

unfoldable pub split_args : ℕ → List ℕ → List ℕ × List ℕ
split_args max_args buf = arg_loop max_args (strtok buf (some 0))
