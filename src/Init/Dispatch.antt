-- ===== src/Init/Dispatch.antt =====
-- Which command a line names, and what it is called with.
use filestick.Base.{
  ℕ, zero, suc, ◌-◌, ◌<◌, ◌≡◌, refl, ap, ◌∙◌, inl, inr, Bool, true, false, not, ◌&&◌, ◌||◌, Option,
  none, some, List, [], ◌∷◌, ◌++◌, arith, ltb, ◌==◌, if◌then◌else◌, Bool-cases, Option-cases,
  length, get_or, take, replicate,
}
use filestick.Base.Text.{str_eq}
use filestick.Libc.Tokens.{until_nul}
use filestick.Libc.Words.{words, no_nul}
use filestick.Libc.Arguments.{split_args-words}
use filestick.Init.{clean_cmdbuf}
use filestick.Init.Line.{cleaned, spaces, clean_cmdbuf-cleaned, no_nul-cleaned}
use filestick.Init.Cli.{
  CmdTable, commands, Os, comment, command_loop, internal_command, run_internal_command, parse_cmd,
  run_cleaned, run_elf, max_args, raw_cmdbuf_size,
}

-- The bytes of a line before its first space.
abbrev pub head_word : List ℕ → List ℕ
head_word [] = []
head_word (x ∷ xs) = let rest = head_word xs in if x == 32 then [] else x ∷ rest

-- The command of a table by its name.
unfoldable pub named : List CmdTable → List ℕ → Option CmdTable
named [] name = none
named (t ∷ table) name = let rest = named table name in if str_eq t.cmd name then some t else rest

-- No space and no NUL.
abbrev pub one_word : List ℕ → Bool
one_word [] = true
one_word (x ∷ xs) = not (x == 32) && (not (x == 0) && one_word xs)

abbrev pub one_words : List CmdTable → Bool
one_words [] = true
one_words (t ∷ table) = one_word t.cmd && one_words table

-- The test in the loop, on a buffer that holds a line and then NULs.
name_test :
    (name line : List ℕ) (z : ℕ)
    → one_word name ≡ true
    → no_nul line ≡ true
    → let buf = line ++ replicate z 0 in
      let n = length name in
      ((get_or buf n 0 == 32 || get_or buf n 0 == 0) && str_eq (take n name) (take n buf))
      ≡ str_eq name (head_word line)
unfolding str_eq
name_test [] [] zero h k = refl
name_test [] [] (suc z) h k = refl
name_test [] (x ∷ line) z h k = ground arith
name_test (c ∷ name) [] zero h k = refl
name_test (c ∷ name) [] (suc z) h k = ground arith
name_test (c ∷ name) (x ∷ line) z h k =
    let rest = name_test name line z (ground arith) (ground arith) in ground arith

command_loop-named :
    (table : List CmdTable) (line : List ℕ) (z : ℕ)
    → one_words table ≡ true
    → no_nul line ≡ true
    → command_loop table (line ++ replicate z 0) ≡ named table (head_word line)
unfolding command_loop named
command_loop-named [] line z h k = refl
command_loop-named (t ∷ table) line z h k =
    let test = name_test t.cmd line z (ground arith) k in
    let rest = command_loop-named table line z (ground arith) k in
    rw (command_loop, named, test, rest) refl

-- `internal_command` finds a command exactly when its name is the line up to the first space: the
-- comparison of so many bytes as the name has, and the test of the byte behind them, come to the
-- comparison of the line's first word with the names of the table, in their order. The line has no
-- NUL and stands in a buffer that is filled up with NULs.
pub internal_command-named :
    (line : List ℕ) (z : ℕ)
    → no_nul line ≡ true
    → internal_command (line ++ replicate z 0) ≡ named commands (head_word line)
unfolding internal_command
internal_command-named line z h = command_loop-named commands line z refl h

until_nul-zeros : (s : List ℕ) (z : ℕ) → no_nul s ≡ true → until_nul (s ++ replicate z 0) ≡ s
until_nul-zeros [] zero h = refl
until_nul-zeros [] (suc z) h = refl
until_nul-zeros (x ∷ s) z h =
    let rest = until_nul-zeros s z (ground arith) in
    let e : (x == 0) ≡ false = ground arith in rw (e, rest) refl

zeros-first : (z : ℕ) → get_or {A = ℕ} (replicate z 0) 0 0 ≡ 0
zeros-first zero = refl
zeros-first (suc z) = refl

comment-zeros : (x : ℕ) (s : List ℕ) (z : ℕ) → comment ((x ∷ s) ++ replicate z 0) ≡ (x == 35)
unfolding comment
comment-zeros x s z = ground arith

module _ {S : Type 0} (os : Os S) where
  -- What a line without spaces at its ends stands for.
  abbrev pub run_line : List ℕ → S → S
  run_line [] s = s
  run_line (x ∷ line) s = if x == 35 then s else elim (named commands (head_word (x ∷ line))) [
    | some t ↦ os.call t.cmdfunc (take max_args (words (x ∷ line))) s
    | none ↦ run_elf os (x ∷ line) s
  ]

  run_internal_command-words :
      (t : CmdTable) (line : List ℕ) (z : ℕ) (s : S)
      → no_nul line ≡ true
      → run_internal_command os t (line ++ replicate z 0) s
        ≡ os.call t.cmdfunc (take max_args (words line)) s
  unfolding run_internal_command
  run_internal_command-words t line z s h =
      ap (λ args. os.call t.cmdfunc args s)
        (split_args-words max_args line (replicate z 0) (zeros-first z) h)

  run_cleaned-run_line :
      (line : List ℕ) (z : ℕ) (s : S)
      → no_nul line ≡ true
      → run_cleaned os (length line) (line ++ replicate z 0) s ≡ run_line line s
  unfolding run_cleaned
  run_cleaned-run_line [] z s h = refl
  run_cleaned-run_line (x ∷ c) z s h =
      let line = x ∷ c in
      let some_bytes : (length line == 0) ≡ false = ground arith in
      let mark = comment-zeros x c z in
      let find = internal_command-named line z h in
      elim (Bool-cases (x == 35)) [
        | inl e ↦ rw (run_cleaned, some_bytes, mark, e) refl
        | inr e ↦ elim (Option-cases (named commands (head_word line))) [
          | inl q ↦
              rw (run_cleaned, some_bytes, mark, e, find, q)
                (ap (λ l. run_elf os l s) (until_nul-zeros line z h))
          | inr (t, q) ↦
              rw (run_cleaned, some_bytes, mark, e, find, q)
                (run_internal_command-words t line z s h)
        ]
      ]

  -- `parse_cmd` of a line that starts with fewer than four spaces: it does nothing for a blank line
  -- or a comment; it calls the command whose name is the first word, with the first seven words; and
  -- any other line is run as an ELF program, whole. The words and the first word are those of the line
  -- without the spaces before it and the spaces and control characters behind it. A line that starts
  -- with four spaces or more is passed over. The line has no NUL, and has 255 bytes at most.
  pub parse_cmd-run_line :
      (line : List ℕ) (s : S)
      → no_nul line ≡ true
      → length line < 256
      → parse_cmd os line s ≡ (if ltb (spaces line) 4 then run_line (cleaned line) s else s)
  unfolding parse_cmd
  parse_cmd-run_line line s h fits =
      let c = cleaned line in
      let clean = clean_cmdbuf-cleaned 256 raw_cmdbuf_size line h fits in
      elim (Bool-cases (ltb (spaces line) 4)) [
        | inr e ↦
            let blank : clean_cmdbuf (replicate 256 0) line raw_cmdbuf_size ≡ (0, replicate 256 0) =
              clean ∙ rw e refl in
            rw e (ap (λ r. run_cleaned os r.0 r.1 s) blank ∙ nothing)
        | inl e ↦
            let left : clean_cmdbuf (replicate 256 0) line raw_cmdbuf_size
                ≡ (length c, c ++ replicate (256 - length c) 0) =
              clean ∙ rw e refl in
            rw e (
              ap (λ r. run_cleaned os r.0 r.1 s) left
              ∙ run_cleaned-run_line c (256 - length c) s (no_nul-cleaned line h))
      ]
    where
      nothing : run_cleaned os 0 (replicate 256 0) s ≡ s
      nothing = run_cleaned-run_line [] 256 s refl
