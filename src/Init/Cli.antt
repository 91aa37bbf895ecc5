-- ===== src/Init/Cli.antt =====
-- The command line of init/cli.c, the scripts of init/conffile.c and `main` of init/main.c. The system calls and the
-- commands' own code stand behind `Os`; the state is what they work on.
use filestick.Base.{
  ℕ, zero, suc, Bool, true, false, not, ◌&&◌, ◌||◌, Option, none, some, List, [], ◌∷◌, map, ◌==◌,
  if◌then◌else◌, length, get_or, take, replicate, Ret, val, err,
}
use filestick.Base.Text.{codes, str_eq}
use filestick.Libc.Tokens.{until_nul, c_str, split_args}
use filestick.Init.{clean_cmdbuf}

-- The functions of the table `commands`.
pub data Command : Type 0 where
  i_ebreak : Command
  i_receive_xmodem : Command
  i_hexdump : Command
  i_ls : Command
  i_configure : Command
  i_mkdir : Command
  i_chdir : Command
  i_rm : Command
  i_poke : Command
  i_peek : Command

pub record CmdTable : Type 0 where
  pub cmd : List ℕ
  pub cmdfunc : Command

abbrev entry : List ℕ → Command → CmdTable
entry cmd cmdfunc = record { cmd = cmd; cmdfunc = cmdfunc }

abbrev pub commands : List CmdTable
commands =
    entry (codes "ebreak") i_ebreak
    ∷ entry (codes "rx") i_receive_xmodem
    ∷ entry (codes "hexdump") i_hexdump
    ∷ entry (codes "ls") i_ls
    ∷ entry (codes "configure") i_configure
    ∷ entry (codes "mkdir") i_mkdir
    ∷ entry (codes "cd") i_chdir
    ∷ entry (codes "rm") i_rm
    ∷ entry (codes "poke") i_poke
    ∷ entry (codes "peek") i_peek
    ∷ []

abbrev pub max_args : ℕ
max_args = 7

-- `sizeof(raw_cmdbuf)` in `parse_cmd`, where it is a parameter: the size of a pointer.
abbrev pub raw_cmdbuf_size : ℕ
raw_cmdbuf_size = 4

-- What the command line calls. `call` is a command's function on its arguments. `read` returns the
-- bytes up to a NUL, or fails; `fgets` returns a line, or the end of the file.
pub record Os (S : Type 0) : Type 0 where
  pub call : Command → List (List ℕ) → S → S
  pub exec_elf : List ℕ → S → Ret × S
  pub perror : List ℕ → S → S
  pub set_interactive : ℕ → S → S
  pub prompt : S → S
  pub read : ℕ → S → Option (List ℕ) × S
  pub mount : S → Ret × S
  pub fopen : List ℕ → S → Bool × S
  pub fgets : S → Option (List ℕ) × S
  pub fclose : S → S

unfoldable pub comment : List ℕ → Bool
comment cmd = if get_or cmd 0 0 == 35 then true else false

-- `!strncmp(a, b, n)`, where `a` has `n` bytes that are not NUL.
abbrev pub strncmp_eq : List ℕ → List ℕ → ℕ → Bool
strncmp_eq a b n = str_eq (take n a) (take n b)

-- The loop of `internal_command`. `cmdbuf` is the buffer: past its end stands a NUL.
unfoldable pub command_loop : List CmdTable → List ℕ → Option CmdTable
command_loop [] cmdbuf = none
command_loop (t ∷ table) cmdbuf =
    let clen = length t.cmd in
    let rest = command_loop table cmdbuf in
    if (get_or cmdbuf clen 0 == 32 || get_or cmdbuf clen 0 == 0) && strncmp_eq t.cmd cmdbuf clen
    then some t
    else rest

unfoldable pub internal_command : List ℕ → Option CmdTable
internal_command cmdbuf = command_loop commands cmdbuf

module _ {S : Type 0} (os : Os S) where
  unfoldable pub run_internal_command : CmdTable → List ℕ → S → S
  run_internal_command t cmdbuf s =
      let (args, buf) = split_args max_args cmdbuf in os.call t.cmdfunc (map (c_str buf) args) s

  -- The command that is not internal: an ELF file.
  abbrev pub run_elf : List ℕ → S → S
  run_elf cmdbuf s =
      let (rc, s') = os.exec_elf cmdbuf s in
      elim rc [ val n ↦ s' | err e ↦ os.perror (codes "exec_elf") s' ]

  -- `parse_cmd` on what `clean_cmdbuf` returns and leaves in the buffer.
  unfoldable pub run_cleaned : ℕ → List ℕ → S → S
  run_cleaned bytes cmdbuf s =
      if not (bytes == 0) && not (comment cmdbuf)
      then elim (internal_command cmdbuf) [
        | some t ↦ run_internal_command t cmdbuf s
        | none ↦ run_elf (until_nul cmdbuf) s
      ]
      else s

  unfoldable pub parse_cmd : List ℕ → S → S
  parse_cmd raw_cmdbuf s =
      let (bytes, cmdbuf) = clean_cmdbuf (replicate 256 0) raw_cmdbuf raw_cmdbuf_size in
      run_cleaned bytes cmdbuf s

  -- The loop of `cli`, on fuel: it ends when a read fails.
  unfoldable pub cli_loop : ℕ → ℕ → S → Option S
  cli_loop zero fd s = none
  cli_loop (suc fuel) fd s =
      let (line, s') = os.read fd (os.prompt s) in
      elim line [ none ↦ some s' | some l ↦ cli_loop fuel fd (parse_cmd l s') ]

  unfoldable pub cli : ℕ → ℕ → S → Option S
  cli fuel fd s = cli_loop fuel fd (if fd == 0 then os.set_interactive fd s else s)

  -- The loop of `run_script`, on fuel: it ends at the end of the file.
  unfoldable pub script_loop : ℕ → S → Option S
  script_loop zero s = none
  script_loop (suc fuel) s =
      let (line, s') = os.fgets s in
      elim line [ none ↦ some (os.fclose s') | some l ↦ script_loop fuel (parse_cmd l s') ]

  abbrev pub script_opened : ℕ → Bool × S → Option (Bool × S)
  script_opened fuel (false, s) = some (false, s)
  script_opened fuel (true, s) = elim (script_loop fuel s) [
    | none ↦ none
    | some s' ↦ some (true, s')
  ]

  -- The result is whether the file is there.
  unfoldable pub run_script : ℕ → List ℕ → S → Option (Bool × S)
  run_script fuel filename s = script_opened fuel (os.fopen filename s)

  -- The start: on a cold start the flash file system and the script. `fuel` bounds both loops.
  abbrev pub cold_start : ℕ → S → Option S
  cold_start fuel s =
      let (rc, s₁) = os.mount s in
      let s₂ : S = elim rc [ val n ↦ s₁ | err e ↦ os.perror (codes "mount") s₁ ] in
      elim (run_script fuel (codes "boot.rc") s₂) [ none ↦ none | some (there, s₃) ↦ some s₃ ]

  abbrev pub started : ℕ → List (List ℕ) → S → Option S
  started fuel (name ∷ how ∷ argv) s =
      if str_eq how (codes "cold") then cold_start fuel s else some s
  started fuel _ s = some s

  unfoldable pub main : ℕ → List (List ℕ) → S → Option S
  main fuel argv s = elim (started fuel argv s) [ none ↦ none | some s' ↦ cli fuel 0 s' ]
