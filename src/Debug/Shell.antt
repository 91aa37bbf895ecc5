-- ===== src/Debug/Shell.antt =====
-- The supervisor shell of system/super_shell.c. The system calls and the commands stand behind
-- `ShellCalls`; a line that is read is the list of its bytes, 47 at most.
use filestick.Base.{
  ℕ, zero, suc, ◌-◌, ◌≡◌, refl, ap, ◌∙◌, Bool, true, false, ◌||◌, Option, none, some, List, [], ◌∷◌,
  ◌++◌, map, arith, ◌==◌, if◌then◌else◌, length, get_or, take, replicate,
}
use filestick.Base.Text.{codes, str_eq}
use filestick.Libc.Tokens.{c_str, split_args}
use filestick.Libc.Words.{words, cut, no_nul}
use filestick.Libc.Arguments.{split_args-words}

abbrev pub max_args : ℕ
max_args = 4

-- `sizeof(cmdbuf)`
abbrev pub cmdbuf_size : ℕ
cmdbuf_size = 48

-- The functions of the table; "ret" has none.
pub data ShellFunction : Type 0 where
  super_hexdump : ShellFunction
  super_peek : ShellFunction
  super_poke : ShellFunction
  super_elf : ShellFunction

abbrev pub commands : List (List ℕ × Option ShellFunction)
commands =
    (codes "hexdump", some super_hexdump)
    ∷ (codes "peek", some super_peek)
    ∷ (codes "poke", some super_poke)
    ∷ (codes "boot", some super_elf)
    ∷ (codes "run", some super_elf)
    ∷ (codes "ret", none)
    ∷ []

pub record ShellCalls (S : Type 0) : Type 0 where
  pub run : ShellFunction → List (List ℕ) → S → S
  pub discard_rxbuf : S → S
  pub set_interactive : S → S
  pub prompt : S → S
  pub read : S → List ℕ × S
  pub bad_command : S → S

unfoldable pub find_entry :
    List (List ℕ × Option ShellFunction) → List ℕ → Option (Option ShellFunction)
find_entry [] name = none
find_entry ((cmd, f) ∷ table) name =
    let rest = find_entry table name in if str_eq cmd name then some f else rest

module _ {S : Type 0} (calls : ShellCalls S) where
  -- What the arguments ask for: true where the shell returns.
  unfoldable pub obey : List (List ℕ) → S → Bool × S
  obey [] s = (false, s)
  obey (name ∷ args) s = elim (find_entry commands name) [
    | none ↦ (false, calls.bad_command s)
    | some none ↦ (true, s)
    | some (some f) ↦ (false, calls.run f (name ∷ args) s)
  ]

  abbrev pub shell_line : List ℕ → S → Bool × S
  shell_line bytes s =
      let (args, buf) = split_args max_args (bytes ++ replicate (cmdbuf_size - length bytes) 0) in
      if length bytes == 0 then (false, s) else obey (map (c_str buf) args) s

  unfoldable pub shell_round : S → Bool × S
  shell_round s =
      let (bytes, s') = calls.read (calls.prompt s) in shell_line bytes (calls.discard_rxbuf s')

  -- The loop, on fuel: it ends at "ret".
  unfoldable pub shell_loop : ℕ → S → Option S
  shell_loop zero s = none
  shell_loop (suc fuel) s =
      let (left, s') = shell_round s in
      let rest = shell_loop fuel s' in if left then some s' else rest

  unfoldable pub super_shell : ℕ → S → Option S
  super_shell fuel s = shell_loop fuel (calls.set_interactive (calls.discard_rxbuf s))

  zeros-first : (z : ℕ) → get_or {A = ℕ} (replicate z 0) 0 0 ≡ 0
  zeros-first zero = refl
  zeros-first (suc z) = refl

  -- What a line with these words asks for: what happens, and whether it ends the shell.
  abbrev pub asked : List (List ℕ) → S → Bool × S
  asked [] s = (false, s)
  asked (name ∷ args) s =
      let words = name ∷ args in
      if str_eq (codes "hexdump") name
      then (false, calls.run super_hexdump words s)
      else if str_eq (codes "peek") name
      then (false, calls.run super_peek words s)
      else if str_eq (codes "poke") name
      then (false, calls.run super_poke words s)
      else if str_eq (codes "boot") name || str_eq (codes "run") name
      then (false, calls.run super_elf words s)
      else if str_eq (codes "ret") name
      then (true, s)
      else (false, calls.bad_command s)

  obey-asked : (ws : List (List ℕ)) (s : S) → obey ws s ≡ asked ws s
  unfolding obey find_entry
  obey-asked [] s = refl
  obey-asked (name ∷ args) s =
      named (str_eq (codes "hexdump") name) (str_eq (codes "peek") name)
        (str_eq (codes "poke") name) (str_eq (codes "boot") name) (str_eq (codes "run") name)
        (str_eq (codes "ret") name)
    where
      by : Option (Option ShellFunction) → Bool × S
      by o = elim o [
        | none ↦ (false, calls.bad_command s)
        | some none ↦ (true, s)
        | some (some f) ↦ (false, calls.run f (name ∷ args) s)
      ]

      named :
          (h p q b r e : Bool)
          → by (
              if h
              then some (some super_hexdump)
              else if p
              then some (some super_peek)
              else if q
              then some (some super_poke)
              else if b
              then some (some super_elf)
              else if r
              then some (some super_elf)
              else if e
              then some none
              else none)
            ≡ (if h
                then (false, calls.run super_hexdump (name ∷ args) s)
                else if p
                then (false, calls.run super_peek (name ∷ args) s)
                else if q
                then (false, calls.run super_poke (name ∷ args) s)
                else if b || r
                then (false, calls.run super_elf (name ∷ args) s)
                else if e
                then (true, s)
                else (false, calls.bad_command s))
      named true p q b r e = refl
      named false true q b r e = refl
      named false false true b r e = refl
      named false false false true r e = refl
      named false false false false true e = refl
      named false false false false false true = refl
      named false false false false false false = refl

  -- A round of the shell takes the first four words of the line that was read, in which there is no
  -- NUL. Nothing happens for no word; "hexdump", "peek" and "poke" run their functions, "boot" and
  -- "run" the loader, with the words as arguments; "ret" ends the shell, and nothing else does; any
  -- other word gets the message.
  pub shell_round-words :
      (bytes : List ℕ) (s s' : S)
      → calls.read (calls.prompt s) ≡ (bytes, s')
      → no_nul bytes ≡ true
      → shell_round s ≡ asked (take max_args (words bytes)) (calls.discard_rxbuf s')
  unfolding shell_round obey cut
  shell_round-words bytes s s' read clean =
      ap (λ r. shell_line r.0 (calls.discard_rxbuf r.1)) read
      ∙ line bytes clean
      ∙ obey-asked (take max_args (words bytes)) (calls.discard_rxbuf s')
    where
      line :
          (bytes : List ℕ)
          → no_nul bytes ≡ true
          → shell_line bytes (calls.discard_rxbuf s')
            ≡ obey (take max_args (words bytes)) (calls.discard_rxbuf s')
      line [] h = refl
      line (x ∷ bytes) h =
          let z = cmdbuf_size - length (x ∷ bytes) in
          let some_bytes : (length (x ∷ bytes) == 0) ≡ false = ground arith in
          rw some_bytes (
            ap (λ args. obey args (calls.discard_rxbuf s'))
              (split_args-words max_args (x ∷ bytes) (replicate z 0) (zeros-first z) h))
