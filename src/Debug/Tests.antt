-- ===== src/Debug/Tests.antt =====
-- Tests of the debugging commands.
use filestick.Base.{ℕ, ◌≡◌, refl, some, List, [], ◌∷◌, ◌++◌, arith, get_or, take, drop}
use filestick.Base.Text.{codes, str_eq}
use filestick.Libc.{Bytes}
use filestick.Debug.{hextoint}
use filestick.Libc.Words.{words}
use filestick.Libc.Tokens.{split_args, arg_loop, strtok_at, spaces_at, word_at}
use filestick.Debug.Shell.{
  ShellCalls, find_entry, obey, asked, shell_round, shell_loop, super_shell, shell_round-words,
}
use filestick.Debug.Numbers.{number, hex_value, hextoint-hex_value}

abbrev zero_memory : Bytes
zero_memory a = 0

hextoint-hex_value_example : number (hextoint (codes "1f0")) ≡ some (hex_value (codes "1f0"))
hextoint-hex_value_example = hextoint-hex_value (codes "1f0") (omega arith)

-- The shell reads one line after the other, and its commands are listed with their arguments.
abbrev lines : ShellCalls (List (List ℕ) × List (List (List ℕ)))
lines = record {
  run = λ f args s. (s.0, s.1 ++ args ∷ []);
  discard_rxbuf = λ s. s;
  set_interactive = λ s. s;
  prompt = λ s. s;
  read = λ s. (get_or s.0 0 [], (drop 1 s.0, s.1));
  bad_command = λ s. s;
}

shell_round-words_example :
    shell_round lines (codes "peek w 1f0 " ∷ [], [])
    ≡ asked lines (take 4 (words (codes "peek w 1f0 "))) ([], [])
shell_round-words_example =
    shell_round-words lines (codes "peek w 1f0 ") (codes "peek w 1f0 " ∷ [], []) ([], []) refl refl

left_after_two :
    super_shell lines 2 (codes "run edit" ∷ codes "ret" ∷ [], [])
    ≡ some ([], (codes "run" ∷ codes "edit" ∷ []) ∷ [])
unfolding super_shell shell_loop shell_round obey find_entry str_eq split_args arg_loop strtok_at
    spaces_at word_at
left_after_two = refl
