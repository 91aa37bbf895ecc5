-- ===== src/Init/Script.antt =====
-- `run_script` comes to the end of its file.
use filestick.Base.{[], ◌∷◌, ℕ, ◌≡◌, none, some, List}
use filestick.Init.Cli.{Command, Os, parse_cmd}

-- `rest` is what is left of the open script, its lines: `fgets` takes the first, or finds the end;
-- and neither a command, nor a program, nor a message changes what is left.
pub record IsScript {S : Type 0} (os : Os S) (rest : S → List (List ℕ)) : Type 0 where
  pub at_end : (s : S) → rest s ≡ [] → (os.fgets s).0 ≡ none
  pub reads :
      (s : S) (l : List ℕ) (ls : List (List ℕ))
      → rest s ≡ l ∷ ls
      → ((os.fgets s).0 ≡ some l) × (rest (os.fgets s).1 ≡ ls)
  pub calls : (c : Command) (args : List (List ℕ)) (s : S) → rest (os.call c args s) ≡ rest s
  pub runs : (line : List ℕ) (s : S) → rest (os.exec_elf line s).1 ≡ rest s
  pub says : (text : List ℕ) (s : S) → rest (os.perror text s) ≡ rest s

-- Each line of the script is run, in order, and then the end of the file is found.
abbrev pub run_lines : {S : Type 0} → Os S → List (List ℕ) → S → S
run_lines os [] s = (os.fgets s).1
run_lines os (l ∷ ls) s = run_lines os ls (parse_cmd os l (os.fgets s).1)
