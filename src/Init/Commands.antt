-- ===== src/Init/Commands.antt =====
-- Commands of init/icommands.c: `i_hexdump`, `i_mkdir`, `i_chdir` and `i_rm`. The system calls stand
-- behind `Files`; `hexdump` is the kernel's, of system/hexdump.c, which the C library calls.
use filestick.Base.{
  ℕ, zero, suc, ◌+◌, ◌-◌, ◌*◌, ◌/◌, ◌%◌, ◌^◌, ◌≤◌, ◌<◌, ◌≡◌, refl, sym, ap, ap₂, ◌∙◌, inl, inr,
  true, false, Option, none, some, List, [], ◌∷◌, ◌++◌, append_assoc, arith, ◌==◌, if◌then◌else◌,
  Bool-cases, length, take, drop, take-append-drop, length-take, length-drop, Ret, val, err,
}
use filestick.Base.Text.{codes}
use filestick.Debug.Dump.{DumpLine, hexdump, hexdump-bytes, all_bytes}

-- What the commands call. `read` returns the bytes, or fails.
pub record Files (S : Type 0) : Type 0 where
  pub «open» : List ℕ → ℕ → S → Ret × S
  pub read : ℕ → ℕ → S → Option (List ℕ) × S
  pub close : ℕ → S → S
  pub mkdir : List ℕ → ℕ → S → Ret × S
  pub chdir : List ℕ → S → Ret × S
  pub unlink : List ℕ → S → Ret × S
  pub perror : List ℕ → S → S
  pub usage : List ℕ → S → S

-- The lines of one buffer, before those of the rest of the file.
abbrev pub shown :
    {S : Type 0} → Option (List DumpLine) → Option (List DumpLine × S) → Option (List DumpLine × S)
shown (some lines) (some (more, s)) = some (lines ++ more, s)
shown _ _ = none

module _ {S : Type 0} (files : Files S) where
  -- The loop of `i_hexdump`, on fuel: it ends with a read that fails or has no byte.
  unfoldable pub file_loop : ℕ → ℕ → ℕ → S → Option (List DumpLine × S)
  file_loop zero fd bytecount s = none
  file_loop (suc fuel) fd bytecount s =
      let (r, s') = files.read fd 256 s in
      elim r [
        | none ↦ some ([], files.perror (codes "read") s')
        | some buf ↦
            if length buf == 0
            then some ([], s')
            else shown (hexdump buf (length buf) bytecount)
                (file_loop fuel fd ((bytecount + length buf) % 2 ^ 32) s')
      ]

  abbrev pub closed : ℕ → Option (List DumpLine × S) → Option (List DumpLine × S)
  closed fd none = none
  closed fd (some (lines, s)) = some (lines, files.close fd s)

  unfoldable pub i_hexdump : ℕ → List (List ℕ) → S → Option (List DumpLine × S)
  i_hexdump fuel (name ∷ filename ∷ []) s =
      let (rc, s') = files.«open» filename 0 s in
      elim rc [
        | err e ↦ some ([], files.perror (codes "open") s')
        | val fd ↦ closed fd (file_loop fuel fd 0 s')
      ]
  i_hexdump fuel _ s = some ([], files.usage (codes "hexdump <filename>") s)

  -- `if(rc < 0) perror(…);`
  abbrev report : List ℕ → Ret × S → S
  report name (val n, s) = s
  report name (err e, s) = files.perror name s

  unfoldable pub i_mkdir : List (List ℕ) → S → S
  i_mkdir (name ∷ dir ∷ []) s = report (codes "mkdir") (files.mkdir dir 0x1FF s)
  i_mkdir _ s = files.usage (codes "mkdir <dir>") s

  unfoldable pub i_chdir : List (List ℕ) → S → S
  i_chdir (name ∷ dir ∷ []) s = report (codes "chdir") (files.chdir dir s)
  i_chdir _ s = files.usage (codes "cd <dir>") s

  unfoldable pub i_rm : List (List ℕ) → S → S
  i_rm (name ∷ file ∷ []) s = report (codes "unlink") (files.unlink file s)
  i_rm _ s = files.usage (codes "rm <file>") s

all_bytes-append : (ls ms : List DumpLine) → all_bytes (ls ++ ms) ≡ all_bytes ls ++ all_bytes ms
all_bytes-append [] ms = refl
all_bytes-append (l ∷ ls) ms =
    ap (λ t. l.hexline ++ t) (all_bytes-append ls ms)
    ∙ sym (append_assoc l.hexline (all_bytes ls) (all_bytes ms))

-- A read that finds nothing is at the end, and one that finds something is not.
none_read : (xs : List ℕ) → (length (take 256 xs) == 0) ≡ true → xs ≡ []
none_read [] e = refl
none_read (x ∷ xs) e = absurd (ground (arith, length-take 256 (x ∷ xs)))

some_read : (xs : List ℕ) → (length (take 256 xs) == 0) ≡ false → 1 ≤ length xs
some_read [] e = absurd (ground arith)
some_read (x ∷ xs) e = omega arith

shorter : (fuel n m : ℕ) → 1 ≤ n → n + 255 < 256 * suc fuel → m ≡ n - 256 → m + 255 < 256 * fuel
shorter fuel n m one h e = omega arith

-- `rest` is what a descriptor has still to read, and a read takes it from the front.
abbrev pub Reads : {S : Type 0} → Files S → ℕ → (S → List ℕ) → Type 0
Reads {S} files fd rest =
    (s : S)
    → ((files.read fd 256 s).0 ≡ some (take 256 (rest s)))
      × (rest (files.read fd 256 s).1 ≡ drop 256 (rest s))

module _ {S : Type 0} (files : Files S) (fd : ℕ) (rest : S → List ℕ)
    (law : Reads files fd rest) where
  file_loop-bytes :
      (fuel bytecount : ℕ) (s : S)
      → length (rest s) + 255 < 256 * fuel
      → (lines : List DumpLine) × (s' : S) × (file_loop files fuel fd bytecount s
          ≡ some (lines, s'))
        × (all_bytes lines ≡ rest s)
  unfolding file_loop
  file_loop-bytes zero bytecount s h = absurd (omega arith)
  file_loop-bytes (suc fuel) bytecount s h =
      let (got, left) = law s in
      let buf = take 256 (rest s) in
      let s₁ = (files.read fd 256 s).1 in
      elim (Bool-cases (length buf == 0)) [
        | inl e ↦ ([], s₁, rw (file_loop, got, e) refl, sym (none_read (rest s) e))
        | inr e ↦
            let some_bytes = some_read (rest s) e in
            let less : length (rest s₁) + 255 < 256 * fuel =
              shorter fuel (length (rest s)) (length (rest s₁)) some_bytes h
                (ap length left ∙ length-drop 256 (rest s)) in
            let (lines, p, bytes, chars, addrs) = hexdump-bytes buf bytecount in
            let (more, s', q, bytes') =
              file_loop-bytes fuel ((bytecount + length buf) % 2 ^ 32) s₁ less in
            (
              lines ++ more,
              s',
              rw (file_loop, got, e, p, q) refl,
              all_bytes-append lines more
                  ∙ ap₂ (λ a b. a ++ b) bytes (bytes' ∙ left)
                  ∙ take-append-drop 256 (rest s),
            )
      ]

  -- The command `hexdump` on a file that opens, where a read takes its bytes from the front of what is
  -- left of it, ends after a read for each 256 bytes and one more, and the lines that it prints show
  -- the file's bytes, each once and in order; then the file is closed.
  pub i_hexdump-bytes :
      (name filename : List ℕ) (s s₁ : S)
      → files.«open» filename 0 s ≡ (val fd, s₁)
      → (lines : List DumpLine) × (s' : S) × (i_hexdump files
            ((length (rest s₁) + 255) / 256 + 1)
            (name ∷ filename ∷ [])
            s
          ≡ some (lines, files.close fd s'))
        × (all_bytes lines ≡ rest s₁)
  unfolding i_hexdump
  i_hexdump-bytes name filename s s₁ opened =
      let (lines, s', p, bytes) =
        file_loop-bytes ((length (rest s₁) + 255) / 256 + 1) 0 s₁ (omega arith) in
      (lines, s', rw (i_hexdump, opened, opened, p) refl, bytes)
