-- ===== src/Libc/Arguments.antt =====
-- The loop over `strtok` on a buffer that holds a line.
use filestick.Base.{
  ℕ, zero, suc, ◌+◌, ◌≤◌, ◌<◌, ◌≡◌, refl, sym, ap, ap₂, ◌∙◌, ◌⊎◌, inl, inr, true, false, none, some,
  List, [], ◌∷◌, ◌++◌, map, append-nil, append_assoc, arith, ◌==◌, Bool-cases, length,
  length-append, get_or, take,
}
use filestick.Libc.Tokens.{c_str, strtok_at, arg_loop, split_args}
use filestick.Libc.Words.{
  words, cut, nonempty, no_nul, plain, cut-word, cut-last, cut-space, first_word,
}
use filestick.Libc.Strtok.{strtok-space, strtok-end, strtok-word, c_str-word}
use mathlib.Core.Path.{subst}

module _ (zs : List ℕ) (hz : get_or zs 0 0 ≡ 0) where
  -- What the loop makes of the line `s`, which stands behind `pre` and before a NUL:
  -- it keeps `pre`, and its arguments point to the first words.
  abbrev looped : ℕ → List ℕ → List ℕ → List ℕ × List ℕ
  looped n pre s = arg_loop n (strtok_at (pre ++ (s ++ zs)) (length pre))

  abbrev Finds : ℕ → List ℕ → List ℕ → List ℕ × List ℕ → Type 0
  Finds n pre s r = (tail : List ℕ) × (r.1 ≡ pre ++ tail) × (map (c_str r.1) r.0 ≡ take n (words s))

  abbrev Found : ℕ → List ℕ → List ℕ → Type 0
  Found n pre s = Finds n pre s (looped n pre s)

  arg_loop-none : (n : ℕ) (buf : List ℕ) → arg_loop n (none, buf, none) ≡ ([], buf)
  unfolding arg_loop
  arg_loop-none zero buf = refl
  arg_loop-none (suc n) buf = refl

  arg_loop-last : (n p : ℕ) (buf : List ℕ) → arg_loop (suc n) (some p, buf, none) ≡ (p ∷ [], buf)
  unfolding arg_loop
  arg_loop-last n p buf = rw (arg_loop, arg_loop-none n buf) refl

  take_none : (n : ℕ) → take {A = List ℕ} n [] ≡ []
  take_none zero = refl
  take_none (suc n) = refl

  no-word : (n : ℕ) (pre : List ℕ) → Found n pre []
  unfolding cut
  no-word n pre =
      let e : looped n pre [] ≡ ([], pre ++ zs) =
        ap (arg_loop n) (strtok-end pre zs hz) ∙ arg_loop-none n (pre ++ zs) in
      subst (Finds n pre []) (sym e) (zs, refl, sym (take_none n))

  after-space : (n : ℕ) (pre s : List ℕ) → Found n (pre ++ 32 ∷ []) s → Found n pre (32 ∷ s)
  after-space n pre s (tail, p, q) =
      let e : looped n pre (32 ∷ s) ≡ looped n (pre ++ 32 ∷ []) s =
        ap (arg_loop n) (strtok-space pre (s ++ zs)) in
      subst (Finds n pre (32 ∷ s)) (sym e) (
        32 ∷ tail,
        p ∙ append_assoc pre (32 ∷ []) tail,
        q ∙ ap (λ l. take n (nonempty l)) (sym (cut-space s)),
      )

  one_word : (w : List ℕ) (ws : List (List ℕ)) → 0 < length w → nonempty (w ∷ ws) ≡ w ∷ nonempty ws
  one_word [] ws pos_w = absurd (omega arith)
  one_word (x ∷ w) ws pos_w = refl

  last-word : (n : ℕ) (pre w : List ℕ) → plain w ≡ true → 0 < length w → Found n pre w
  unfolding arg_loop
  last-word n pre w h pos_w =
      let e : looped n pre w ≡ arg_loop n (some (length pre), pre ++ (w ++ zs), none) =
        ap (arg_loop n) (strtok-word pre w zs h pos_w (inr hz) ∙ rw hz refl) in
      subst (Finds n pre w) (sym e) (ends n)
    where
      ends : (n : ℕ) → Finds n pre w (arg_loop n (some (length pre), pre ++ (w ++ zs), none))
      ends zero = (w ++ zs, refl, refl)
      ends (suc n) =
          subst (Finds (suc n) pre w) (sym (arg_loop-last n (length pre) (pre ++ (w ++ zs)))) (
            w ++ zs,
            refl,
            ap (λ v. v ∷ []) (c_str-word pre w zs h hz)
                ∙ sym (
                    ap (λ l. take (suc n) (nonempty l)) (cut-last w h)
                    ∙ ap (take (suc n)) (one_word w [] pos_w)
                    ∙ ap (λ l. w ∷ l) (take_none n)),
          )

  -- A word, a space and the rest of the line.
  then-word :
      (n : ℕ) (pre w t : List ℕ)
      → plain w ≡ true
      → 0 < length w
      → ((m : ℕ) → Found m (pre ++ (w ++ 0 ∷ [])) t)
      → Found n pre (w ++ 32 ∷ t)
  unfolding arg_loop
  then-word n pre w t h pos_w rest =
      let buf = pre ++ (w ++ 0 ∷ (t ++ zs)) in
      let here = length pre in
      let e : looped n pre (w ++ 32 ∷ t) ≡ arg_loop n (some here, buf, some (here + length w + 1)) =
        ap (λ l. arg_loop n (strtok_at (pre ++ l) here)) (append_assoc w (32 ∷ t) (zs))
        ∙ ap (arg_loop n) (strtok-word pre w (32 ∷ (t ++ zs)) h pos_w (inl refl)) in
      subst (Finds n pre (w ++ 32 ∷ t)) (sym e) (ends n)
    where
      ends :
          (n : ℕ)
          → Finds n pre (w ++ 32 ∷ t) (
              arg_loop n
                (some (length pre), pre ++ (w ++ 0 ∷ (t ++ zs)), some (length pre + length w + 1)))
      ends zero = (w ++ 0 ∷ (t ++ zs), refl, refl)
      ends (suc n) =
          let b : (pre ++ (w ++ 0 ∷ [])) ++ (t ++ zs) ≡ pre ++ (w ++ 0 ∷ (t ++ zs)) =
            append_assoc pre (w ++ 0 ∷ []) (t ++ zs)
            ∙ ap (λ l. pre ++ l) (append_assoc w (0 ∷ []) (t ++ zs)) in
          let l : length (pre ++ (w ++ 0 ∷ [])) ≡ length pre + length w + 1 =
            omega (arith, length-append pre (w ++ 0 ∷ []), length-append w (0 ∷ [])) in
          let e = ap₂ (λ buf i. arg_loop n (strtok_at buf i)) b l in
          let (tail, p, q) = subst (Finds n (pre ++ (w ++ 0 ∷ [])) t) e (rest n) in
          let p' =
            p
            ∙ append_assoc pre (w ++ 0 ∷ []) tail
            ∙ ap (λ l. pre ++ l) (append_assoc w (0 ∷ []) tail) in
          (
            w ++ 0 ∷ tail,
            p',
            ap₂ (λ v vs. v ∷ vs)
                  (ap (λ buf. c_str buf (length pre)) p' ∙ c_str-word pre w (0 ∷ tail) h refl) q
                ∙ sym (ap (take (suc n)) (ap nonempty (cut-word w t h) ∙ one_word w (cut t) pos_w)),
          )

  starts :
      (x : ℕ) (s w r : List ℕ)
      → (x == 32) ≡ false
      → x ∷ s ≡ w ++ r
      → (r ≡ []) ⊎ ((t : List ℕ) × (r ≡ 32 ∷ t))
      → 0 < length w
  starts x s (y ∷ w) r e p stop = omega arith
  starts x s [] r e p (inl q) =
      let l : suc (length s) ≡ 0 = ap length (p ∙ q) in absurd (omega arith)
  starts x s [] r e p (inr (t, q)) =
      let l : x ≡ 32 = ap (λ l. get_or l 0 0) (p ∙ q) in absurd (ground arith)

  found : (k n : ℕ) (pre s : List ℕ) → length s ≤ k → no_nul s ≡ true → Found n pre s
  found zero n pre [] small h = no-word n pre
  found (suc k) n pre [] small h = no-word n pre
  found zero n pre (x ∷ s) small h = absurd (omega arith)
  found (suc k) n pre (x ∷ s) small h = elim (Bool-cases (x == 32)) [
    | inl e ↦
        let sp : 32 ∷ s ≡ x ∷ s = ap (λ y. y ∷ s) (ground arith) in
        subst (λ l. Found n pre l) sp
          (after-space n pre s (found k n (pre ++ 32 ∷ []) s (omega arith) (ground arith)))
    | inr e ↦
        let f = first_word (x ∷ s) h in
        let pos_w : 0 < length f.word = starts x s f.word f.rest e f.parts f.stop in
        elim f.stop [
          | inl r ↦
              let p : f.word ≡ x ∷ s =
                sym (append-nil f.word) ∙ ap (λ l. f.word ++ l) (sym r) ∙ sym f.parts in
              subst (λ l. Found n pre l) p (last-word n pre f.word f.is_plain pos_w)
          | inr (t, r) ↦
              let p : f.word ++ 32 ∷ t ≡ x ∷ s = ap (λ l. f.word ++ l) (sym r) ∙ sym f.parts in
              let len : length f.word + suc (length t) ≡ suc (length s) =
                sym (length-append f.word (32 ∷ t)) ∙ ap length p in
              let clean : no_nul t ≡ true = ground (arith, ap no_nul r, f.rest_no_nul) in
              subst (λ l. Found n pre l) p
                (then-word n pre f.word t f.is_plain pos_w
                  (λ m. found k m (pre ++ (f.word ++ 0 ∷ [])) t (omega arith) clean))
        ]
  ]

-- The arguments that a loop over `strtok` takes from a line are its first words, at most as many as
-- there is room for: each pointer stands on a copy of its word in the buffer, which ends with a NUL.
-- The words are the nonempty parts between spaces. The line has no NUL, and stands at the start of the
-- buffer; behind it stands a NUL, and then anything.
pub split_args-words :
    (max_args : ℕ) (line zs : List ℕ)
    → get_or zs 0 0 ≡ 0
    → no_nul line ≡ true
    → let (args, buf) = split_args max_args (line ++ zs) in
      map (c_str buf) args ≡ take max_args (words line)
unfolding split_args
split_args-words max_args line zs hz h =
    let (_, _, q) = found zs hz (length line) max_args [] line (omega arith) h in q
