-- ===== src/Monitor/Acks.antt =====
-- Repeated acknowledgements are counted and reported once.
use filestick.Base.{
  ℕ, zero, suc, ◌+◌, ◌%◌, ◌^◌, ◌<◌, ◌≡◌, refl, ap, ◌∙◌, ◌≢◌, true, false, List, [], ◌∷◌, ◌++◌,
  append_assoc, arith, ltb, ◌==◌, if◌then◌else◌, length, replicate,
}
use filestick.Base.Text.{str_eq, str_eq_refl}
use filestick.Monitor.{
  Decoder, Printed, ack, acks_received, zero_ack, ack_len, decode_address, decode_ack, end_acks,
  decode_other, decode_frame, decode_frames,
}

-- An acknowledgement: its addresses, and the two bytes that are left of it.
abbrev pub ack_frame : ℕ → ℕ → ℕ → ℕ → ℕ → ℕ → List ℕ
ack_frame a b c d x y = a ∷ b ∷ c ∷ d ∷ x ∷ y ∷ []

decode_frames-repeat :
    (k a b c d x y : ℕ) (fs : List (List ℕ)) (s : Decoder)
    → s.lastack ≡ a ∷ b ∷ c ∷ d ∷ []
    → s.ack_count + k < 65536
    → decode_frames (replicate k (ack_frame a b c d x y) ++ fs) s
      ≡ decode_frames fs (record s { ack_count = s.ack_count + k })
unfolding decode_frame decode_ack
decode_frames-repeat zero a b c d x y fs s l h =
    ap (λ n. decode_frames fs (record s { ack_count = n })) (omega arith)
decode_frames-repeat (suc k) a b c d x y fs s l h =
    let same : str_eq s.lastack (a ∷ b ∷ c ∷ d ∷ []) ≡ true =
      ap (λ l. str_eq l (a ∷ b ∷ c ∷ d ∷ [])) l ∙ str_eq_refl (a ∷ b ∷ c ∷ d ∷ []) in
    let m : (s.ack_count + 1) % 2 ^ 16 ≡ s.ack_count + 1 = omega arith in
    let e : decode_frame (ack_frame a b c d x y) s ≡ record s { ack_count = s.ack_count + 1 } =
      rw (decode_frame, decode_ack, same, m) refl in
    ap (decode_frames (replicate k (ack_frame a b c d x y) ++ fs)) e
    ∙ decode_frames-repeat k a b c d x y fs (record s { ack_count = s.ack_count + 1 }) l
        (omega arith)
    ∙ ap (λ n. decode_frames fs (record s { ack_count = n })) (omega arith)

-- An acknowledgement that comes `k` times more, and then a frame that is none: the monitor prints the
-- first one, then, if it came twice more at least, its addresses with the number of the repeats, and
-- decodes the other frame with the count back at 0. The state before has no count and the
-- acknowledgement is not the one that it remembers; `k` is a number of 16 bits.
pub decode_frames-acks :
    (k a b c d x y : ℕ) (f : List ℕ) (s : Decoder)
    → s.ack_count ≡ 0
    → str_eq s.lastack (a ∷ b ∷ c ∷ d ∷ []) ≡ false
    → k < 65536
    → length f ≢ ack_len
    → let first = ack_frame a b c d x y in
      let reported = if ltb 1 k then decode_address first ∷ acks_received k ∷ [] else [] in
      decode_frames (first ∷ (replicate k first ++ f ∷ [])) s
      ≡ decode_other f (record {
        lastack = if k == 0 then a ∷ b ∷ c ∷ d ∷ [] else zero_ack;
        ack_count = 0;
        printed = s.printed ++ decode_address first ∷ ack x y ∷ reported;
      })
unfolding decode_frame decode_ack end_acks decode_address
decode_frames-acks k a b c d x y f s z new h other =
    let first = ack_frame a b c d x y in
    let heard : Decoder = record {
      lastack = a ∷ b ∷ c ∷ d ∷ [];
      ack_count = 0;
      printed = s.printed ++ decode_address first ∷ ack x y ∷ [];
    } in
    let start : decode_ack first s ≡ heard = rw (decode_ack, new) refl in
    let n : 0 + k ≡ k = omega arith in
    let stops : (length f == ack_len) ≡ false = ground arith in
    ap (decode_frames (replicate k first ++ f ∷ [])) start
    ∙ decode_frames-repeat k a b c d x y (f ∷ []) heard refl (omega arith)
    ∙ rw (n, decode_frame, stops) (ap (decode_other f) (counted k))
  where
    counted :
        (k : ℕ)
        → let first = ack_frame a b c d x y in
          let reported = if ltb 1 k then decode_address first ∷ acks_received k ∷ [] else [] in
          end_acks (record {
            lastack = a ∷ b ∷ c ∷ d ∷ [];
            ack_count = k;
            printed = s.printed ++ decode_address first ∷ ack x y ∷ [];
          })
          ≡ record {
            lastack = if k == 0 then a ∷ b ∷ c ∷ d ∷ [] else zero_ack;
            ack_count = 0;
            printed = s.printed ++ decode_address first ∷ ack x y ∷ reported;
          }
    counted zero = refl
    counted (suc k) =
        let first = ack_frame a b c d x y in
        let reported =
          if ltb 1 (suc k) then decode_address first ∷ acks_received (suc k) ∷ [] else [] in
        let e : (suc k == 0) ≡ false = ground arith in
        rw (end_acks, e)
          (ap (λ (l : List Printed). record { lastack = zero_ack; ack_count = 0; printed = l })
            (append_assoc s.printed (decode_address first ∷ ack x y ∷ []) reported))
