-- ===== src/Monitor/Tests.antt =====
-- A test of the monitor: an acknowledgement three times, and then a scout frame.
use filestick.Base.{ℕ, ◌≡◌, refl, false, List, [], ◌∷◌, arith}
use filestick.Base.Text.{str_eq}
use filestick.Monitor.{
  Decoder, zero_ack, acks_received, ack, decode_address, decode_other, decode_frames,
}
use filestick.Monitor.Acks.{ack_frame, decode_frames-acks}

abbrev fresh : Decoder
fresh = record { lastack = zero_ack; ack_count = 0; printed = [] }

abbrev scout_bytes : List ℕ
scout_bytes = 254 ∷ 0 ∷ 1 ∷ 0 ∷ 0x80 ∷ 0x99 ∷ 7 ∷ 7 ∷ []

not_known : str_eq zero_ack (1 ∷ 0 ∷ 254 ∷ 0 ∷ []) ≡ false
unfolding str_eq
not_known = refl

decode_frames-acks_example :
    let first = ack_frame 1 0 254 0 7 7 in
    decode_frames (first ∷ first ∷ first ∷ scout_bytes ∷ []) fresh
    ≡ decode_other scout_bytes (record {
      lastack = zero_ack;
      ack_count = 0;
      printed = decode_address first ∷ ack 7 7 ∷ decode_address first ∷ acks_received 2 ∷ [];
    })
decode_frames-acks_example =
    decode_frames-acks 2 1 0 254 0 7 7 scout_bytes fresh refl not_known (omega arith) (ground arith)
