-- ===== src/Econet/Frames.antt =====
-- What `econet_write` puts in the transmit buffer, and where it ends.
use filestick.Base.{
  ℕ, ◌+◌, ◌-◌, ◌*◌, ◌/◌, ◌%◌, ◌^◌, ◌≤◌, ◌<◌, bit_or, ◌≡◌, sym, ap, ◌∙◌, ◌≢◌, true, false, refl, inl,
  inr, Option-cases, ltb, ◌==◌, Option, none, some, List, [], ◌∷◌, ◌++◌, arith, leb, length,
  length-append, take, drop, take-take, take-append_self, take-append_left, drop-append_left,
  length-take, length-drop,
}
use filestick.Base.Bits.{bit_or_disjoint}
use filestick.Econet.{
  Econet, EconetAddr, transmit, starts_scout, state_txscout, econet_write, econet_txbufsz, store,
  scout_frame, data_frame, addr_word, word_bytes,
}

-- A copy that fits: its bytes stand at its offset, and what lies before is as it was.
record Stored (buf : List ℕ) (at : ℕ) (bytes buf' : List ℕ) : Type 0 where
  size : length buf' ≡ length buf
  there : take (length bytes) (drop at buf') ≡ bytes
  before : take at buf' ≡ take at buf

store-Stored :
    (buf : List ℕ) (at : ℕ) (bytes : List ℕ)
    → at + length bytes ≤ length buf
    → (buf' : List ℕ) × (store buf at bytes ≡ some buf') × Stored buf at bytes buf'
unfolding store
store-Stored buf at bytes h =
    let fits : leb (at + length bytes) (length buf) ≡ true = ground arith in
    let n : length (take at buf) ≡ at = omega (arith, length-take at buf) in
    (
      take at buf ++ (bytes ++ drop (at + length bytes) buf),
      rw fits,
      record {
        size = omega (
          arith,
          n,
          length-append (take at buf) (bytes ++ drop (at + length bytes) buf),
          length-append bytes (drop (at + length bytes) buf),
          length-drop (at + length bytes) buf,
        );
        there =
            rw (drop-append_left (take at buf) (bytes ++ drop (at + length bytes) buf) at n)
              (take-append_self bytes (drop (at + length bytes) buf));
        before = take-append_left (take at buf) (bytes ++ drop (at + length bytes) buf) at n;
      },
    )

store_past_end :
    (buf : List ℕ) (at : ℕ) (bytes : List ℕ)
    → length buf < at + length bytes
    → store buf at bytes ≡ none
unfolding store
store_past_end buf at bytes h = ground arith

-- The transmit buffer that `transmit` leaves for a frame of `bytes` to `dest`.
pub record Frames (dest : EconetAddr) (address : ℕ) (bytes buf : List ℕ) : Type 0 where
  pub scout : take 6 buf ≡ scout_frame dest address
  pub payload :
      take (length (data_frame dest address bytes)) (drop 8 buf) ≡ data_frame dest address bytes

transmit_stored :
    (fd : ℕ) (bytes : List ℕ) (s : Econet) (b₁ b₂ : List ℕ)
    → store s.txbuf 0 (scout_frame (s.tx_destmap fd) s.address) ≡ some b₁
    → store b₁ 8 (data_frame (s.tx_destmap fd) s.address bytes) ≡ some b₂
    → transmit fd bytes s ≡ some (starts_scout (length bytes) b₂ s)
unfolding transmit
transmit_stored fd bytes s b₁ b₂ p q = rw (transmit, p, q)

Stored-Frames :
    {dest : EconetAddr} {address : ℕ} {bytes buf b₁ b₂ : List ℕ}
    → Stored buf 0 (scout_frame dest address) b₁
    → Stored b₁ 8 (data_frame dest address bytes) b₂
    → Frames dest address bytes b₂
Stored-Frames {dest} {address} {bytes} {buf} {b₁} {b₂} s₁ s₂ = record {
  scout =
      sym (take-take b₂ 6 8 (omega arith))
      ∙ ap (λ l. take 6 l) s₂.before
      ∙ take-take b₁ 6 8 (omega arith)
      ∙ s₁.there;
  payload = s₂.there;
}

-- The address word of a frame is the station, the net and our address, low byte first.
pub addr_word-bytes :
    (dest : EconetAddr) (address : ℕ)
    → dest.station < 256
    → dest.net < 256
    → address < 65536
    → word_bytes (addr_word dest address)
      ≡ dest.station ∷ dest.net ∷ address % 256 ∷ address / 256 ∷ []
addr_word-bytes dest address hs hn ha =
    let p : bit_or dest.station (dest.net * 2 ^ 8) ≡ dest.station + dest.net * 2 ^ 8 =
      bit_or_disjoint 8 dest.station dest.net (omega arith) in
    let q : addr_word dest address ≡ dest.station + dest.net * 256 + address * 65536 =
      rw p (bit_or_disjoint 16 (dest.station + dest.net * 2 ^ 8) address (omega arith)) in
    rw q (ground arith)

pub transmit_fits :
    (fd : ℕ) (bytes : List ℕ) (s : Econet)
    → length s.txbuf ≡ econet_txbufsz
    → length bytes ≤ econet_txbufsz - 12
    → (buf : List ℕ) × (transmit fd bytes s ≡ some (starts_scout (length bytes) buf s))
      × (length buf ≡ econet_txbufsz)
      × Frames (s.tx_destmap fd) s.address bytes buf
transmit_fits fd bytes s size small =
    let dest = s.tx_destmap fd in
    let (b₁, q₁, s₁) = store-Stored s.txbuf 0 (scout_frame dest s.address) (omega arith) in
    let (b₂, q₂, s₂) =
      store-Stored b₁ 8 (data_frame dest s.address bytes) (omega (arith, s₁.size)) in
    (
      b₂,
      transmit_stored fd bytes s b₁ b₂ q₁ q₂,
      omega (arith, s₁.size, s₂.size),
      Stored-Frames s₁ s₂,
    )

-- For at most 2036 bytes `transmit` does not fault. It leaves at the start of the transmit buffer a
-- scout frame of six bytes: the destination's station and net, the low and the high byte of our
-- address, 0x80 and the destination's port; and from offset 8 a data frame: the same four address
-- bytes, and then the bytes of the call. The scout frame is the one to be sent, from 0 to its last
-- byte at 5, the driver's variables say that the data frame goes from 8 to its last byte, and the
-- handshake waits for the scout frame to be sent; nothing else of the driver changes. A station and a
-- net are bytes, an address is of 16 bits.
pub transmit-Frames :
    (fd : ℕ) (bytes : List ℕ) (s : Econet)
    → length s.txbuf ≡ econet_txbufsz
    → length bytes ≤ econet_txbufsz - 12
    → (s.tx_destmap fd).station < 256
    → (s.tx_destmap fd).net < 256
    → s.address < 65536
    → (buf : List ℕ) × (let dest = s.tx_destmap fd in
        let addresses = dest.station ∷ dest.net ∷ s.address % 256 ∷ s.address / 256 ∷ [] in
        (transmit fd bytes s
          ≡ some (record s {
            txbuf = buf;
            tx_start = 8;
            tx_end = 8 + (4 + length bytes) - 1;
            handshake_state = state_txscout;
            tx_start_offset = 0;
            tx_end_offset = 5;
          }))
        × (length buf ≡ econet_txbufsz)
        × (take 6 buf ≡ addresses ++ 0x80 ∷ dest.port ∷ [])
        × (take (4 + length bytes) (drop 8 buf) ≡ addresses ++ bytes))
transmit-Frames fd bytes s size small hs hn ha =
    let (buf, sent, same, frames) = transmit_fits fd bytes s size small in
    let word = addr_word-bytes (s.tx_destmap fd) s.address hs hn ha in
    let size₂ : 4 + length bytes ≡ length (data_frame (s.tx_destmap fd) s.address bytes) =
      omega arith in
    let last : 11 + length bytes ≡ 8 + (4 + length bytes) - 1 = omega arith in
    (
      buf,
      (
        sent ∙ ap (λ n. some (record (starts_scout (length bytes) buf s) { tx_end = n })) last,
        same,
        frames.scout ∙ ap (λ l. l ++ 0x80 ∷ (s.tx_destmap fd).port ∷ []) word,
        ap (λ n. take n (drop 8 buf)) size₂ ∙ frames.payload ∙ ap (λ l. l ++ bytes) word,
      ),
    )

transmit_past_end :
    (fd : ℕ) (bytes : List ℕ) (s : Econet) (b₁ : List ℕ)
    → store s.txbuf 0 (scout_frame (s.tx_destmap fd) s.address) ≡ some b₁
    → store b₁ 8 (data_frame (s.tx_destmap fd) s.address bytes) ≡ none
    → transmit fd bytes s ≡ none
unfolding transmit
transmit_past_end fd bytes s b₁ p q = rw (transmit, p, q)

transmit_overrun :
    (fd : ℕ) (bytes : List ℕ) (s : Econet)
    → length s.txbuf ≡ econet_txbufsz
    → econet_txbufsz - 12 < length bytes
    → transmit fd bytes s ≡ none
transmit_overrun fd bytes s size big =
    let dest = s.tx_destmap fd in
    let (b₁, q₁, s₁) = store-Stored s.txbuf 0 (scout_frame dest s.address) (omega arith) in
    transmit_past_end fd bytes s b₁ q₁
      (store_past_end b₁ 8 (data_frame dest s.address bytes) (omega (arith, s₁.size)))

-- For a descriptor with a destination station, 2037 to 2040 bytes pass the checks of `econet_write`,
-- and yet the data frame, which needs twelve bytes more, runs past the end of the transmit buffer,
-- whatever the interrupt routines do, as long as the buffer keeps its size while the call waits.
pub econet_write_overrun :
    (idle sent : Econet → Option Econet) (fd : ℕ) (bytes : List ℕ) (s : Econet)
    → ((t t' : Econet) → t.txbuf ≡ s.txbuf → idle t ≡ some t' → length t'.txbuf ≡ econet_txbufsz)
    → econet_txbufsz - 12 < length bytes
    → length bytes ≤ econet_txbufsz - 8
    → (s.tx_destmap fd).station ≢ 0
    → econet_write idle sent fd bytes s ≡ none
unfolding econet_write
econet_write_overrun idle sent fd bytes s size big small d =
    let short : ltb (econet_txbufsz - 8) (length bytes) ≡ false = ground arith in
    let set : ((s.tx_destmap fd).station == 0) ≡ false = ground arith in
    let reset = record s { tx_status = 0; timeout_state = 0; tx_flags = 0 } in
    elim (Option-cases (idle reset)) [
      | inl e ↦ rw (econet_write, short, set, e) refl
      | inr (t, e) ↦
          rw (econet_write, short, set, e, transmit_overrun fd bytes t (size reset t refl e) big)
            refl
    ]
