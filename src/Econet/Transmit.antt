-- ===== src/Econet/Transmit.antt =====
-- `econet_write`: how a transmission ends, and what is sent.
use filestick.Base.{
  ℕ, ◌-◌, ◌≤◌, ◌≡◌, refl, ◌∙◌, ◌≢◌, Bool, true, false, Option, none, some, List, [], ◌∷◌, arith,
  ltb, ◌==◌, if◌then◌else◌, length, ehostunreach, etimedout, Ret, val, err,
}
use native.Mathlib.Decide.{ℕ_discrete}
use filestick.Econet.{
  Econet, starts_scout, write_result, econet_write, econet_txbufsz, state_txscout, state_txdata,
}
use filestick.Econet.Frames.{transmit_fits}
use filestick.Econet.Isr.{
  Frame, Event, frame, timeout, interrupt, econet_rx, econet_timeout, await_sent,
}

-- An acknowledgement is a frame of six bytes.
abbrev pub is_ack : Event → Bool
is_ack (frame f) = f.len == 6
is_ack timeout = false

-- How the four-way handshake ends, by the events after the scout frame was sent; none while it goes
-- on. The remote station must acknowledge the scout and then the data.
unfoldable pub handshake : ℕ → List Event → Option Ret
handshake count [] = none
handshake count (timeout ∷ es) = some (err ehostunreach)
handshake count (frame f ∷ []) = if f.len == 6 then none else some (err etimedout)
handshake count (frame f ∷ e ∷ es) =
    if f.len == 6
    then some (if is_ack e then val count else err etimedout)
    else some (err etimedout)

abbrev result : ℕ → Option Econet → Option Ret
result count none = none
result count (some s) = some (write_result count s)

sending_data :
    (count : ℕ) (e : Event) (es : List Event) (s : Econet)
    → s.mon ≡ 0
    → s.handshake_state ≡ state_txdata
    → s.tx_status ≡ 0
    → s.timeout_state ≡ 0
    → result count (await_sent (e ∷ es) s) ≡ some (if is_ack e then val count else err etimedout)
unfolding await_sent econet_rx econet_timeout
sending_data count (frame f) [] s m h t o = ground arith
sending_data count (frame f) (e ∷ es) s m h t o = ground arith
sending_data count timeout [] s m h t o = ground arith
sending_data count timeout (e ∷ es) s m h t o = ground arith

-- While the handshake goes on, the next event is waited for.
await_step :
    (e : Event) (es : List Event) (s : Econet)
    → state_txscout ≤ s.handshake_state
    → await_sent (e ∷ es) s ≡ await_sent es (interrupt e s)
unfolding await_sent
await_step e es s h = ground arith

-- The remote station acknowledged the scout.
scout_acked :
    (f : Frame) (s : Econet)
    → s.mon ≡ 0
    → s.handshake_state ≡ state_txscout
    → f.len ≡ 6
    → let s' = econet_rx f s in
      (s'.mon ≡ 0)
      × (s'.handshake_state ≡ state_txdata)
      × (s'.tx_status ≡ s.tx_status)
      × (s'.timeout_state ≡ s.timeout_state)
unfolding econet_rx
scout_acked f s m h l = ground arith

scout_refused :
    (count : ℕ) (f : Frame) (es : List Event) (s : Econet)
    → s.mon ≡ 0
    → s.handshake_state ≡ state_txscout
    → s.timeout_state ≡ 0
    → f.len ≢ 6
    → result count (await_sent es (econet_rx f s)) ≡ some (err etimedout)
unfolding econet_rx await_sent
scout_refused count f [] s m h o l = ground arith
scout_refused count f (e ∷ es) s m h o l = ground arith

scout_answered :
    (count : ℕ) (f : Frame) (e : Event) (es : List Event) (s : Econet)
    → s.mon ≡ 0
    → s.handshake_state ≡ state_txscout
    → s.tx_status ≡ 0
    → s.timeout_state ≡ 0
    → result count (await_sent (frame f ∷ e ∷ es) s) ≡ handshake count (frame f ∷ e ∷ es)
unfolding handshake
scout_answered count f e es s m h t o = elim (ℕ_discrete f.len 6) [
  | yes l ↦
      let (m', h', t', o') = scout_acked f s m h l in
      let q : (f.len == 6) ≡ true = ground arith in
      rw (await_step (frame f) (e ∷ es) s (omega arith), q)
        (sending_data count e es (econet_rx f s) m' h' (t' ∙ t) (o' ∙ o))
  | no l ↦
      let q : (f.len == 6) ≡ false = ground arith in
      rw (await_step (frame f) (e ∷ es) s (omega arith), q)
        (scout_refused count f (e ∷ es) s m h o l)
]

sending_scout :
    (count : ℕ) (es : List Event) (s : Econet)
    → s.mon ≡ 0
    → s.handshake_state ≡ state_txscout
    → s.tx_status ≡ 0
    → s.timeout_state ≡ 0
    → result count (await_sent es s) ≡ handshake count es
unfolding await_sent econet_rx econet_timeout handshake
sending_scout count [] s m h t o = ground arith
sending_scout count (timeout ∷ []) s m h t o = ground arith
sending_scout count (timeout ∷ e ∷ es) s m h t o = ground arith
sending_scout count (frame f ∷ []) s m h t o = ground arith
sending_scout count (frame f ∷ e ∷ es) s m h t o = scout_answered count f e es s m h t o

abbrev pub write_code : Option (Ret × Econet) → Option Ret
write_code none = none
write_code (some (r, s)) = some r

code-result :
    (count : ℕ) (o : Option Econet)
    → write_code (elim o [ none ↦ none | some s ↦ some (write_result count s, s) ]) ≡ result count o
code-result count none = refl
code-result count (some s) = refl

-- A write of at most 2036 bytes to a station while the receiver is idle and not in monitor mode
-- returns as the handshake ends: it reports the bytes as sent exactly when the first two events are
-- acknowledgements, the host as unreachable when the scout timed out, and a time-out otherwise; it
-- waits while the handshake goes on.
pub econet_write-handshake :
    (fd : ℕ) (bytes : List ℕ) (es : List Event) (s : Econet)
    → s.mon ≡ 0
    → length s.txbuf ≡ econet_txbufsz
    → length bytes ≤ econet_txbufsz - 12
    → (s.tx_destmap fd).station ≢ 0
    → write_code (econet_write some (await_sent es) fd bytes s) ≡ handshake (length bytes) es
unfolding econet_write
econet_write-handshake fd bytes es s m size l d =
    let reset : Econet = record s { tx_status = 0; timeout_state = 0; tx_flags = 0 } in
    let (buf, q, _, _) = transmit_fits fd bytes reset size l in
    let fits : ltb 2040 (length bytes) ≡ false = ground arith in
    let known : ((s.tx_destmap fd).station == 0) ≡ false = ground arith in
    rw (fits, known, q)
      (code-result (length bytes) (await_sent es (starts_scout (length bytes) buf reset))
        ∙ sending_scout (length bytes) es (starts_scout (length bytes) buf reset) m refl refl refl)
