-- ===== src/Econet/Ports.antt =====
-- Which ports are listened to: `econet_set_rx_port`, `econet_close` and the interrupt routine.
use filestick.Base.{ℕ, ◌<◌, ◌≡◌, ◌≢◌, none, arith, val}
use native.Mathlib.Decide.{ℕ_discrete}
use filestick.Econet.{
  Econet, econet_read, econet_peek, econet_set_rx_port, econet_close, state_waitscout,
  state_waitdata,
}
use filestick.Econet.Isr.{Frame, econet_rx}

-- A scout frame for `port`.
abbrev pub scout_for : ℕ → Frame
scout_for port = record { len = 8; start = 0; port = port }

-- Listening at a port and closing gives both tables back as they were, if the descriptor had no
-- port and nobody listened there; in between, a scout for that port is acknowledged.
pub econet_close-set_rx_port :
    (fd port p f : ℕ) (s : Econet)
    → 0 < fd
    → fd < 16
    → port ≢ 0
    → s.mon ≡ 0
    → s.handshake_state ≡ state_waitscout
    → s.rx_portmap fd ≡ 0
    → s.port_list port ≡ 0
    → let bound = (econet_set_rx_port fd port s).1 in
      let closed = (econet_close fd bound).1 in
      ((econet_rx (scout_for port) bound).handshake_state ≡ state_waitdata)
      × (closed.port_list p ≡ s.port_list p)
      × (closed.rx_portmap f ≡ s.rx_portmap f)
unfolding econet_set_rx_port econet_close econet_rx
econet_close-set_rx_port fd port p f s pos small np m h free unheard = ground arith

-- A second port for the same descriptor does not end the listening at the first: where nobody else
-- reads at the first port, no descriptor does after the close, and yet a scout for it is still
-- acknowledged. The monitor is off, and the receiver waits for a scout.
pub set_rx_port_leaks :
    (fd port port' : ℕ) (s : Econet)
    → 0 < fd
    → fd < 16
    → port' ≢ 0
    → port ≢ port'
    → s.mon ≡ 0
    → s.handshake_state ≡ state_waitscout
    → ((other : ℕ) → other ≢ fd → s.rx_portmap other ≢ port)
    → port ≢ 0
    → let s₁ = (econet_set_rx_port fd port s).1 in
      let s₂ = (econet_set_rx_port fd port' s₁).1 in
      let s₃ = (econet_close fd s₂).1 in
      ((reader : ℕ) → s₃.rx_portmap reader ≢ port)
      × (s₃.rx_portmap fd ≡ 0)
      × (s₃.port_list port ≡ fd)
      × ((econet_rx (scout_for port) s₃).handshake_state ≡ state_waitdata)
unfolding econet_set_rx_port econet_close econet_rx
set_rx_port_leaks fd port port' s pos small np ne m h others nz = (
  λ reader. elim (ℕ_discrete reader fd) [
    | yes e ↦ λ q. absurd (ground arith)
    | no d ↦ let o = others reader d in λ q. absurd (ground arith)
  ],
  ground arith,
  ground arith,
  ground arith,
)

-- Where two descriptors listen at one port, closing the first makes the second deaf: it keeps its
-- port, but scouts for it are no longer acknowledged, nothing is announced and a read waits.
pub close_deafens :
    (fd fd' port : ℕ) (s : Econet)
    → fd ≢ fd'
    → port ≢ 0
    → s.mon ≡ 0
    → s.handshake_state ≡ state_waitscout
    → let s₁ = (econet_set_rx_port fd port s).1 in
      let s₂ = (econet_set_rx_port fd' port s₁).1 in
      let s₃ = (econet_close fd s₂).1 in
      (s₃.rx_portmap fd' ≡ port)
      × (econet_rx (scout_for port) s₃ ≡ s₃)
      × (econet_peek fd' s₃ ≡ val 0)
      × (econet_read fd' 1 s₃ ≡ none)
unfolding econet_set_rx_port econet_close econet_rx econet_peek econet_read
close_deafens fd fd' port s ne np m h = ground arith
