-- ===== src/Econet/Tests.antt =====
-- Tests of the Econet driver: descriptor 3 sends to station 254 and listens at port 0x90.
use filestick.Base.{
  take, drop, ap, sym, ◌∙◌, ◌≢◌, ℕ, ◌≡◌, refl, none, some, List, [], ◌∷◌, arith, length, replicate,
  val, Option, ◌++◌, ◌+◌, ◌-◌, ◌/◌, ◌%◌,
}
use filestick.Econet.{
  state_txscout, Econet, EconetAddr, no_addr, update, econet_write, econet_close,
  econet_set_rx_port, transmit, state_waitdata,
}
use filestick.Econet.Isr.{Event, frame, econet_rx, await_sent}
use filestick.Econet.Frames.{transmit-Frames, econet_write_overrun}
use filestick.Econet.Transmit.{handshake, write_code, econet_write-handshake}
use filestick.Econet.Receive.{HasFrame, Drained, read_frame, econet_read-frame}
use filestick.Econet.Ports.{scout_for, set_rx_port_leaks}

abbrev server : EconetAddr
server = record { port = 0x99; net = 0; station = 254 }

abbrev blank : Econet
blank = record {
  rx_portmap = λ _. 0;
  tx_destmap = update (λ _. no_addr) 3 server;
  address = 0x0101;
  last_monitor_frames = 0;
  handshake_state = 0;
  pending_port = 0;
  buf_start = 0;
  buf_len = 0;
  tx_start = 0;
  tx_end = 0;
  tx_status = 0;
  timeout_state = 0;
  monitor_frames = 0;
  port_list = λ _. 0;
  mon = 0;
  clkterm = 0;
  addr_set = 0x0101;
  tx_flags = 0;
  tx_start_offset = 0;
  tx_end_offset = 0;
  rxbuf = 1 ∷ 2 ∷ 3 ∷ 4 ∷ 5 ∷ 6 ∷ 7 ∷ [];
  txbuf = replicate 2048 0;
}

-- A frame of five bytes is ready for descriptor 3.
abbrev arrived : Econet
arrived = record blank {
  rx_portmap = update (λ _. 0) 3 0x90;
  port_list = update (λ _. 0) 0x90 0x83;
  buf_start = 2;
  buf_len = 5;
}

abbrev ack : Event
ack = frame (record { len = 6; start = 0; port = 0 })

arrived-HasFrame : HasFrame 3 arrived
arrived-HasFrame = record { no_monitor = refl; bound = ground arith; ready = refl }

econet_read-frame_example :
    (s' : Econet) × (read_frame 3 7 2 arrived ≡ some (3 ∷ 4 ∷ 5 ∷ 6 ∷ 7 ∷ [], s'))
    × Drained 3 arrived s'
econet_read-frame_example =
    econet_read-frame 3 2 arrived (omega arith) (omega arith) arrived-HasFrame

transmit-Frames_example :
    (buf : List ℕ) × (let addresses =
        server.station ∷ server.net ∷ 0x0101 % 256 ∷ 0x0101 / 256 ∷ [] in
      (transmit 3 (1 ∷ 2 ∷ []) blank
        ≡ some (record blank {
          txbuf = buf;
          tx_start = 8;
          tx_end = 8 + (4 + 2) - 1;
          handshake_state = state_txscout;
          tx_start_offset = 0;
          tx_end_offset = 5;
        }))
      × (length buf ≡ 2048)
      × (take 6 buf ≡ addresses ++ 0x80 ∷ server.port ∷ [])
      × (take 6 (drop 8 buf) ≡ addresses ++ 1 ∷ 2 ∷ []))
transmit-Frames_example =
    transmit-Frames 3 (1 ∷ 2 ∷ []) blank refl (omega arith) (omega arith) (omega arith)
      (omega arith)

econet_write-handshake_example :
    write_code (econet_write some (await_sent (ack ∷ ack ∷ [])) 3 (1 ∷ 2 ∷ []) blank)
    ≡ handshake 2 (ack ∷ ack ∷ [])
econet_write-handshake_example =
    econet_write-handshake 3 (1 ∷ 2 ∷ []) (ack ∷ ack ∷ []) blank refl refl (omega arith)
      (omega arith)

handshake_done : handshake 2 (ack ∷ ack ∷ []) ≡ some (val 2)
unfolding handshake
handshake_done = refl

-- The size of the transmit buffer after a wait.
abbrev sent_size : Option Econet → ℕ
sent_size none = 0
sent_size (some t) = length t.txbuf

econet_write_overrun_example : econet_write some some 3 (replicate 2037 0) blank ≡ none
econet_write_overrun_example =
    econet_write_overrun some some 3 (replicate 2037 0) blank
      (λ t t' same now. ap sent_size (sym now) ∙ ap length same) (omega arith) (omega arith)
      (omega arith)

set_rx_port_leaks_example :
    let s₁ = (econet_set_rx_port 3 0x90 blank).1 in
    let s₂ = (econet_set_rx_port 3 0x91 s₁).1 in
    let s₃ = (econet_close 3 s₂).1 in
    ((reader : ℕ) → s₃.rx_portmap reader ≢ 0x90)
    × (s₃.rx_portmap 3 ≡ 0)
    × (s₃.port_list 0x90 ≡ 3)
    × ((econet_rx (scout_for 0x90) s₃).handshake_state ≡ state_waitdata)
set_rx_port_leaks_example =
    set_rx_port_leaks 3 0x90 0x91 blank (omega arith) (omega arith) (omega arith) (omega arith) refl
      refl (λ other ne q. absurd (omega arith)) (omega arith)
