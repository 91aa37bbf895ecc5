-- ===== src/Econet/Isr.antt =====
-- The interrupt routines of system/econet_rx.S, which advance the handshake: `econet_rx` for a
-- frame with a good checksum for our station, and `econet_timeout` for the timer.
use filestick.Base.{
  ℕ, ◌+◌, ◌-◌, ◌%◌, ◌^◌, bit_or, not, ◌&&◌, Option, none, some, List, [], ◌∷◌, ltb, ◌==◌,
  if◌then◌else◌,
}
use filestick.Econet.{
  Econet, update, state_waitscout, state_waitdata, state_txscout, state_txdata, status_txdone,
  status_txneterr,
}

-- What the receiver's registers say of a frame: its length with address and checksum, the offset of
-- its first byte, and the port and flag byte that a scout carries.
pub record Frame : Type 0 where
  pub len : ℕ
  pub start : ℕ
  pub port : ℕ

-- `.scout_ack`: a scout for a port that is listened to is acknowledged. (Other frames, the machine
-- type request among them, leave the variables of the driver.)
abbrev pub scout_ack : Frame → Econet → Econet
scout_ack f s =
    if f.len == 8 && not (s.port_list f.port == 0)
    then record s { handshake_state = state_waitdata; pending_port = f.port }
    else s

-- `.data_ack`: the frame is handed to the port that the scout named.
abbrev pub data_ack : Frame → Econet → Econet
data_ack f s = record s {
  port_list = update s.port_list s.pending_port (bit_or (s.port_list s.pending_port) 0x80);
  handshake_state = state_waitscout;
  buf_start = f.start + 2;
  buf_len = (f.len + 2 ^ 32 - 4) % 2 ^ 32;
}

-- `.tx_error`
abbrev pub tx_error : Econet → Econet
tx_error s = record s { handshake_state = state_waitscout; tx_status = status_txneterr }

-- `.rx_scout_ack`: the data frame is sent.
abbrev pub rx_scout_ack : Frame → Econet → Econet
rx_scout_ack f s =
    if f.len == 6
    then record s {
      handshake_state = state_txdata;
      tx_flags = 1;
      tx_start_offset = s.tx_start;
      tx_end_offset = s.tx_end;
    }
    else tx_error s

-- `.rx_data_ack`
abbrev pub rx_data_ack : Frame → Econet → Econet
rx_data_ack f s =
    if f.len == 6
    then record s { handshake_state = state_waitscout; tx_status = status_txdone }
    else tx_error s

-- `.econet_monitor`
abbrev pub monitor_frame : Frame → Econet → Econet
monitor_frame f s = record s {
  monitor_frames = (s.monitor_frames + 1) % 2 ^ 32;
  buf_start = f.start;
  buf_len = f.len;
}

unfoldable pub econet_rx : Frame → Econet → Econet
econet_rx f s =
    if not (s.mon == 0)
    then monitor_frame f s
    else if s.handshake_state == state_waitscout
    then scout_ack f s
    else if s.handshake_state == state_waitdata
    then data_ack f s
    else if s.handshake_state == state_txscout
    then rx_scout_ack f s
    else if s.handshake_state == state_txdata
    then rx_data_ack f s
    else s

unfoldable pub econet_timeout : Econet → Econet
econet_timeout s = record s { timeout_state = s.handshake_state; handshake_state = 0 }

pub data Event : Type 0 where
  frame : Frame → Event
  timeout : Event

abbrev pub interrupt : Event → Econet → Econet
interrupt (frame f) s = econet_rx f s
interrupt timeout s = econet_timeout s

-- `while(econet_handshake_state >= STATE_TXSCOUT);` while the events happen.
unfoldable pub await_sent : List Event → Econet → Option Econet
await_sent [] s = if ltb s.handshake_state state_txscout then some s else none
await_sent (e ∷ es) s =
    let rest = await_sent es (interrupt e s) in
    if ltb s.handshake_state state_txscout then some s else rest
