-- ===== src/FileServer/Tests.antt =====
-- A test of the file server: station 5 of net 1 sends "I AM", with reply port 0x90.
use filestick.Base.{ℕ, ◌≡◌, refl, Option, some, List, [], ◌∷◌, ◌++◌, none, arith, replicate, val}
use filestick.Base.Text.{codes, str_eq}
use filestick.Libc.Words.{words, cut}
use filestick.Econet.{Econet, no_addr, update, econet_read}
use filestick.FileServer.{commands, Server, with_buf, msg_round, find_command, reply_bytes}
use filestick.FileServer.Reply.{stream, replied, reply_to, to_sender, msg_round-replied}

abbrev text : List ℕ
text = codes "I AM"

abbrev message : List ℕ
message = 5 ∷ 1 ∷ 0x90 ∷ 0 ∷ 7 ∷ 8 ∷ 9 ∷ text

abbrev asked : Econet
asked = record {
  rx_portmap = update (λ _. 0) 3 0x99;
  tx_destmap = λ _. no_addr;
  address = 254;
  last_monitor_frames = 0;
  handshake_state = 0;
  pending_port = 0;
  buf_start = 0;
  buf_len = 11;
  tx_start = 0;
  tx_end = 0;
  tx_status = 0;
  timeout_state = 0;
  monitor_frames = 0;
  port_list = update (λ _. 0) 0x99 0x83;
  mon = 0;
  clkterm = 0;
  addr_set = 254;
  tx_flags = 0;
  tx_start_offset = 0;
  tx_end_offset = 0;
  rxbuf = message;
  txbuf = replicate 2048 0;
}

-- Nothing is in the way of the transmission, and it succeeds.
abbrev idle : Econet → Option Econet
idle e = some e

abbrev sent : Econet → Option Econet
sent e = some (record e { tx_status = 1 })

message_read : (e₁ : Econet) × (econet_read 3 2048 asked ≡ some (val 11, message, e₁))
unfolding econet_read
message_read = (_, refl)

asks_reply : reply_to idle sent 3 (words text) ≡ some (5 ∷ 0 ∷ 3 ∷ 5 ∷ 6 ∷ 0 ∷ [])
unfolding cut find_command reply_bytes str_eq
asks_reply = refl

msg_round-replied_example :
    (buf' : List ℕ) × (msg_round
        (stream idle sent 3)
        (record { econet_fd = 3; econet_buf = replicate 2048 0; world = asked })
      ≡ with_buf (stream idle sent 3) 3 buf' (
          replied idle sent 3
            (reply_to idle sent 3 (words text))
            message_read.0
            (to_sender idle sent 3 0x90 1 5 message_read.0)))
msg_round-replied_example =
    msg_round-replied idle sent 3 5 1 0x90 0 7 8 9 text (replicate 2048 0) asked message_read.0
      message_read.1 (omega arith) refl

abbrev starting : Server Econet
starting = record { econet_fd = 0; econet_buf = replicate 2048 0; world = asked }

-- A command line of one word, ended as the protocol says.
echo_cr : find_command commands (codes "echo" ++ 13 ∷ []) ≡ none
unfolding find_command str_eq
echo_cr = refl
