-- ===== src/FileServer/Reply.antt =====
-- A message to the file server and the reply that it is given, over the Econet driver.
use filestick.Base.{
  ℕ, ◌+◌, ◌<◌, ◌≡◌, refl, ap, ap₂, ◌∙◌, inl, inr, true, false, Option, none, some, List, [], ◌∷◌,
  ◌++◌, arith, ltb, leb, ◌==◌, if◌then◌else◌, Bool-cases, Option-cases, length, set, get_or, take,
  drop, val,
}
use filestick.Libc.Words.{words, cut, no_nul, set-append}
use filestick.Libc.Arguments.{split_args-words}
use filestick.Econet.{Econet, update, econet_read, econet_write}
use filestick.Econet.Client.{EconetStream, driver_stream, driver_ioctl, econet_ioctl-send_addr}
use filestick.FileServer.{
  NetFsMsg, commands, find_command, reply_bytes, run_command, starcmd_args, handle_starcmd,
  econet_handle_message, message_of, econet_send, written, with_buf, handle_in, received, msg_round,
  max_args,
}

get_or-set_first : (ys : List ℕ) → get_or (set ys 0 0) 0 0 ≡ 0
get_or-set_first [] = refl
get_or-set_first (y ∷ ys) = refl

-- The arguments of a payload that holds a text and then a NUL.
starcmd_args-words :
    (msg : NetFsMsg) (text zs : List ℕ)
    → msg.payload ≡ text ++ zs
    → get_or zs 0 0 ≡ 0
    → no_nul text ≡ true
    → msg.paysize ≡ length text
    → (starcmd_args msg).0 ≡ take max_args (words text)
unfolding cut
starcmd_args-words msg [] zs p z h n =
    let none_left : ltb 0 msg.paysize ≡ false = ground arith in rw none_left refl
starcmd_args-words msg (x ∷ text) zs p z h n =
    let some_left : ltb 0 msg.paysize ≡ true = ground arith in
    rw (some_left, p) (split_args-words max_args (x ∷ text) zs z h)

module _ (idle sent : Econet → Option Econet) (fd : ℕ) where
  abbrev pub stream : EconetStream Econet
  stream = driver_stream idle sent fd

  -- The state in which frames of the descriptor go to the sender of a message.
  abbrev pub to_sender : ℕ → ℕ → ℕ → Econet → Econet
  to_sender port net station e = record e {
    tx_destmap = update e.tx_destmap fd (record { port = port; net = net; station = station });
  }

  econet_send-to_sender :
      (msg : NetFsMsg) (bytes : List ℕ) (e : Econet)
      → econet_send stream fd msg bytes e
        ≡ written stream (
            econet_write idle sent fd bytes
              (to_sender msg.reply_port msg.reply_net msg.reply_station e))
  unfolding econet_send driver_ioctl
  econet_send-to_sender msg bytes e =
      rw (econet_ioctl-send_addr fd msg.reply_port msg.reply_net msg.reply_station e) refl

  -- What the first word of a text asks for.
  abbrev pub reply_to : List (List ℕ) → Option (List ℕ)
  reply_to [] = none
  reply_to (name ∷ args) = elim (find_command commands name) [
    | none ↦ none
    | some c ↦ some (reply_bytes c)
  ]

  abbrev pub replied : Option (List ℕ) → Econet → Econet → Option Econet
  replied none e e' = some e
  replied (some r) e e' = written stream (econet_write idle sent fd r e')

  run_command-replied :
      (msg : NetFsMsg) (ws : List (List ℕ)) (e : Econet)
      → run_command stream fd msg (take max_args ws) e
        ≡ replied (reply_to ws) e (to_sender msg.reply_port msg.reply_net msg.reply_station e)
  run_command-replied msg [] e = refl
  run_command-replied msg (name ∷ ws) e = elim (Option-cases (find_command commands name)) [
    | inl q ↦ rw (run_command, reply_to, q) refl
    | inr (c, q) ↦ rw (run_command, reply_to, q) (econet_send-to_sender msg (reply_bytes c) e)
  ]

  -- The message in a buffer that holds a header, a text, and then a NUL.
  handle_message-replied :
      (station net port fc urd csd lib : ℕ) (text zs : List ℕ) (e : Econet)
      → get_or zs 0 0 ≡ 0
      → length text < 65536
      → no_nul text ≡ true
      → let buf = station ∷ net ∷ port ∷ fc ∷ urd ∷ csd ∷ lib ∷ (text ++ zs) in
        (econet_handle_message stream fd (message_of buf (7 + length text)) e).1 ≡ (
          if fc == 0
          then replied (reply_to (words text)) e (to_sender port net station e)
          else some e)
  unfolding message_of econet_handle_message handle_starcmd
  handle_message-replied station net port fc urd csd lib text zs e z fits clean =
      let buf = station ∷ net ∷ port ∷ fc ∷ urd ∷ csd ∷ lib ∷ (text ++ zs) in
      let msg = message_of buf (7 + length text) in
      let size : msg.paysize ≡ length text = omega arith in
      elim (Bool-cases (fc == 0)) [
        | inr q ↦ rw (econet_handle_message, q) refl
        | inl q ↦
            rw (econet_handle_message, q)
              (ap (λ args. run_command stream fd msg args e)
                  (starcmd_args-words msg text zs refl z clean size)
                ∙ run_command-replied msg (words text) e)
      ]

  -- A round of the loop on a message whose header says where it comes from: nothing is sent for a
  -- function code that is not a command line, a line without words, or a line whose first word is not
  -- a command; else the command's reply is written once, by a descriptor that then sends to the
  -- station, net and port of the header. Words end at spaces and at the end of the message alone: a
  -- carriage return behind a word belongs to it, and the word is then no command. `econet_read` has
  -- given the message, which has no NUL after its header and does not fill the buffer.
  pub msg_round-replied :
      (station net port fc urd csd lib : ℕ) (text buf : List ℕ) (e e₁ : Econet)
      → let bytes = station ∷ net ∷ port ∷ fc ∷ urd ∷ csd ∷ lib ∷ text in
        econet_read fd 2048 e ≡ some (val (length bytes), bytes, e₁)
        → 7 + length text < 2048
        → no_nul text ≡ true
        → (buf' : List ℕ) × (msg_round stream
              (record { econet_fd = fd; econet_buf = buf; world = e })
            ≡ with_buf stream fd buf' (
                if fc == 0
                then replied (reply_to (words text)) e₁ (to_sender port net station e₁)
                else some e₁))
  unfolding msg_round
  msg_round-replied station net port fc urd csd lib text buf e e₁ read fits clean =
      let bytes = station ∷ net ∷ port ∷ fc ∷ urd ∷ csd ∷ lib ∷ text in
      let n : length bytes ≡ 7 + length text = omega arith in
      let zs = set (drop (length bytes) buf) 0 0 in
      let filled = station ∷ net ∷ port ∷ fc ∷ urd ∷ csd ∷ lib ∷ (text ++ zs) in
      let ended : set (bytes ++ drop (length bytes) buf) (length bytes) 0 ≡ filled =
        ap (λ l. station ∷ net ∷ port ∷ fc ∷ urd ∷ csd ∷ lib ∷ l)
          (ap (λ i. set (text ++ drop (length bytes) buf) i 0) (omega arith)
            ∙ set-append text (drop (length bytes) buf) 0 0) in
      let msg = message_of filled (7 + length text) in
      let handled =
        handle_message-replied station net port fc urd csd lib text zs e₁
          (get_or-set_first (drop (length bytes) buf)) (omega arith) clean in
      let long : ltb (length bytes) 7 ≡ false = ground arith in
      let short : leb 2048 (length bytes) ≡ false = ground arith in
      let whole : received stream fd buf (some (val (length bytes), bytes, e₁))
          ≡ handle_in stream fd filled (7 + length text) e₁ =
        rw (long, short) (ap₂ (λ b m. handle_in stream fd b m e₁) ended n) in
      (
        take 7 filled ++ (econet_handle_message stream fd msg e₁).0,
        ap (received stream fd buf) read
            ∙ whole
            ∙ ap (with_buf stream fd (take 7 filled ++ (econet_handle_message stream fd msg e₁).0))
                handled,
      )
