-- ===== src/FileServer.antt =====
-- The file server: fileserver/main.c, fileserver/message.c and fileserver/starcmd.c. The Econet
-- device stands behind `EconetStream`; what is printed is left out.
pub mod Reply
mod Tests
use filestick.Base.{
  ℕ, zero, suc, ◌+◌, ◌-◌, ◌*◌, ◌/◌, ◌%◌, ◌^◌, ◌≤◌, ◌<◌, min, max, bit_and, bit_or, bit_xor, ◌≡◌,
  refl, sym, ap, ap₂, ◌∙◌, fun_ext, ◌≢◌, ◌↔◌, ◌⊎◌, inl, inr, Bool, true, false, not, ◌&&◌, ◌||◌,
  Option, none, some, List, [], ◌∷◌, ◌++◌, map, append-nil, append_assoc, arith, ltb, leb, ◌==◌,
  if◌then◌else◌, ltb→lt, lt→ltb, leb→le, ==_iff, tests, Bool-cases, Option-cases, length, get_elem?,
  get_elem?-lt, get_elem?_of_lt, get_elem?-none, set, length-append, length-set, get_elem?-set_self,
  get_elem?-set_ne, set-set, get_or, take, drop, replicate, take-set_end, take-set_ge, take-take,
  take_all, take-append_self, take-append-take, take-append_left, drop-append_left,
  drop-append_self, drop-drop, take-append-drop, length-take, length-drop, length-replicate,
  length-map, Errno, enoent, eio, enoexec, ebadf, enomem, eexist, einval, enfile, emfile, espipe,
  erofs, emsgsize, edestaddrreq, ehostunreach, etimedout, efatfs, Ret, val, err,
}
use filestick.Base.Text.{codes, str_eq}
use filestick.Libc.Tokens.{c_str, split_args}
use filestick.Econet.Client.{EconetCalls, EconetStream, request_with}

abbrev pub netfs_port : ℕ
netfs_port = 0x99

abbrev pub fc_commandline : ℕ
fc_commandline = 0

-- `sizeof(econet_buf)`
abbrev pub econet_buf_size : ℕ
econet_buf_size = 2048

-- The payload is the rest of the buffer, and `paysize` bytes of it were received.
pub record NetFsMsg : Type 0 where
  pub reply_net : ℕ
  pub reply_station : ℕ
  pub reply_port : ℕ
  pub function_code : ℕ
  pub urd : ℕ
  pub csd : ℕ
  pub lib : ℕ
  pub paysize : ℕ
  pub payload : List ℕ

-- The commands of the table in starcmd.c.
pub data StarCommand : Type 0 where
  cmd_i_am : StarCommand
  cmd_echo : StarCommand

abbrev pub commands : List (List ℕ × StarCommand)
commands = (codes "i", cmd_i_am) ∷ (codes "echo", cmd_echo) ∷ []

abbrev pub max_args : ℕ
max_args = 8

-- `!strcasecmp(a, b)`
abbrev pub lower : ℕ → ℕ
lower c = if leb 65 c && leb c 90 then c + 32 else c

abbrev pub same_case : List ℕ → List ℕ → Bool
same_case a b = str_eq (map lower a) (map lower b)

unfoldable pub find_command : List (List ℕ × StarCommand) → List ℕ → Option StarCommand
find_command [] name = none
find_command ((cmd, f) ∷ table) name =
    let rest = find_command table name in if same_case cmd name then some f else rest

-- What a command sends.
unfoldable pub reply_bytes : StarCommand → List ℕ
reply_bytes cmd_i_am = 0x05 ∷ 0x00 ∷ 3 ∷ 5 ∷ 6 ∷ 0 ∷ []
reply_bytes cmd_echo = (0x00 ∷ 0x01 ∷ codes "Test") ++ 10 ∷ 0 ∷ []

-- `econet_fd` and `econet_buf`, and the device.
pub record Server (S : Type 0) : Type 0 where
  pub econet_fd : ℕ
  pub econet_buf : List ℕ
  pub world : S

-- The header of a message in the buffer.
unfoldable pub message_of : List ℕ → ℕ → NetFsMsg
message_of buf rxbytes = record {
  reply_net = get_or buf 1 0;
  reply_station = get_or buf 0 0;
  reply_port = get_or buf 2 0;
  function_code = get_or buf 3 0;
  urd = get_or buf 4 0;
  csd = get_or buf 5 0;
  lib = get_or buf 6 0;
  paysize = (rxbytes - 7) % 2 ^ 16;
  payload = drop 7 buf;
}

-- The arguments, and the payload as `strtok` leaves it.
abbrev pub starcmd_args : NetFsMsg → List (List ℕ) × List ℕ
starcmd_args msg =
    let (args, payload) = split_args max_args msg.payload in
    if ltb 0 msg.paysize then (map (c_str payload) args, payload) else ([], msg.payload)

module _ {S : Type 0} (stream : EconetStream S) where
  -- The end of a call whose failure is only printed.
  abbrev pub written : Option (Ret × S) → Option S
  written none = none
  written (some (r, s)) = some s

  abbrev pub after_dest : ℕ → List ℕ → Option (Ret × List ℕ × S) → Option S
  after_dest fd bytes none = none
  after_dest fd bytes (some (err e, _, s)) = some s
  after_dest fd bytes (some (val _, _, s)) = written (stream.write fd bytes s)

  -- `dest` lies in memory as port, net and station.
  unfoldable pub econet_send : ℕ → NetFsMsg → List ℕ → S → Option S
  econet_send fd origin bytes s = after_dest fd bytes (
      stream.calls.ioctl fd 0x03000000
        (origin.reply_port ∷ origin.reply_net ∷ origin.reply_station ∷ []) s)

  -- `handle_starcmd` once the line is split.
  abbrev pub run_command : ℕ → NetFsMsg → List (List ℕ) → S → Option S
  run_command fd msg [] s = some s
  run_command fd msg (name ∷ args) s = elim (find_command commands name) [
    | none ↦ some s
    | some c ↦ econet_send fd msg (reply_bytes c) s
  ]

  unfoldable pub handle_starcmd : ℕ → NetFsMsg → S → List ℕ × Option S
  handle_starcmd fd msg s =
      let (args, payload) = starcmd_args msg in (payload, run_command fd msg args s)

  unfoldable pub econet_handle_message : ℕ → NetFsMsg → S → List ℕ × Option S
  econet_handle_message fd msg s =
      if msg.function_code == fc_commandline then handle_starcmd fd msg s else (msg.payload, some s)

  abbrev pub with_buf : ℕ → List ℕ → Option S → Option (Server S)
  with_buf fd buf none = none
  with_buf fd buf (some s) = some (record { econet_fd = fd; econet_buf = buf; world = s })

  -- A message in the buffer, whose payload `strtok` may change.
  abbrev pub handle_in : ℕ → List ℕ → ℕ → S → Option (Server S)
  handle_in fd buf rxbytes s =
      let (payload, s') = econet_handle_message fd (message_of buf rxbytes) s in
      with_buf fd (take 7 buf ++ payload) s'

  -- A round of the loop after the read. A message that fills the buffer has its final NUL written
  -- past the end.
  abbrev pub received : ℕ → List ℕ → Option (Ret × List ℕ × S) → Option (Server S)
  received fd buf none = none
  received fd buf (some (err e, _, s)) = with_buf fd buf (some s)
  received fd buf (some (val rxbytes, bytes, s)) =
      let buf₁ = bytes ++ drop (length bytes) buf in
      if ltb rxbytes 7
      then with_buf fd buf₁ (some s)
      else if leb econet_buf_size rxbytes
      then none
      else handle_in fd (set buf₁ rxbytes 0) rxbytes s

  unfoldable pub msg_round : Server S → Option (Server S)
  msg_round v = received v.econet_fd v.econet_buf (stream.read v.econet_fd econet_buf_size v.world)

  -- `econet_msgloop` has no end: so many rounds of it.
  unfoldable pub econet_msgloop : ℕ → Server S → Option (Server S)
  econet_msgloop zero v = some v
  econet_msgloop (suc rounds) v = elim (msg_round v) [
    | none ↦ none
    | some v' ↦ econet_msgloop rounds v'
  ]

  abbrev pub port_set : Server S → Option (Ret × List ℕ × S) → Option (Ret × Server S)
  port_set v none = none
  port_set v (some (err e, _, s)) = some (err e, record v { world = s })
  port_set v (some (val _, _, s)) = some (val 0, record v { world = s })

  abbrev pub addr_was_set : Server S → Option (Ret × List ℕ × S) → Option (Ret × Server S)
  addr_was_set v none = none
  addr_was_set v (some (err e, _, s)) = some (err e, record v { world = s })
  addr_was_set v (some (val _, _, s)) =
      port_set v (stream.calls.ioctl v.econet_fd (request_with 0x02000000 netfs_port) [] s)

  -- A failed open leaves a negative `econet_fd`, which is not used then.
  unfoldable pub econet_init : ℕ → Server S → Option (Ret × Server S)
  econet_init station v =
      let (rc, s) = stream.calls.open_econet v.world in
      elim rc [
        | err e ↦ some (err e, record v { world = s })
        | val fd ↦
            addr_was_set (record v { econet_fd = fd })
              (stream.calls.ioctl fd (request_with 0x01000000 station) [] s)
      ]

  -- `main`: the result of `econet_init` is not looked at.
  unfoldable pub main : ℕ → Server S → Option (Server S)
  main rounds v = elim (econet_init 254 v) [
    | none ↦ none
    | some (rc, v') ↦ econet_msgloop rounds v'
  ]
