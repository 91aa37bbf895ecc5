-- ===== src/Econet.antt =====
-- system/raw_econet.c, system/raw_econet.h, include/sys/econet.h: the Econet driver. It shares its
-- state with the interrupt routines of system/econet_rx.S, which are in `Isr`. The arrays indexed
-- by a descriptor are functions; the driver is only called with a number of `fdtable`.
pub mod Isr
pub mod Receive
pub mod Transmit
pub mod Frames
pub mod Ports
pub mod Ioctl
pub mod Client
mod Tests
use filestick.Base.{
  ℕ, zero, suc, ◌+◌, ◌-◌, ◌*◌, ◌/◌, ◌%◌, ◌^◌, ◌≤◌, ◌<◌, min, max, bit_and, bit_or, bit_xor, ◌≡◌,
  refl, sym, ap, ap₂, ◌∙◌, fun_ext, ◌≢◌, ◌↔◌, ◌⊎◌, inl, inr, Bool, true, false, not, ◌&&◌, ◌||◌,
  Option, none, some, List, [], ◌∷◌, ◌++◌, map, append-nil, append_assoc, arith, ltb, leb, ◌==◌,
  if◌then◌else◌, ltb→lt, lt→ltb, leb→le, ==_iff, tests, Bool-cases, Option-cases, length, get_elem?,
  get_elem?-lt, get_elem?_of_lt, get_elem?-none, set, length-append, length-set, get_elem?-set_self,
  get_elem?-set_ne, get_or, take, drop, replicate, take-set_end, take-set_ge, take-take, take_all,
  take-append_self, drop-append_self, drop-drop, take-append-drop, length-take, length-drop,
  length-replicate, length-map, Errno, enoent, eio, enoexec, ebadf, enomem, eexist, einval, enfile,
  emfile, espipe, erofs, emsgsize, edestaddrreq, ehostunreach, etimedout, efatfs, Ret, val, err,
}

-- `struct econet_addr`
pub record EconetAddr : Type 0 where
  pub port : ℕ
  pub net : ℕ
  pub station : ℕ

-- The driver's variables, the variables that it shares with the interrupt routines, and the
-- registers and buffers of the hardware that it reads or writes.
pub record Econet : Type 0 where
  pub rx_portmap : ℕ → ℕ
  pub tx_destmap : ℕ → EconetAddr
  pub address : ℕ
  pub last_monitor_frames : ℕ
  pub handshake_state : ℕ
  pub pending_port : ℕ
  pub buf_start : ℕ
  pub buf_len : ℕ
  pub tx_start : ℕ
  pub tx_end : ℕ
  pub tx_status : ℕ
  pub timeout_state : ℕ
  pub monitor_frames : ℕ
  pub port_list : ℕ → ℕ
  pub mon : ℕ
  pub clkterm : ℕ
  pub addr_set : ℕ
  pub tx_flags : ℕ
  pub tx_start_offset : ℕ
  pub tx_end_offset : ℕ
  pub rxbuf : List ℕ
  pub txbuf : List ℕ

abbrev pub econet_txbufsz : ℕ
econet_txbufsz = 2048

abbrev pub state_waitscout : ℕ
state_waitscout = 0

abbrev pub state_waitdata : ℕ
state_waitdata = 1

abbrev pub state_txscout : ℕ
state_txscout = 2

abbrev pub state_txdata : ℕ
state_txdata = 3

abbrev pub status_txdone : ℕ
status_txdone = 1

abbrev pub status_txneterr : ℕ
status_txneterr = 2

-- `a[i] = v`
abbrev pub update {ℓ} : {A : Type ℓ} → (ℕ → A) → ℕ → A → ℕ → A
update a i v j = if i == j then v else a j

abbrev pub no_addr : EconetAddr
no_addr = record { port = 0; net = 0; station = 0 }

unfoldable pub econet_init : Econet → Econet
econet_init s = record s { rx_portmap = λ _. 0; tx_destmap = λ _. no_addr; address = 0 }

-- The flag that the interrupt routine sets in a port's entry when a frame is ready.
abbrev pub is_ready : ℕ → Bool
is_ready entry = entry / 128 % 2 == 1

-- The bytes of the frame in the receive buffer that are still to be read.
abbrev pub pending : Econet → List ℕ
pending s = take s.buf_len (drop s.buf_start s.rxbuf)

-- What `econet_read` and `econet_monitor` do when they do not reach the end of the frame.
abbrev pub consume : ℕ → Econet → Econet
consume n s = record s { buf_len = s.buf_len - n; buf_start = s.buf_start + n }

-- `copy_sz`
abbrev pub copy_size : ℕ → Econet → ℕ
copy_size count s = if ltb count s.buf_len then count else s.buf_len

-- In monitor mode; the call waits until there is a frame that was not seen.
unfoldable pub econet_monitor : ℕ → Econet → Option (Ret × List ℕ × Econet)
econet_monitor count s =
    if s.monitor_frames == s.last_monitor_frames
    then none
    else let n = copy_size count s in
      some (
        val n,
        take n (drop s.buf_start s.rxbuf),
        if ltb n s.buf_len
            then consume n s
            else record s { last_monitor_frames = (s.last_monitor_frames + 1) % 2 ^ 32 },
      )

-- A copy of `n` bytes out of the frame that is ready at `port`.
abbrev pub econet_copy : ℕ → ℕ → ℕ → Econet → Ret × List ℕ × Econet
econet_copy fd port n s = (
  val n,
  take n (drop s.buf_start s.rxbuf),
  if ltb n s.buf_len
      then consume n s
      else record s { port_list = update s.port_list port (fd % 256) },
)

-- The call waits until a frame is ready at the port. The end of the frame gives the port back.
unfoldable pub econet_read : ℕ → ℕ → Econet → Option (Ret × List ℕ × Econet)
econet_read fd count s =
    let port = s.rx_portmap fd in
    if not (s.mon == 0)
    then econet_monitor count s
    else if port == 0
    then some (err einval, [], s)
    else if is_ready (s.port_list port)
    then some (econet_copy fd port (copy_size count s) s)
    else none

unfoldable pub econet_peek : ℕ → Econet → Ret
econet_peek fd s =
    if not (s.mon == 0)
    then val s.buf_len
    else let port = s.rx_portmap fd in
      if port == 0 then err einval else if is_ready (s.port_list port) then val s.buf_len else val 0

-- The four bytes of a word in memory.
abbrev pub word_bytes : ℕ → List ℕ
word_bytes w = w % 256 ∷ w / 2 ^ 8 % 256 ∷ w / 2 ^ 16 % 256 ∷ w / 2 ^ 24 % 256 ∷ []

-- `dest->station | dest->net << 8 | econet_address << 16`
abbrev pub addr_word : EconetAddr → ℕ → ℕ
addr_word dest address = bit_or (bit_or dest.station (dest.net * 2 ^ 8)) (address * 2 ^ 16)

-- A copy of `bytes` to offset `at` of a buffer; none if it runs past the end.
unfoldable pub store : List ℕ → ℕ → List ℕ → Option (List ℕ)
store buf at bytes =
    if leb (at + length bytes) (length buf)
    then some (take at buf ++ (bytes ++ drop (at + length bytes) buf))
    else none

-- What `econet_write` puts in the transmit buffer: the scout frame at 0 and the data frame at 8.
-- Bytes 6 and 7 keep what they were.
abbrev pub scout_frame : EconetAddr → ℕ → List ℕ
scout_frame dest address = word_bytes (addr_word dest address) ++ (0x80 ∷ dest.port ∷ [])

abbrev pub data_frame : EconetAddr → ℕ → List ℕ → List ℕ
data_frame dest address bytes = word_bytes (addr_word dest address) ++ bytes

abbrev pub starts_scout : ℕ → List ℕ → Econet → Econet
starts_scout count buf s = record s {
  txbuf = buf;
  tx_start = 8;
  tx_end = 11 + count;
  handshake_state = state_txscout;
  tx_start_offset = 0;
  tx_end_offset = 5;
}

-- From idle to the start of the scout frame; none where the frames do not fit the buffer.
unfoldable pub transmit : ℕ → List ℕ → Econet → Option Econet
transmit fd bytes s =
    let dest = s.tx_destmap fd in
    elim (store s.txbuf 0 (scout_frame dest s.address)) [
      | none ↦ none
      | some buf ↦ elim (store buf 8 (data_frame dest s.address bytes)) [
        | none ↦ none
        | some buf' ↦ some (starts_scout (length bytes) buf' s)
      ]
    ]

-- What the interrupt routines left tells how the transmission ended.
abbrev pub write_result : ℕ → Econet → Ret
write_result count s =
    if s.tx_status == status_txdone
    then val count
    else if s.timeout_state == state_txscout
    then err ehostunreach
    else err etimedout

-- `idle` is what happens until the receiver is idle, and `sent` what happens until the handshake is
-- over; none for a wait that has no end.
unfoldable pub econet_write :
    (Econet → Option Econet)
    → (Econet → Option Econet)
    → ℕ
    → List ℕ
    → Econet
    → Option (Ret × Econet)
econet_write idle sent fd bytes s =
    if ltb (econet_txbufsz - 8) (length bytes)
    then some (err emsgsize, s)
    else let reset = record s { tx_status = 0; timeout_state = 0; tx_flags = 0 } in
      if (s.tx_destmap fd).station == 0 then some (err edestaddrreq, reset) else elim (idle reset) [
        | none ↦ none
        | some s₁ ↦ elim (transmit fd bytes s₁) [
          | none ↦ none
          | some s₂ ↦ elim (sent s₂) [
            | none ↦ none
            | some s₃ ↦ some (write_result (length bytes) s₃, s₃)
          ]
        ]
      ]

unfoldable pub econet_close : ℕ → Econet → Ret × Econet
econet_close fd s =
    let port = s.rx_portmap fd in
    if port == 0 then (val 0, s) else (
      val 0,
      record s { port_list = update s.port_list port 0; rx_portmap = update s.rx_portmap fd 0 },
    )

unfoldable pub econet_set_rx_port : ℕ → ℕ → Econet → Ret × Econet
econet_set_rx_port fd port s = (
  val 0,
  record s {
    rx_portmap = update s.rx_portmap fd port;
    port_list = update s.port_list port (fd % 256);
  },
)

unfoldable pub econet_set_tx_addr : ℕ → EconetAddr → Econet → Ret × Econet
econet_set_tx_addr fd dest s = (val 0, record s { tx_destmap = update s.tx_destmap fd dest })

unfoldable pub econet_set_addr : ℕ → Econet → Ret × Econet
econet_set_addr netstation s = (val 0, record s { address = netstation; addr_set = netstation })

unfoldable pub econet_set_clkterm : ℕ → Econet → Ret × Econet
econet_set_clkterm flags s = (val 0, record s { clkterm = flags })
