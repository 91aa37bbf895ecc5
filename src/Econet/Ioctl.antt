-- ===== src/Econet/Ioctl.antt =====
-- `econet_ioctl`: what its requests set and what they report.
use filestick.Base.{
  ℕ, ◌+◌, ◌/◌, ◌%◌, ◌^◌, ◌<◌, ◌≡◌, ◌≢◌, Option, none, some, List, [], ◌∷◌, ◌++◌, arith, ◌==◌,
  if◌then◌else◌, length, drop, einval, Ret, val, err,
}
use filestick.Econet.{
  Econet, word_bytes, econet_set_addr, econet_set_clkterm, econet_set_tx_addr, econet_set_rx_port,
  update,
}

-- `struct econet_state` as it lies in memory.
abbrev pub state_bytes : Econet → List ℕ
state_bytes s =
    word_bytes s.handshake_state
    ++ (word_bytes s.pending_port
        ++ (word_bytes s.buf_start
            ++ (word_bytes s.buf_len
                ++ (word_bytes s.tx_start
                    ++ (word_bytes s.tx_end
                        ++ (word_bytes s.tx_status ++ word_bytes s.timeout_state))))))

-- The requests of include/sys/econet.h, by the top byte of the request.
pub data Request : Type 0 where
  set_addr set_recv_port set_send_addr set_monitor set_clkterm : Request
  get_addr get_clkterm dbg_buf bad_request : Request

abbrev pub request_of : ℕ → Request
request_of request =
    let id = request / 2 ^ 24 % 2 ^ 8 in
    if id == 0x01
    then set_addr
    else if id == 0x02
    then set_recv_port
    else if id == 0x03
    then set_send_addr
    else if id == 0x04
    then set_monitor
    else if id == 0x05
    then set_clkterm
    else if id == 0x81
    then get_addr
    else if id == 0x85
    then get_clkterm
    else if id == 0xF0
    then dbg_buf
    else bad_request

-- The bytes that `ptr` points to, with the first ones replaced.
abbrev pub put : List ℕ → List ℕ → List ℕ
put bytes ptr = bytes ++ drop (length bytes) ptr

abbrev pub same_ptr : List ℕ → Ret × Econet → Option (Ret × List ℕ × Econet)
same_ptr ptr (r, s) = some (r, ptr, s)

-- The `switch` of `econet_ioctl`. A destination is read from the three bytes at `ptr`.
unfoldable pub ioctl_request : Request → ℕ → ℕ → List ℕ → Econet → Option (Ret × List ℕ × Econet)
ioctl_request set_addr fd request ptr s = same_ptr ptr (econet_set_addr (request % 2 ^ 16) s)
ioctl_request set_recv_port fd request ptr s =
    same_ptr ptr (econet_set_rx_port fd (request % 2 ^ 8) s)
ioctl_request set_send_addr fd request (port ∷ net ∷ station ∷ ptr) s =
    same_ptr (port ∷ net ∷ station ∷ ptr)
      (econet_set_tx_addr fd (record { port = port; net = net; station = station }) s)
ioctl_request set_send_addr fd request _ s = none
ioctl_request set_monitor fd request ptr s =
    same_ptr ptr
      (val 0, record s { monitor_frames = 0; last_monitor_frames = 0; mon = request % 2 ^ 8 })
ioctl_request set_clkterm fd request ptr s = same_ptr ptr (econet_set_clkterm (request % 2 ^ 16) s)
ioctl_request get_addr fd request ptr s = some (val 0, put (s.address % 2 ^ 8 ∷ []) ptr, s)
ioctl_request get_clkterm fd request ptr s =
    some (val 0, put (s.clkterm % 2 ^ 8 ∷ s.clkterm / 2 ^ 8 % 2 ^ 8 ∷ []) ptr, s)
ioctl_request dbg_buf fd request ptr s = some (val 0, put (state_bytes s) ptr, s)
ioctl_request bad_request fd request ptr s = some (err einval, ptr, s)

unfoldable pub econet_ioctl : ℕ → ℕ → List ℕ → Econet → Option (Ret × List ℕ × Econet)
econet_ioctl fd request ptr s = ioctl_request (request_of request) fd request ptr s

-- The requests with their argument in the low bits.
abbrev pub set_addr_request : ℕ → ℕ
set_addr_request a = 0x01000000 + a

abbrev pub set_send_addr_request : ℕ
set_send_addr_request = 0x03000000

abbrev pub set_clkterm_request : ℕ → ℕ
set_clkterm_request f = 0x05000000 + f

abbrev pub get_addr_request : ℕ
get_addr_request = 0x81000000

abbrev pub get_clkterm_request : ℕ
get_clkterm_request = 0x85000000

-- ECONET_GET_CLKTERM gives back both bytes of what ECONET_SET_CLKTERM set, but ECONET_GET_ADDR only
-- the low byte of the address: the bytes after it in the caller's memory stay as they were.
pub econet_ioctl-get :
    (fd a f x y : ℕ) (ptr : List ℕ) (s : Econet)
    → a < 65536
    → f < 65536
    → (s₁ : Econet) × (s₂ : Econet) × (econet_ioctl fd (set_addr_request a) (x ∷ y ∷ ptr) s
        ≡ some (val 0, x ∷ y ∷ ptr, s₁))
      × (econet_ioctl fd (set_clkterm_request f) (x ∷ y ∷ ptr) s₁ ≡ some (val 0, x ∷ y ∷ ptr, s₂))
      × (econet_ioctl fd get_addr_request (x ∷ y ∷ ptr) s₂ ≡ some (val 0, a % 256 ∷ y ∷ ptr, s₂))
      × (econet_ioctl fd get_clkterm_request (x ∷ y ∷ ptr) s₂
          ≡ some (val 0, f % 256 ∷ f / 256 ∷ ptr, s₂))
unfolding econet_ioctl ioctl_request econet_set_addr econet_set_clkterm
econet_ioctl-get fd a f x y ptr s ha hf = (
  record s { address = a; addr_set = a },
  record s { address = a; addr_set = a; clkterm = f },
  ground arith,
  ground arith,
  ground arith,
  ground arith,
)

-- After ECONET_SET_SEND_ADDR a frame of `fd` is sent to the station that the request named, and
-- those of other descriptors go where they went.
pub econet_ioctl-tx_destmap :
    (fd other port net station : ℕ) (ptr : List ℕ) (s : Econet)
    → other ≢ fd
    → (s' : Econet) × (econet_ioctl fd set_send_addr_request (port ∷ net ∷ station ∷ ptr) s
        ≡ some (val 0, port ∷ net ∷ station ∷ ptr, s'))
      × (s'.tx_destmap fd ≡ record { port = port; net = net; station = station })
      × (s'.tx_destmap other ≡ s.tx_destmap other)
unfolding econet_ioctl ioctl_request econet_set_tx_addr
econet_ioctl-tx_destmap fd other port net station ptr s ne = (
  record s {
    tx_destmap = update s.tx_destmap fd (record { port = port; net = net; station = station });
  },
  ground arith,
  ground arith,
  ground arith,
)
