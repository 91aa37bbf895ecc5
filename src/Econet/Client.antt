-- ===== src/Econet/Client.antt =====
-- The Econet device as a program sees it: the calls on its descriptor, and the driver as one
-- implementation of them.
use filestick.Base.{
  ℕ, ◌+◌, ◌/◌, ◌%◌, ◌^◌, ◌<◌, bit_or, ◌≡◌, refl, Option, none, some, List, [], ◌∷◌, arith, Ret, val,
}
use filestick.Econet.{
  Econet, EconetAddr, update, econet_set_tx_addr, econet_close, econet_read, econet_write,
  econet_set_addr, econet_set_clkterm, econet_set_rx_port,
}
use filestick.Base.Bits.{bit_or_disjoint}
use filestick.Econet.Ioctl.{econet_ioctl, ioctl_request}

-- `ioctl` is called with what its pointer points to, and leaves it changed. `none` is a fault.
pub record EconetCalls (S : Type 0) : Type 0 where
  pub open_econet : S → Ret × S
  pub ioctl : ℕ → ℕ → List ℕ → S → Option (Ret × List ℕ × S)
  pub close : ℕ → S → S

-- ECONET_SET_ADDR and the other requests that carry their argument.
abbrev pub request_with : ℕ → ℕ → ℕ
request_with request arg = bit_or arg request

-- The driver behind a descriptor that is open, in a state that holds more than the driver's.
module _ {S : Type 0} (get : S → Econet) (put : Econet → S → S) where
  abbrev in_state : S → Option (Ret × List ℕ × Econet) → Option (Ret × List ℕ × S)
  in_state s none = none
  in_state s (some (r, ptr, e)) = some (r, ptr, put e s)

  unfoldable pub driver_ioctl : ℕ → ℕ → List ℕ → S → Option (Ret × List ℕ × S)
  driver_ioctl fd request ptr s = in_state s (econet_ioctl fd request ptr (get s))

  abbrev pub driver_calls : ℕ → EconetCalls S
  driver_calls fd = record {
    open_econet = λ s. (val fd, s);
    ioctl = driver_ioctl;
    close = λ n s. put (econet_close n (get s)).1 s;
  }

-- The device with the calls that receive and send.
pub record EconetStream (S : Type 0) : Type 0 where
  pub calls : EconetCalls S
  pub read : ℕ → ℕ → S → Option (Ret × List ℕ × S)
  pub write : ℕ → List ℕ → S → Option (Ret × S)

-- The driver itself. `idle` and `sent` are what happens while a call of `econet_write` waits.
abbrev pub driver_stream :
    (Econet → Option Econet) → (Econet → Option Econet) → ℕ → EconetStream Econet
driver_stream idle sent fd = record {
  calls = driver_calls (λ e. e) (λ e _. e) fd;
  read = econet_read;
  write = econet_write idle sent;
}

-- Requests that carry their argument reach the driver's function with it.
pub econet_ioctl-request_addr :
    (fd a : ℕ) (ptr : List ℕ) (e : Econet)
    → a < 65536
    → econet_ioctl fd (request_with 0x01000000 a) ptr e
      ≡ some (val 0, ptr, record e { address = a; addr_set = a })
unfolding econet_ioctl ioctl_request econet_set_addr
econet_ioctl-request_addr fd a ptr e h =
    let r : bit_or a 0x01000000 ≡ a + 0x01000000 = bit_or_disjoint 24 a 1 (omega arith) in
    let id : (a + 0x01000000) / 2 ^ 24 % 2 ^ 8 ≡ 1 = omega arith in
    let arg : (a + 0x01000000) % 2 ^ 16 ≡ a = omega arith in rw (r, id, arg) refl

pub econet_ioctl-request_clkterm :
    (fd flags : ℕ) (ptr : List ℕ) (e : Econet)
    → flags < 65536
    → econet_ioctl fd (request_with 0x05000000 flags) ptr e
      ≡ some (val 0, ptr, record e { clkterm = flags })
unfolding econet_ioctl ioctl_request econet_set_clkterm
econet_ioctl-request_clkterm fd flags ptr e h =
    let r : bit_or flags 0x05000000 ≡ flags + 0x05000000 =
      bit_or_disjoint 24 flags 5 (omega arith) in
    let id : (flags + 0x05000000) / 2 ^ 24 % 2 ^ 8 ≡ 5 = omega arith in
    let arg : (flags + 0x05000000) % 2 ^ 16 ≡ flags = omega arith in rw (r, id, arg) refl

pub econet_ioctl-request_port :
    (fd port : ℕ) (ptr : List ℕ) (e : Econet)
    → port < 256
    → econet_ioctl fd (request_with 0x02000000 port) ptr e
      ≡ (let (r, e') = econet_set_rx_port fd port e in some (r, ptr, e'))
unfolding econet_ioctl ioctl_request
econet_ioctl-request_port fd port ptr e h =
    let r : bit_or port 0x02000000 ≡ port + 0x02000000 = bit_or_disjoint 24 port 2 (omega arith) in
    let id : (port + 0x02000000) / 2 ^ 24 % 2 ^ 8 ≡ 2 = omega arith in
    let arg : (port + 0x02000000) % 2 ^ 8 ≡ port = omega arith in rw (r, id, arg) refl

pub econet_ioctl-send_addr :
    (fd port net station : ℕ) (e : Econet)
    → let ptr = port ∷ net ∷ station ∷ [] in
      let dest : EconetAddr = record { port = port; net = net; station = station } in
      econet_ioctl fd 0x03000000 ptr e
      ≡ some (val 0, ptr, record e { tx_destmap = update e.tx_destmap fd dest })
unfolding econet_ioctl ioctl_request econet_set_tx_addr
econet_ioctl-send_addr fd port net station e = refl
