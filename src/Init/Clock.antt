-- ===== src/Init/Clock.antt =====
-- `configure netclock` and `configure netterminate` on the Econet driver.
use filestick.Base.{
  ℕ, ◌+◌, ◌*◌, ◌/◌, ◌%◌, ◌^◌, ◌<◌, bit_and, bit_or, ◌≡◌, refl, ap, ◌∙◌, inl, inr, true, false, some,
  List, [], ◌∷◌, ◌++◌, arith, ◌==◌, if◌then◌else◌, Bool-cases,
}
use filestick.Base.Bits.{bit_or_step, bit_and_step, bit_or-zero, bit_and-mask}
use filestick.Base.Text.{codes, str_eq}
use filestick.Econet.{Econet, econet_close}
use filestick.Econet.Ioctl.{econet_ioctl, ioctl_request}
use filestick.Econet.Client.{
  EconetCalls, request_with, driver_ioctl, driver_calls, econet_ioctl-request_clkterm,
}
use filestick.Init.Configure.{
  Message, finish, get_clkterm, netterminate_read, netterminate_opened, cfg_netterminate,
}

-- The driver and what was printed.
pub record Session : Type 0 where
  pub econet : Econet
  pub printed : List Message

abbrev pub print_to : Message → Session → Session
print_to m s = record s { printed = s.printed ++ m ∷ [] }

abbrev pub session_calls : ℕ → EconetCalls Session
session_calls fd = driver_calls (λ s. s.econet) (λ e s. record s { econet = e }) fd

-- The state after ECONET_SET_CLKTERM.
abbrev pub with_clkterm : ℕ → Session → Session
with_clkterm t s = record s { econet = record s.econet { clkterm = t } }

get_clkterm-driver :
    (fd : ℕ) (s : Session)
    → s.econet.clkterm < 65536
    → get_clkterm (session_calls fd) print_to fd s ≡ some (s.econet.clkterm, s)
unfolding get_clkterm driver_ioctl econet_ioctl ioctl_request
get_clkterm-driver fd s h =
    let e : s.econet.clkterm % 2 ^ 8 + s.econet.clkterm / 2 ^ 8 % 2 ^ 8 * 256 ≡ s.econet.clkterm =
      omega arith in
    ap (λ t. some (t, s)) e

set_clkterm-driver :
    (fd flags : ℕ) (text : List ℕ) (s : Session)
    → flags < 65536
    → s.econet.rx_portmap fd ≡ 0
    → finish (session_calls fd) print_to fd text (
        driver_ioctl
          (λ s. s.econet)
          (λ e s. record s { econet = e })
          fd
          (request_with 0x05000000 flags)
          []
          s)
      ≡ some (with_clkterm flags s)
unfolding driver_ioctl econet_close
set_clkterm-driver fd flags text s h free =
    let unbound : (s.econet.rx_portmap fd == 0) ≡ true = ground arith in
    rw (econet_ioctl-request_clkterm fd flags [] s.econet h, econet_close, unbound) refl

bit_or-clock : (t : ℕ) → bit_or t 1 ≡ t / 2 * 2 + 1
bit_or-clock t = omega (arith, bit_or_step t 1, bit_or-zero (t / 2))

bit_or-term : (t : ℕ) → bit_or t 2 ≡ t / 4 * 4 + 2 + t % 2
bit_or-term t = omega (arith, bit_or_step t 2, bit_or-clock (t / 2))

bit_and-term : (t : ℕ) → t < 65536 → bit_and t 0xFFFD ≡ t / 4 * 4 + t % 2
bit_and-term t h =
    omega (arith, bit_and_step t 0xFFFD, bit_and_step (t / 2) 0x7FFE, bit_and-mask 14 (t / 2 / 2))

-- `configure netterminate` sets the terminator's bit by whether the word is "on", and keeps the
-- clock's bit, the divider and all other flags; nothing else of the driver changes and nothing is
-- printed. The flags before are of 16 bits and not all set, and the descriptor is bound to no port.
pub cfg_netterminate-clkterm :
    (fd : ℕ) (name arg : List ℕ) (argv : List (List ℕ)) (s : Session)
    → s.econet.clkterm < 65535
    → s.econet.rx_portmap fd ≡ 0
    → let t = s.econet.clkterm in
      cfg_netterminate (session_calls fd) print_to (name ∷ arg ∷ argv) s
      ≡ some (with_clkterm (t / 4 * 4 + (if str_eq arg (codes "on") then 2 else 0) + t % 2) s)
unfolding cfg_netterminate netterminate_opened
cfg_netterminate-clkterm fd name arg argv s h free =
    let t = s.econet.clkterm in
    let read = get_clkterm-driver fd s (omega arith) in
    let present : (t == 0xFFFF) ≡ false = ground arith in
    let text = codes "econet: setting termination: ioctl" in
    ap (netterminate_read (session_calls fd) print_to (name ∷ arg ∷ argv) fd) read
    ∙ elim (Bool-cases (str_eq arg (codes "on"))) [
      | inl e ↦ rw (present, e, bit_or-term t) (set_clkterm-driver fd _ text s (omega arith) free)
      | inr e ↦
          let z : t / 4 * 4 + 0 + t % 2 ≡ t / 4 * 4 + t % 2 = omega arith in
          rw (present, e, bit_and-term t (omega arith), z)
            (set_clkterm-driver fd _ text s (omega arith) free)
    ]
