-- ===== src/Init/Configure.antt =====
-- `configure` of init/configure.c: the station number, the clock and the terminator of the network.
-- The device stands behind `EconetCalls`; what is printed goes to `print`.
use filestick.Base.{
  ℕ, ◌+◌, ◌-◌, ◌*◌, ◌/◌, ◌%◌, bit_and, bit_or, bit_xor, Bool, false, not, ◌&&◌, Option, none, some,
  List, [], ◌∷◌, ltb, ◌==◌, if◌then◌else◌, get_elem?, get_or, Ret, val, err,
}
use filestick.Base.Int.{ℤ, pos, negsuc}
use filestick.Base.Text.{codes, str_eq}
use filestick.Libc.Numbers.{atoi}
use filestick.Econet.Ioctl.{get_addr_request, get_clkterm_request}
use filestick.Econet.Client.{EconetCalls, request_with}

-- What is printed.
pub data Message : Type 0 where
  usage : Message
  no_such_item : Message
  perror : List ℕ → Message
  not_configured : Message
  station_is : ℕ → Message
  invalid_station : Message
  clock_is : ℕ → Bool → Message
  invalid_divider : Message
  termination_is : Bool → Message

abbrev pub clock_enable : ℕ
clock_enable = 1

abbrev pub term_enable : ℕ
term_enable = 2

-- `(uint8_t)atoi(s)`
abbrev pub byte_of : ℤ → ℕ
byte_of (pos n) = n % 256
byte_of (negsuc n) = 255 - n % 256

-- `div > 0 && div < 8`, with the divider.
abbrev pub divider : ℤ → Option ℕ
divider (pos n) = if ltb 0 n && ltb n 8 then some n else none
divider (negsuc n) = none

abbrev pub is_arg : List (List ℕ) → ℕ → List ℕ → Bool
is_arg argv i name = elim (get_elem? argv i) [ none ↦ false | some a ↦ str_eq a name ]

-- The clock's bit by the second argument, and then the divider by the first.
abbrev pub clock_bit : List (List ℕ) → ℕ → ℕ
clock_bit argv clkterm =
    if is_arg argv 2 (codes "enable")
    then bit_or clkterm clock_enable
    else bit_and clkterm (bit_xor 0xFFFF clock_enable)

module _ {S : Type 0} (calls : EconetCalls S) (print : Message → S → S) where
  -- `goto cleanup`
  abbrev cleanup : ℕ → S → Option S
  cleanup fd s = some (calls.close fd s)

  -- The end of a request that sets something: the message if it fails, and the close.
  abbrev pub finish : ℕ → List ℕ → Option (Ret × List ℕ × S) → Option S
  finish fd text none = none
  finish fd text (some (val _, _, s)) = cleanup fd s
  finish fd text (some (err _, _, s)) = cleanup fd (print (perror text) s)

  abbrev pub report_station : ℕ → Option (Ret × List ℕ × S) → Option S
  report_station fd none = none
  report_station fd (some (err _, _, s)) = cleanup fd (print (perror (codes "econet: ioctl")) s)
  report_station fd (some (val _, ptr, s)) =
      let station = get_or ptr 0 0 in
      cleanup fd (print (if station == 0 then not_configured else station_is station) s)

  unfoldable pub station_opened : List (List ℕ) → ℕ → S → Option S
  station_opened (name ∷ []) fd s = report_station fd (calls.ioctl fd get_addr_request (0 ∷ []) s)
  station_opened (name ∷ arg ∷ argv) fd s =
      let station = byte_of (atoi arg) in
      if station == 0
      then cleanup fd (print invalid_station s)
      else finish fd (codes "econet: set_addr: ioctl")
          (calls.ioctl fd (request_with 0x01000000 station) [] s)
  station_opened [] fd s = none

  -- A device that is opened, or the message.
  abbrev with_econet : (ℕ → S → Option S) → S → Option S
  with_econet use_it s =
      let (rc, s') = calls.open_econet s in
      elim rc [ val fd ↦ use_it fd s' | err _ ↦ some (print (perror (codes "econet: open")) s') ]

  unfoldable pub cfg_station : List (List ℕ) → S → Option S
  cfg_station argv s = with_econet (station_opened argv) s

  -- `get_clkterm`, with the two bytes that the variable held.
  abbrev pub clkterm_of : Option (Ret × List ℕ × S) → Option (ℕ × S)
  clkterm_of none = none
  clkterm_of (some (err _, _, s)) = some (0xFFFF, print (perror (codes "econet: ioctl")) s)
  clkterm_of (some (val _, ptr, s)) = some (get_or ptr 0 0 + get_or ptr 1 0 * 256, s)

  unfoldable pub get_clkterm : ℕ → S → Option (ℕ × S)
  get_clkterm fd s = clkterm_of (calls.ioctl fd get_clkterm_request (0 ∷ 0 ∷ []) s)

  unfoldable pub set_clock : List (List ℕ) → List ℕ → ℕ → ℕ → S → Option S
  set_clock argv arg fd clkterm s = elim (divider (atoi arg)) [
    | none ↦ cleanup fd (print invalid_divider s)
    | some div ↦
        let flags = bit_or (bit_and (clock_bit argv clkterm) 0xFF) (div * 256) in
        finish fd (codes "econet: setting clock: ioctl")
          (calls.ioctl fd (request_with 0x05000000 flags) [] s)
  ]

  abbrev pub netclock_with : List (List ℕ) → ℕ → ℕ → S → Option S
  netclock_with argv fd clkterm s =
      if clkterm == 0xFFFF then cleanup fd s else elim (get_elem? argv 1) [
        | none ↦
            cleanup fd
              (print (clock_is (clkterm / 256) (not (bit_and clkterm clock_enable == 0))) s)
        | some arg ↦ set_clock argv arg fd clkterm s
      ]

  abbrev pub netclock_read : List (List ℕ) → ℕ → Option (ℕ × S) → Option S
  netclock_read argv fd none = none
  netclock_read argv fd (some (clkterm, s)) = netclock_with argv fd clkterm s

  unfoldable pub netclock_opened : List (List ℕ) → ℕ → S → Option S
  netclock_opened argv fd s = netclock_read argv fd (get_clkterm fd s)

  unfoldable pub cfg_netclock : List (List ℕ) → S → Option S
  cfg_netclock argv s = with_econet (netclock_opened argv) s

  abbrev pub netterminate_with : List (List ℕ) → ℕ → ℕ → S → Option S
  netterminate_with argv fd clkterm s =
      if clkterm == 0xFFFF then cleanup fd s else elim (get_elem? argv 1) [
        | none ↦ cleanup fd (print (termination_is (not (bit_and clkterm term_enable == 0))) s)
        | some arg ↦
            let flags =
              if str_eq arg (codes "on")
              then bit_or clkterm term_enable
              else bit_and clkterm (bit_xor 0xFFFF term_enable) in
            finish fd (codes "econet: setting termination: ioctl")
              (calls.ioctl fd (request_with 0x05000000 flags) [] s)
      ]

  abbrev pub netterminate_read : List (List ℕ) → ℕ → Option (ℕ × S) → Option S
  netterminate_read argv fd none = none
  netterminate_read argv fd (some (clkterm, s)) = netterminate_with argv fd clkterm s

  unfoldable pub netterminate_opened : List (List ℕ) → ℕ → S → Option S
  netterminate_opened argv fd s = netterminate_read argv fd (get_clkterm fd s)

  unfoldable pub cfg_netterminate : List (List ℕ) → S → Option S
  cfg_netterminate argv s = with_econet (netterminate_opened argv) s

  -- `i_configure`: the arguments after its own name.
  unfoldable pub i_configure : List (List ℕ) → S → Option S
  i_configure [] s = some (print usage s)
  i_configure (item ∷ argv) s =
      if str_eq (codes "netstation") item
      then cfg_station (item ∷ argv) s
      else if str_eq (codes "netclock") item
      then cfg_netclock (item ∷ argv) s
      else if str_eq (codes "netterminate") item
      then cfg_netterminate (item ∷ argv) s
      else some (print no_such_item s)
