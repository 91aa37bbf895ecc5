-- ===== src/Console.antt =====
-- system/console.c, built for the hardware FIFO (SOFTWARE_FIFO is not defined): the console on the
-- UART. `rx` holds the bytes that arrive, in order, and `tx` those that were sent. A read that
-- needs more bytes than arrive waits for ever: `none`.
pub mod Line
pub mod Read
mod Tests
use filestick.Base.{
  ℕ, zero, suc, ◌+◌, ◌-◌, ◌*◌, ◌/◌, ◌%◌, ◌^◌, ◌≤◌, ◌<◌, min, max, bit_and, bit_or, bit_xor, ◌≡◌,
  refl, sym, ap, ap₂, ◌∙◌, fun_ext, ◌≢◌, ◌↔◌, ◌⊎◌, inl, inr, Bool, true, false, not, ◌&&◌, ◌||◌,
  Option, none, some, List, [], ◌∷◌, ◌++◌, map, append-nil, append_assoc, arith, ltb, leb, ◌==◌,
  if◌then◌else◌, ltb→lt, lt→ltb, leb→le, ==_iff, tests, Bool-cases, Option-cases, length, get_elem?,
  get_elem?-lt, get_elem?_of_lt, get_elem?-none, set, length-append, length-set, get_elem?-set_self,
  get_elem?-set_ne, get_or, take, drop, replicate, take-set_end, take-set_ge, take-take, take_all,
  take-append_self, drop-append_self, drop-drop, take-append-drop, length-take, length-drop,
  length-replicate, length-map, Errno, enoent, eio, enoexec, ebadf, enomem, eexist, einval, enfile,
  emfile, espipe, erofs, emsgsize, edestaddrreq, ehostunreach, etimedout, efatfs, Ret, val, err,
}
use filestick.Fd.{FdFunction}
use filestick.Fd.Open.{Opened, opened}

pub record Console : Type 0 where
  pub cons_control : ℕ
  pub rx : List ℕ
  pub tx : List ℕ

-- include/sys/console.h
abbrev pub console_raw : ℕ
console_raw = 1

abbrev pub set_control : ℕ
set_control = 0x01000000

abbrev pub set_raw : ℕ
set_raw = 0x02000000

abbrev pub set_interactive : ℕ
set_interactive = 0x03000000

-- `request & 0xFF000000` and `request & 0xFFFF` of a 32-bit request.
abbrev pub request_id : ℕ → ℕ
request_id request = request / 2 ^ 24 % 2 ^ 8 * 2 ^ 24

-- `serial_putc` and `raw_putc` send one byte (they differ in how they wait for the UART).
abbrev pub putc : ℕ → Console → Console
putc b c = record c { tx = c.tx ++ (b ∷ []) }

-- The loop of `console_read_raw`: `count` bytes, as they come.
unfoldable pub read_raw_loop : ℕ → List ℕ → List ℕ → Option (List ℕ × List ℕ)
read_raw_loop zero buf rx = some (buf, rx)
read_raw_loop (suc count) buf [] = none
read_raw_loop (suc count) buf (b ∷ rx) = read_raw_loop count (buf ++ (b ∷ [])) rx

abbrev pub raw_result : Console → Option (List ℕ × List ℕ) → Option (Ret × List ℕ × Console)
raw_result c none = none
raw_result c (some (buf, rx)) = some (val (length buf), buf, record c { rx = rx })

unfoldable pub console_read_raw : ℕ → Console → Option (Ret × List ℕ × Console)
console_read_raw count c = raw_result c (read_raw_loop count [] c.rx)

-- What `console_read_interactive` keeps: the caller's buffer, `bufptr - buf`, the count that is
-- left and the bytes read.
pub record LineBuf : Type 0 where
  pub buf : List ℕ
  pub ptr : ℕ
  pub count : ℕ
  pub bytes_read : ℕ

-- What one byte leads to: the end of the line, the next line buffer with the echo, or a write past
-- the end of the caller's buffer.
pub data Echoed : Type 0 where
  enter : Echoed
  fault : Echoed
  more : List ℕ → LineBuf → Echoed

-- A line buffer after a write to the caller's buffer at `at`.
abbrev pub written : ℕ → LineBuf → List ℕ → LineBuf → Echoed
written at l echo l' = if ltb at (length l.buf) then more echo l' else fault

-- The body of the loop: carriage return, backspace or delete, and any other byte.
unfoldable pub key : ℕ → LineBuf → Echoed
key b l =
    if b == 0x0d
    then enter
    else if b == 127 || b == 8
    then if ltb 0 l.ptr
      then written (l.ptr - 1) l (8 ∷ 32 ∷ 8 ∷ []) (record l {
        ptr = l.ptr - 1;
        buf = set l.buf (l.ptr - 1) 0;
        bytes_read = l.bytes_read - 1;
        count = l.count + 1;
      })
      else more (7 ∷ []) l
    else written l.ptr l (b ∷ []) (record l {
      count = l.count - 1;
      bytes_read = l.bytes_read + 1;
      buf = set l.buf l.ptr b;
      ptr = l.ptr + 1;
    })

-- The loop. It stops when no count is left, and at a carriage return, which is answered by a
-- newline. It is run on the bytes that arrive; none if they do not end it, or a write is a fault.
unfoldable pub read_loop : LineBuf → List ℕ → List ℕ → Option (LineBuf × List ℕ × List ℕ)
read_loop l [] tx = if l.count == 0 then some (l, [], tx) else none
read_loop l (b ∷ rx) tx = if l.count == 0 then some (l, b ∷ rx, tx) else elim (key b l) [
  | enter ↦ some (l, rx, tx ++ (0x0a ∷ 0x0d ∷ []))
  | fault ↦ none
  | more echo l' ↦ read_loop l' rx (tx ++ echo)
]

-- `buf` is the caller's buffer as it was, of at least `count` bytes.
abbrev pub line_result :
    Console → Option (LineBuf × List ℕ × List ℕ) → Option (Ret × List ℕ × Console)
line_result c none = none
line_result c (some (l, rx, tx)) = some (val l.bytes_read, l.buf, record c { rx = rx; tx = tx })

unfoldable pub console_read_interactive : ℕ → List ℕ → Console → Option (Ret × List ℕ × Console)
console_read_interactive count buf c =
    line_result c
      (read_loop (record { buf = buf; ptr = 0; count = count; bytes_read = 0 }) c.rx c.tx)

-- `cons_control & CONSOLE_RAW`
abbrev pub is_raw : Console → Bool
is_raw c = c.cons_control % 2 == 1

unfoldable pub console_read : ℕ → List ℕ → Console → Option (Ret × List ℕ × Console)
console_read count buf c =
    if is_raw c then console_read_raw count c else console_read_interactive count buf c

-- One byte after the other is sent, in either mode.
unfoldable pub write_loop : List ℕ → Console → Console
write_loop [] c = c
write_loop (b ∷ buf) c = write_loop buf (putc b c)

unfoldable pub console_write : List ℕ → Console → Ret × Console
console_write buf c = (val (length buf), write_loop buf c)

-- The FIFO's fill is in the upper half of the status register.
unfoldable pub console_peek : ℕ → Ret
console_peek uart_state = val (uart_state / 2 ^ 16)

unfoldable pub console_ioctl : ℕ → Console → Ret × Console
console_ioctl request c =
    let id = request_id request in
    if id == set_control
    then (val 0, record c { cons_control = request % 2 ^ 16 })
    else if id == set_raw
    then (val 0, record c { cons_control = bit_or c.cons_control console_raw })
    else if id == set_interactive
    then (val 0, record c { cons_control = bit_and c.cons_control 0xFFFE })
    else (err einval, c)
