-- ===== src/Console/Read.antt =====
-- Raw reads, writes and the mode bits of the console.
use filestick.Base.{
  ℕ, zero, suc, ◌+◌, ◌%◌, ◌^◌, ◌≤◌, ◌<◌, bit_and, bit_or, ◌≡◌, refl, none, some, List, [], ◌∷◌,
  ◌++◌, append-nil, append_assoc, arith, length, take, drop, length-take, val,
}
use filestick.Base.Bits.{bit_or_step, bit_and_step}
use filestick.Console.{
  Console, console_raw, set_raw, set_interactive, read_raw_loop, console_read_raw,
  console_read_interactive, console_read, write_loop, console_write, console_ioctl, putc,
}

read_raw_loop_enough :
    (count : ℕ) (buf rx : List ℕ)
    → count ≤ length rx
    → read_raw_loop count buf rx ≡ some (buf ++ take count rx, drop count rx)
unfolding read_raw_loop
read_raw_loop_enough zero buf rx h = rw append-nil
read_raw_loop_enough (suc count) buf [] h = absurd (omega arith)
read_raw_loop_enough (suc count) buf (b ∷ rx) h =
    rw (read_raw_loop_enough count (buf ++ (b ∷ [])) rx (omega arith), append_assoc)

read_raw_loop_short :
    (count : ℕ) (buf rx : List ℕ) → length rx < count → read_raw_loop count buf rx ≡ none
unfolding read_raw_loop
read_raw_loop_short zero buf rx h = absurd (omega arith)
read_raw_loop_short (suc count) buf [] h = refl
read_raw_loop_short (suc count) buf (b ∷ rx) h =
    read_raw_loop_short count (buf ++ (b ∷ [])) rx (omega arith)

-- A raw read returns exactly when `count` bytes arrive; it then returns the first `count` of them
-- and `count`, and leaves the rest.
pub console_read_raw_lem :
    (count : ℕ) (c : Console)
    → (count ≤ length c.rx
        → console_read_raw count c
          ≡ some (val count, take count c.rx, record c { rx = drop count c.rx }))
      × (length c.rx < count → console_read_raw count c ≡ none)
unfolding console_read_raw
console_read_raw_lem count c = (enough, λ h. rw (read_raw_loop_short count [] c.rx h))
  where
    enough :
        count ≤ length c.rx
        → console_read_raw count c
          ≡ some (val count, take count c.rx, record c { rx = drop count c.rx })
    enough h =
        let n : length (take count c.rx) ≡ count = omega (arith, length-take count c.rx) in
        rw (read_raw_loop_enough count [] c.rx h, n)

write_loop-tx : (buf : List ℕ) (c : Console) → write_loop buf c ≡ record c { tx = c.tx ++ buf }
unfolding write_loop
write_loop-tx [] c = rw append-nil
write_loop-tx (b ∷ buf) c = rw (write_loop-tx buf (putc b c), append_assoc)

-- A write sends every byte of the buffer, in order, and reports them all as written.
pub console_write_lem :
    (buf : List ℕ) (c : Console)
    → console_write buf c ≡ (val (length buf), record c { tx = c.tx ++ buf })
unfolding console_write
console_write_lem buf c = rw (write_loop-tx buf c)

is_raw-or : (c : Console) → (bit_or c.cons_control console_raw) % 2 ≡ 1
is_raw-or c = omega (arith, bit_or_step c.cons_control 1)

is_raw-and : (c : Console) → (bit_and c.cons_control 0xFFFE) % 2 ≡ 0
is_raw-and c = omega (arith, bit_and_step c.cons_control 0xFFFE)

-- After CONSOLE_SET_RAW a read is a raw one, and after CONSOLE_SET_INTERACTIVE an interactive one,
-- whatever the control word was; other bytes of the request do not matter.
pub console_ioctl-read :
    (count : ℕ) (buf : List ℕ) (c : Console) (request : ℕ)
    → let raw = (console_ioctl (set_raw + request % 2 ^ 24) c).1 in
      let line = (console_ioctl (set_interactive + request % 2 ^ 24) c).1 in
      (console_read count buf raw ≡ console_read_raw count raw)
      × (console_read count buf line ≡ console_read_interactive count buf line)
unfolding console_ioctl console_read
console_ioctl-read count buf c request = (ground (arith, is_raw-or c), ground (arith, is_raw-and c))
