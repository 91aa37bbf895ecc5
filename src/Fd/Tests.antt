-- ===== src/Fd/Tests.antt =====
-- Tests of the descriptor table: two devices, a console that cannot be closed and a counter that
-- can, and the theorems at a table with both open.
use filestick.Base.{
  ℕ, ◌+◌, ◌≤◌, ◌<◌, ◌≡◌, refl, ap, ◌≢◌, Option, none, some, List, [], ◌∷◌, arith, get_elem?,
  replicate, Ret, val,
}
use filestick.Base.Int.{pos}
use filestick.Base.Text.{codes, str_eq}
use filestick.Fd.{
  FdFunction, Kernel, dispatch, sys_read, sys_write, sys_peek, sys_ioctl, sys_fstat, sys_lseek,
  sys_close,
}
use mathlib.Core.Option
use filestick.Fd.Table.{Fd, FdTable, flag_allocated, fd_alloc, alloc_from, modify, fd_dealloc}
use filestick.Fd.Open.{DevOpen, opened, find_device, open_device, fd_init}
use filestick.Fd.Invariant.{IsValid}
use filestick.Fd.Invariant.Opening.{IsFresh, open_device-IsValid, open_device-IsFresh}
use filestick.Fd.Invariant.Closing.{sys_close-IsValid}
use filestick.Fd.Invariant.Init.{fd_init-IsValid}
use filestick.Fd.Calls.{Dispatched, syscalls_past_end, dispatch-Dispatched, sys_close-frees}

data Driver : Type 0 where
  console counter : Driver

-- The counter returns how often it was read; closing it resets the count.
abbrev counter_read : ℕ → ℕ → ℕ → Option (Ret × List ℕ × ℕ)
counter_read fd count s = some (val s, [], s + 1)

abbrev counter_close : ℕ → ℕ → Option (Ret × ℕ)
counter_close fd s = some (val 0, 0)

abbrev no_functions : FdFunction ℕ
no_functions = record {
  fd_read = none;
  fd_write = none;
  fd_lseek = none;
  fd_fstat = none;
  fd_close = none;
  fd_ioctl = none;
  fd_peek = none;
}

abbrev drivers : Driver → FdFunction ℕ
drivers console = no_functions
drivers counter = record no_functions { fd_read = some counter_read; fd_close = some counter_close }

abbrev console_device : DevOpen Driver ℕ
console_device = record { devname = codes "console"; open_device_impl = λ n s. opened console s }

abbrev counter_device : DevOpen Driver ℕ
counter_device = record { devname = codes "counter"; open_device_impl = λ n s. opened counter s }

abbrev devices : List (DevOpen Driver ℕ)
devices = console_device ∷ counter_device ∷ []

abbrev booted : Kernel Driver ℕ
booted = fd_init devices 5

finds_console : find_device (codes "console") devices ≡ some console_device
unfolding find_device str_eq
finds_console = refl

fd_init-IsValid_example :
    IsValid (fd_init devices 5).fdtable
    × ((n : ℕ) (e : Fd Driver)
        → get_elem? (fd_init devices 5).fdtable n ≡ some e
        → (n < 3 → e.fdfunc ≡ some console) × (3 ≤ n → e.flags ≡ 0))
fd_init-IsValid_example =
    fd_init-IsValid devices console_device console 5 finds_console (λ n s. refl)

booted-IsValid : IsValid booted.fdtable
booted-IsValid = fd_init-IsValid_example.0

-- The counter is opened twice.
abbrev with_counter : Kernel Driver ℕ
with_counter = (open_device devices (codes "counter") 0 booted).1

open_device-IsValid_example : IsValid (open_device devices (codes "counter") 0 booted).1.fdtable
open_device-IsValid_example = open_device-IsValid devices (codes "counter") 0 booted booted-IsValid

open_device-IsFresh_example :
    IsFresh 0 booted.fdtable 3 (open_device devices (codes "counter") 0 booted).1.fdtable
unfolding open_device fd_alloc alloc_from modify find_device str_eq fd_init fd_dealloc
open_device-IsFresh_example =
    open_device-IsFresh devices (codes "counter") 0 booted booted-IsValid refl

abbrev console_fd : ℕ → ℕ → Fd Driver
console_fd n mode = record {
  flags = flag_allocated + mode;
  fdfunc = some console;
  priv = 0;
  fd = n;
}

abbrev counter_fd : Fd Driver
counter_fd = record { flags = flag_allocated; fdfunc = some counter; priv = 0; fd = 3 }

-- The table after the counter and the console were opened.
abbrev running : Kernel Driver ℕ
running = (open_device devices (codes "console") 0 with_counter).1

running_eq : running ≡ record {
  fdtable =
      console_fd 0 0
      ∷ console_fd 1 1
      ∷ console_fd 2 1
      ∷ counter_fd
      ∷ console_fd 4 0
      ∷ replicate 11 (record { flags = 0; fdfunc = none; priv = 0; fd = 0 });
  dev = 5;
}
unfolding open_device fd_alloc alloc_from modify find_device str_eq fd_init fd_dealloc
running_eq = refl

running-IsValid : IsValid running.fdtable
running-IsValid =
    open_device-IsValid devices (codes "console") 0 with_counter open_device-IsValid_example

closes_counter : (s : Kernel Driver ℕ) × (sys_close drivers (pos 3) running ≡ some (val 0, s))
unfolding sys_close open_device fd_alloc alloc_from modify find_device str_eq fd_init fd_dealloc
closes_counter = (_, refl)

sys_close-IsValid_example : IsValid closes_counter.0.fdtable
sys_close-IsValid_example =
    sys_close-IsValid drivers (pos 3) running running-IsValid closes_counter.1

syscalls_past_end_example :
    let fd = pos 16 in
    (sys_write drivers fd [] running ≡ none)
    × (sys_read drivers fd 1 running ≡ none)
    × (sys_peek drivers fd running ≡ none)
    × (sys_ioctl drivers fd 0 [] running ≡ none)
    × (sys_fstat drivers fd running ≡ none)
    × (sys_lseek drivers fd (pos 0) 0 running ≡ none)
    × (sys_close drivers fd running ≡ none)
syscalls_past_end_example =
    syscalls_past_end drivers running [] 1 0 0 [] (pos 0) running-IsValid.size

dispatch-Dispatched_example :
    Dispatched drivers
      (λ f. f.fd_read)
      0
      1
      (λ read. Option.map (λ r. r.2) (read 3 1 5))
      (pos 3)
      running.fdtable
      (dispatch drivers
        (λ f. f.fd_read)
        0
        1
        (λ read. Option.map (λ r. r.2) (read 3 1 5))
        (pos 3)
        running.fdtable)
dispatch-Dispatched_example =
    dispatch-Dispatched drivers (λ f. f.fd_read) 0 1 (λ read. Option.map (λ r. r.2) (read 3 1 5))
      (pos 3) running.fdtable running-IsValid (λ q. ground arith)

sys_close-frees_example :
    (t : FdTable Driver) × (sys_close drivers (pos 3) running
      ≡ some (val 0, record { fdtable = t; dev = 0 }))
    × (get_elem? t 3 ≡ some (record counter_fd { flags = 0; fdfunc = none; priv = 0 }))
    × ((j : ℕ) → j ≢ 3 → get_elem? t j ≡ get_elem? running.fdtable j)
sys_close-frees_example =
    sys_close-frees drivers running 3 counter_fd counter counter_close (val 0) 0 (omega arith)
      (omega arith) (ap (λ k. get_elem? k.fdtable 3) running_eq) (omega arith) refl refl refl
