-- ===== src/Init/Tests.antt =====
-- Tests of the init program: a state that counts the calls.
use filestick.Base.{
  ℕ, ◌+◌, ◌*◌, ◌/◌, ◌≡◌, refl, true, false, Option, none, some, List, [], ◌∷◌, ◌++◌, arith,
  if◌then◌else◌, length, take, drop, replicate, enoent, val, err,
}
use filestick.Debug.Dump.{DumpLine, all_bytes}
use filestick.Init.Commands.{Files, i_hexdump, i_hexdump-bytes}
use filestick.Base.Text.{codes, str_eq}
use filestick.Libc.Words.{cut}
use filestick.Econet.{no_addr}
use filestick.Init.Line.{cleaned, trim_right}
use filestick.Init.Cli.{Os, parse_cmd}
use filestick.Init.Dispatch.{run_line, named, parse_cmd-run_line}
use filestick.Init.Configure.{cfg_netterminate}
use filestick.Init.Clock.{Session, session_calls, print_to, with_clkterm, cfg_netterminate-clkterm}

abbrev Calls : Type 0
Calls = List (List (List ℕ))

abbrev recording : Os Calls
recording = record {
  call = λ c args s. s ++ args ∷ [];
  exec_elf = λ line s. (err enoent, s);
  perror = λ text s. s ++ (text ∷ []) ∷ [];
  set_interactive = λ fd s. s;
  prompt = λ s. s;
  read = λ fd s. (none, s);
  mount = λ s. (val 0, s);
  fopen = λ name s. (false, s);
  fgets = λ s. (none, s);
  fclose = λ s. s;
}

abbrev typed : List ℕ
typed = codes "  mkdir  docs " ++ 13 ∷ 10 ∷ []

parse_cmd-run_line_example : parse_cmd recording typed [] ≡ run_line recording (cleaned typed) []
parse_cmd-run_line_example = parse_cmd-run_line recording typed [] refl (omega arith)

made_dir : run_line recording (cleaned typed) [] ≡ (codes "mkdir" ∷ codes "docs" ∷ []) ∷ []
unfolding trim_right named cut str_eq
made_dir = refl

abbrev clocked : Session
clocked = record {
  econet = record {
    rx_portmap = λ _. 0;
    tx_destmap = λ _. no_addr;
    address = 254;
    last_monitor_frames = 0;
    handshake_state = 0;
    pending_port = 0;
    buf_start = 0;
    buf_len = 0;
    tx_start = 0;
    tx_end = 0;
    tx_status = 0;
    timeout_state = 0;
    monitor_frames = 0;
    port_list = λ _. 0;
    mon = 0;
    clkterm = 0x0202;
    addr_set = 254;
    tx_flags = 0;
    tx_start_offset = 0;
    tx_end_offset = 0;
    rxbuf = [];
    txbuf = [];
  };
  printed = [];
}

cfg_netterminate-clkterm_example :
    cfg_netterminate (session_calls 3) print_to (codes "netterminate" ∷ codes "off" ∷ []) clocked
    ≡ some (
        with_clkterm
          (0x0202 / 4 * 4 + (if str_eq (codes "off") (codes "on") then 2 else 0) + 0)
          clocked)
cfg_netterminate-clkterm_example =
    cfg_netterminate-clkterm 3 (codes "netterminate") (codes "off") [] clocked (omega arith) refl

abbrev next_line : List (List ℕ) → Calls → Option (List ℕ) × (List (List ℕ) × Calls)
next_line [] c = (none, ([], c))
next_line (l ∷ ls) c = (some l, (ls, c))

-- A state of the lines that are left of a script, and of what was called.
abbrev scripted : Os (List (List ℕ) × Calls)
scripted = record {
  call = λ c args s. (s.0, s.1 ++ args ∷ []);
  exec_elf = λ line s. (err enoent, s);
  perror = λ text s. s;
  set_interactive = λ fd s. s;
  prompt = λ s. s;
  read = λ fd s. (none, s);
  mount = λ s. (val 0, s);
  fopen = λ name s. (true, s);
  fgets = λ s. next_line s.0 s.1;
  fclose = λ s. s;
}

abbrev boot_script : List (List ℕ) × Calls
boot_script = (codes "# start" ∷ codes "cd home" ∷ codes "ls" ∷ [], [])

-- A file system whose files all hold the bytes that the state still has to give.
abbrev holding : Files (List ℕ)
holding = record {
  «open» = λ name flags s. (val 3, s);
  read = λ fd n s. (some (take 256 s), drop 256 s);
  close = λ fd s. s;
  mkdir = λ name mode s. (err enoent, s);
  chdir = λ name s. (err enoent, s);
  unlink = λ name s. (err enoent, s);
  perror = λ text s. s;
  usage = λ text s. s;
}

abbrev letters : List ℕ
letters = replicate 300 65

i_hexdump-bytes_example :
    (lines : List DumpLine) × (s' : List ℕ) × (i_hexdump holding
        ((length letters + 255) / 256 + 1)
        (codes "hexdump" ∷ codes "notes" ∷ [])
        letters
      ≡ some (lines, s'))
    × (all_bytes lines ≡ letters)
i_hexdump-bytes_example =
    i_hexdump-bytes holding 3 (λ s. s) (λ s. (refl, refl)) (codes "hexdump") (codes "notes") letters
      letters refl
