-- ===== src/Console/Tests.antt =====
-- Tests of the console: a line with a correction, a raw read and the mode bits.
use filestick.Base.{
  ◌≤◌, ◌<◌, ◌≡◌, refl, none, some, [], ◌∷◌, ◌++◌, arith, length, take, drop, replicate, val,
}
use filestick.Base.Text.{codes}
use filestick.Console.{Console, console_read_raw, console_read_interactive}
use filestick.Console.Line.{edit, Completes, console_read_interactive-edit}
use filestick.Console.Read.{console_read_raw_lem}

-- "lx", a delete, "s", carriage return, and what is typed ahead.
abbrev typing : Console
typing = record {
  cons_control = 0;
  rx = codes "lx" ++ (127 ∷ codes "s" ++ (13 ∷ codes "q"));
  tx = [];
}

edits_ls : edit 8 [] typing.rx ≡ some (codes "ls", codes "q")
unfolding edit
edits_ls = refl

console_read_interactive-edit_example :
    Completes 8
      (drop 8 (replicate 8 0))
      typing
      (edit 8 [] typing.rx)
      (console_read_interactive 8 (replicate 8 0) typing)
console_read_interactive-edit_example =
    console_read_interactive-edit 8 (replicate 8 0) typing (omega arith)

console_read_raw_lem_example :
    (2 ≤ length typing.rx
      → console_read_raw 2 typing
        ≡ some (val 2, take 2 typing.rx, record typing { rx = drop 2 typing.rx }))
    × (length typing.rx < 2 → console_read_raw 2 typing ≡ none)
console_read_raw_lem_example = console_read_raw_lem 2 typing
