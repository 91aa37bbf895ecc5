-- ===== src/Memory/Tests.antt =====
-- Tests of the program break: a program with data up to 0x12000 and its stack at 0x20000.
use filestick.Base.{
  ℕ, ◌+◌, ◌≤◌, ◌<◌, ◌≡◌, refl, true, not, ◌&&◌, none, some, arith, ltb, leb, ◌==◌, if◌then◌else◌,
}
use filestick.Base.Int.{pos}
use filestick.Memory.{Regs, Brk, Process, sys_brk, sbrk}
use filestick.Memory.Malloc.{PoolCalls, Heap, setup_malloc, malloc, calloc}
use filestick.Memory.Pool.{setup_malloc-sys_brk, calloc-malloc}
use filestick.Memory.Break.{IsBreak, IsRunning, IsProcess, sys_brk-IsBreak, sbrk-IsProcess}

abbrev regs : Regs
regs = record { gp = 0x11000; user_sp = 0x20000 }

abbrev at_start : Brk
at_start = record { program_brk = 0x12000; min_brk = 0x12000 }

abbrev process : Process
process = record { brk = at_start; memptr = 0x12000 }

regs-IsRunning : IsRunning regs
regs-IsRunning = record { gp_fits = omega arith; sp_fits = omega arith; stack = omega arith }

at_start-IsBreak : IsBreak regs at_start
at_start-IsBreak = record {
  above_data = omega arith;
  above_gp = omega arith;
  below_stack = omega arith;
}

process-IsProcess : IsProcess regs process
process-IsProcess = record { valid = at_start-IsBreak; in_step = refl; found = omega arith }

sys_brk-IsBreak_example :
    let (a, s') = sys_brk regs 0x13000 at_start in
    (a ≡ s'.program_brk)
    × IsBreak regs s'
    × (s'.min_brk ≡ 0x12000)
    × (0x12000 ≤ 0x13000 → 0x13000 + 1024 ≤ 0x20000 → a ≡ 0x13000)
    × (0x13000 < 0x12000 → a ≡ 0x12000)
    × (0x20000 < 0x13000 + 1024 → a ≡ 0x12000)
sys_brk-IsBreak_example = sys_brk-IsBreak regs 0x13000 at_start regs-IsRunning at_start-IsBreak

sbrk-IsProcess_example :
    (0 < 256
      → 0x12000 + 256 + 1024 ≤ 0x20000
      → let (got, p') = sbrk regs (pos 256) process in
        (got ≡ some 0x12000) × (p'.memptr ≡ 0x12000 + 256) × IsProcess regs p')
    × (0x20000 < 0x12000 + 256 + 1024 → sbrk regs (pos 256) process ≡ (none, process))
    × (sbrk regs (pos 0) process ≡ (none, process))
sbrk-IsProcess_example =
    sbrk-IsProcess regs 256 process regs-IsRunning process-IsProcess (omega arith) (omega arith)

-- An allocator that takes any memory and gives its start.
abbrev one_block : PoolCalls ℕ
one_block = record {
  sys_malloc_init = λ at size h. some at;
  sys_malloc = λ at size h. (h, h + size);
  sys_realloc = λ at ptr size h. (h, h + size);
  sys_free = λ at ptr h. h;
}

abbrev heap : Heap ℕ
heap = record { brk = at_start; mempool = 0; pool = 0; mem = λ _. 7 }

abbrev high_stack : Regs
high_stack = record { gp = 0x11000; user_sp = 0x21B00 }

setup_malloc-sys_brk_example : setup_malloc one_block high_stack heap ≡ (
  true,
  record heap {
    brk = record at_start { program_brk = 0x21400 };
    mempool = 0x12000;
    pool = 0x12000;
  },
)
setup_malloc-sys_brk_example =
    setup_malloc-sys_brk one_block high_stack heap
      (record { gp_fits = omega arith; sp_fits = omega arith; stack = omega arith })
      (record { above_data = omega arith; above_gp = omega arith; below_stack = omega arith })

calloc-malloc_example :
    let (p, s₁) = malloc one_block high_stack 40 heap in
    let (q, s₂) = calloc one_block high_stack 10 4 heap in
    (q ≡ p)
    × (s₂.pool ≡ s₁.pool)
    × (s₂.mempool ≡ s₁.mempool)
    × (s₂.mem 0x12005
        ≡ (if not (p == 0) && (leb p 0x12005 && ltb 0x12005 (p + 40)) then 0 else s₁.mem 0x12005))
calloc-malloc_example = calloc-malloc one_block high_stack 10 4 heap 0x12005
