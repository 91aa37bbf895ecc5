-- ===== src/Memory/Malloc.antt =====
-- lib/malloc.c: the C library's allocator over the kernel's. The pool's functions are parameters; an
-- address 0 is NULL.
use filestick.Base.{ℕ, ◌-◌, ◌*◌, Bool, true, false, Option, none, some, ltb, ◌==◌, if◌then◌else◌}
use filestick.Memory.{Regs, Brk, sys_brk, word}
use filestick.Libc.{Bytes, memset}

abbrev pub memtop : ℕ
memtop = 0x21C00

abbrev pub default_brk : ℕ
default_brk = memtop - 2048

-- The kernel's pool functions, on a pool's state: its address comes first. A failed set up gives
-- none.
pub record PoolCalls (H : Type 0) : Type 0 where
  pub sys_malloc_init : ℕ → ℕ → H → Option H
  pub sys_malloc : ℕ → ℕ → H → ℕ × H
  pub sys_realloc : ℕ → ℕ → ℕ → H → ℕ × H
  pub sys_free : ℕ → ℕ → H → H

-- The break, the pool with its address, and the memory.
pub record Heap (H : Type 0) : Type 0 where
  pub brk : Brk
  pub mempool : ℕ
  pub pool : H
  pub mem : Bytes

module _ {H : Type 0} (calls : PoolCalls H) where
  abbrev pub pool_made : ℕ → Option H → Heap H → Bool × Heap H
  pool_made at none s = (false, record s { mempool = 0 })
  pool_made at (some h) s = (true, record s { mempool = at; pool = h })

  unfoldable pub setup_malloc : Regs → Heap H → Bool × Heap H
  setup_malloc r s =
      let (first, b₁) = sys_brk r 0 s.brk in
      let (actual_brk, b₂) = sys_brk r default_brk b₁ in
      let s' = record s { brk = b₂ } in
      if ltb first actual_brk
      then pool_made first (calls.sys_malloc_init first (actual_brk - first) s.pool) s'
      else (false, record s' { mempool = 0 })

  unfoldable pub setup_malloc_pool : ℕ → ℕ → Heap H → Bool × Heap H
  setup_malloc_pool at size s = elim (calls.sys_malloc_init at size s.pool) [
    | none ↦ (false, s)
    | some h ↦ (true, record s { mempool = at; pool = h })
  ]

  -- `if(!mempool) if(!setup_malloc()) return NULL;`
  abbrev pub ready_pool : Regs → Heap H → Bool × Heap H
  ready_pool r s = if s.mempool == 0 then setup_malloc r s else (true, s)

  abbrev pub take_block : ℕ × H → Heap H → ℕ × Heap H
  take_block (ptr, h) s = (ptr, record s { pool = h })

  unfoldable pub malloc : Regs → ℕ → Heap H → ℕ × Heap H
  malloc r size s =
      let (ok, s') = ready_pool r s in
      if ok then take_block (calls.sys_malloc s'.mempool size s'.pool) s' else (0, s')

  unfoldable pub realloc : Regs → ℕ → ℕ → Heap H → ℕ × Heap H
  realloc r ptr size s =
      let (ok, s') = ready_pool r s in
      if ok then take_block (calls.sys_realloc s'.mempool ptr size s'.pool) s' else (0, s')

  -- `size_t` has 32 bits.
  abbrev pub clear_block : ℕ → ℕ × Heap H → ℕ × Heap H
  clear_block bytes (ptr, s) =
      if ptr == 0 then (ptr, s) else (ptr, record s { mem = memset ptr 0 bytes s.mem })

  unfoldable pub calloc : Regs → ℕ → ℕ → Heap H → ℕ × Heap H
  calloc r nmemb size s =
      let (ok, s') = ready_pool r s in
      let bytes = word (nmemb * size) in
      if ok
      then clear_block bytes (take_block (calls.sys_malloc s'.mempool bytes s'.pool) s')
      else (0, s')

  unfoldable pub free : ℕ → Heap H → Heap H
  free ptr s = record s { pool = calls.sys_free s.mempool ptr s.pool }
