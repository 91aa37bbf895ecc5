-- ===== src/Memory/Pool.antt =====
-- The set up of the C library's pool, and `calloc`.
use filestick.Base.{
  Option, none, some, ℕ, ◌+◌, ◌-◌, ◌*◌, ◌%◌, ◌^◌, ◌≡◌, refl, sym, inl, inr, Bool, true, false, not,
  ◌&&◌, arith, ltb, leb, ◌==◌, if◌then◌else◌, Bool-cases,
}
use filestick.Memory.{Regs, sys_brk}
use filestick.Memory.Break.{IsBreak, IsRunning, sys_brk_refuses, sys_brk_takes, sys_brk-IsBreak}
use native.Mathlib.Decide.{dec_lt}
use mathlib.Core.Path.{subst}
use filestick.Libc.Copied.{memset_lem}
use filestick.Memory.Malloc.{
  PoolCalls, Heap, default_brk, pool_made, setup_malloc, ready_pool, take_block, malloc,
  clear_block, calloc,
}

module _ {H : Type 0} (calls : PoolCalls H) where
  pool_made-cases :
      (at : ℕ) (made : Option H) (s : Heap H)
      → pool_made calls at made s ≡ elim made [
        | none ↦ (false, record s { mempool = 0 })
        | some pool ↦ (true, record s { mempool = at; pool = pool })
      ]
  pool_made-cases at none s = refl
  pool_made-cases at (some h) s = refl

  -- Where the break stands below `DEFAULT_BRK` and the stack leaves 1024 bytes above that, the set up
  -- moves the break there and gives the allocator exactly the memory in between: if the allocator
  -- takes it, the set up succeeds and the pool is there, at the old break; if not, it fails and leaves
  -- no pool, the break moved all the same. Without that room it fails and leaves no pool. The
  -- program's break is valid at the start.
  pub setup_malloc-sys_brk :
      (r : Regs) (s : Heap H)
      → IsRunning r
      → IsBreak r s.brk
      → let at = s.brk.program_brk in
        setup_malloc calls r s ≡ (
          if ltb at default_brk && leb (default_brk + 1024) r.user_sp
          then (let moved = record s { brk = record s.brk { program_brk = default_brk } } in
              elim (calls.sys_malloc_init at (default_brk - at) s.pool) [
                | none ↦ (false, record moved { mempool = 0 })
                | some pool ↦ (true, record moved { mempool = at; pool = pool })
              ])
          else (false, record s { mempool = 0; brk = (sys_brk r default_brk s.brk).1 }))
  unfolding setup_malloc
  setup_malloc-sys_brk r s u v =
      let at = s.brk.program_brk in
      let first = sys_brk_refuses r 0 s.brk u v (inl (omega (arith, v.above_gp))) in
      elim (Bool-cases (ltb at default_brk && leb (default_brk + 1024) r.user_sp)) [
        | inl e ↦
            let moved =
              sys_brk_takes r default_brk s.brk u v (ground (arith, v.above_data)) (ground arith) in
            let room : ltb at default_brk ≡ true = ground arith in
            let stack : leb (default_brk + 1024) r.user_sp ≡ true = ground arith in
            let b = record s.brk { program_brk = default_brk } in
            let made =
              pool_made-cases at (calls.sys_malloc_init at (default_brk - at) s.pool)
                (record s { brk = b }) in
            rw (setup_malloc, first, moved, room, stack) made
        | inr e ↦
            let none_gained : ltb at (sys_brk r default_brk s.brk).0 ≡ false = no_gain e in
            rw (setup_malloc, first, none_gained, e) refl
      ]
    where
      no_gain :
          (ltb s.brk.program_brk default_brk && leb (default_brk + 1024) r.user_sp) ≡ false
          → ltb s.brk.program_brk (sys_brk r default_brk s.brk).0 ≡ false
      no_gain e =
          let (_, _, _, taken, low, high) = sys_brk-IsBreak r default_brk s.brk u v in
          elim (dec_lt default_brk s.brk.min_brk) [
            | yes l ↦ let q = low l in ground arith
            | no l ↦ elim (dec_lt r.user_sp (default_brk + 1024)) [
              | yes h ↦ let q = high h in ground arith
              | no h ↦ let q = taken (omega arith) (omega arith) in ground arith
            ]
          ]

  calloc-clear_block :
      (r : Regs) (nmemb size : ℕ) (s : Heap H)
      → calloc calls r nmemb size s
        ≡ clear_block calls (nmemb * size % 2 ^ 32) (malloc calls r (nmemb * size % 2 ^ 32) s)
  unfolding malloc calloc
  calloc-clear_block r nmemb size s = by_ready (ready_pool calls r s)
    where
      by_ready :
          (t : Bool × Heap H)
          → let bytes = nmemb * size % 2 ^ 32 in
            let block = take_block calls (calls.sys_malloc t.1.mempool bytes t.1.pool) t.1 in
            (if t.0 then clear_block calls bytes block else (0, t.1))
            ≡ clear_block calls bytes (if t.0 then block else (0, t.1))
      by_ready (true, s') = refl
      by_ready (false, s') = refl

  abbrev Cleared : ℕ → ℕ → ℕ × Heap H → ℕ × Heap H → Type 0
  Cleared x bytes (p, s₁) (q, s₂) =
      (q ≡ p)
      × (s₂.pool ≡ s₁.pool)
      × (s₂.mempool ≡ s₁.mempool)
      × (s₂.mem x ≡ (if not (p == 0) && (leb p x && ltb x (p + bytes)) then 0 else s₁.mem x))

  clear_block-Cleared :
      (x bytes : ℕ) (t : ℕ × Heap H) → Cleared x bytes t (clear_block calls bytes t)
  clear_block-Cleared x bytes (p, s) = elim (Bool-cases (p == 0)) [
    | inl e ↦ rw e (refl, refl, refl, refl)
    | inr e ↦ rw e (refl, refl, refl, memset_lem p 0 bytes s.mem x)
  ]

  -- `calloc` gives what `malloc` gives for the product of its arguments in 32 bits, and in the block
  -- that it gives each byte of so many is 0; no other byte of the memory changes, and none if there
  -- is no block.
  pub calloc-malloc :
      (r : Regs) (nmemb size : ℕ) (s : Heap H) (x : ℕ)
      → let bytes = nmemb * size % 2 ^ 32 in
        let (p, s₁) = malloc calls r bytes s in
        let (q, s₂) = calloc calls r nmemb size s in
        (q ≡ p)
        × (s₂.pool ≡ s₁.pool)
        × (s₂.mempool ≡ s₁.mempool)
        × (s₂.mem x ≡ (if not (p == 0) && (leb p x && ltb x (p + bytes)) then 0 else s₁.mem x))
  calloc-malloc r nmemb size s x =
      let bytes = nmemb * size % 2 ^ 32 in
      subst (Cleared x bytes (malloc calls r bytes s)) (sym (calloc-clear_block r nmemb size s))
        (clear_block-Cleared x bytes (malloc calls r bytes s))
