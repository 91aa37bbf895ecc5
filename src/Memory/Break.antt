-- ===== src/Memory/Break.antt =====
-- What `SYS_brk` and `_sbrk` promise.
use native.Mathlib.Decide.{dec_lt}
use filestick.Base.{
  ℕ, ◌+◌, ◌^◌, ◌≤◌, ◌<◌, ◌≡◌, refl, ap, ◌∙◌, ◌⊎◌, inl, inr, true, false, ◌||◌, none, some, arith,
  ltb, ◌==◌,
}
use filestick.Base.Int.{pos}
use filestick.Memory.{
  Regs, Brk, Process, gp_space, sys_brk, sbrk, min_gp, max_brk, sbrk_result, word,
}

-- The program break of a running program: above the data and what the global pointer reaches, and
-- at least 1024 bytes below the stack.
pub record IsBreak (r : Regs) (s : Brk) : Type 0 where
  pub above_data : s.min_brk ≤ s.program_brk
  pub above_gp : r.gp + gp_space ≤ s.min_brk
  pub below_stack : s.program_brk + 1024 ≤ r.user_sp

-- The addresses of the program lie within 32 bits.
pub record IsRunning (r : Regs) : Type 0 where
  pub gp_fits : r.gp + gp_space < 2 ^ 32
  pub sp_fits : r.user_sp < 2 ^ 32
  pub stack : 1024 ≤ r.user_sp

min_kept : (r : Regs) (s : Brk) → IsRunning r → IsBreak r s → ltb s.min_brk (min_gp r) ≡ false
min_kept r s w v = ground (arith, w.gp_fits, v.above_gp)

break_kept : (r : Regs) (s : Brk) → IsBreak r s → ltb s.program_brk s.min_brk ≡ false
break_kept r s v = ground (arith, v.above_data)

-- An address out of bounds is refused, and one within bounds taken.
pub sys_brk_refuses :
    (r : Regs) (addr : ℕ) (s : Brk)
    → IsRunning r
    → IsBreak r s
    → (addr < s.min_brk) ⊎ (r.user_sp < addr + 1024)
    → sys_brk r addr s ≡ (s.program_brk, s)
unfolding sys_brk
sys_brk_refuses r addr s w v out =
    let b : (ltb (max_brk r) addr || ltb addr s.min_brk) ≡ true =
      ground (arith, w.sp_fits, w.stack) in
    rw (sys_brk, min_kept r s w v, break_kept r s v, b) refl

pub sys_brk_takes :
    (r : Regs) (addr : ℕ) (s : Brk)
    → IsRunning r
    → IsBreak r s
    → s.min_brk ≤ addr
    → addr + 1024 ≤ r.user_sp
    → sys_brk r addr s ≡ (addr, record s { program_brk = addr })
unfolding sys_brk
sys_brk_takes r addr s w v l h =
    let b : (ltb (max_brk r) addr || ltb addr s.min_brk) ≡ false =
      ground (arith, w.sp_fits, w.stack) in
    rw (sys_brk, min_kept r s w v, break_kept r s v, b) refl

-- For a running program `SYS_brk` keeps the break within its bounds whatever is asked for. It
-- returns the break that then holds: the address, if it is within the bounds, and else the break as
-- it was.
pub sys_brk-IsBreak :
    (r : Regs) (addr : ℕ) (s : Brk)
    → IsRunning r
    → IsBreak r s
    → let (a, s') = sys_brk r addr s in
      (a ≡ s'.program_brk)
      × IsBreak r s'
      × (s'.min_brk ≡ s.min_brk)
      × (s.min_brk ≤ addr → addr + 1024 ≤ r.user_sp → a ≡ addr)
      × (addr < s.min_brk → a ≡ s.program_brk)
      × (r.user_sp < addr + 1024 → a ≡ s.program_brk)
sys_brk-IsBreak r addr s w v = elim (dec_lt addr s.min_brk) [
  | yes lt ↦
      rw (sys_brk_refuses r addr s w v (inl lt))
        (refl, v, refl, λ l. absurd (omega arith), λ _. refl, λ _. refl)
  | no ge ↦ elim (dec_lt r.user_sp (addr + 1024)) [
    | yes lt ↦
        rw (sys_brk_refuses r addr s w v (inr lt))
          (refl, v, refl, λ _ h. absurd (omega arith), λ _. refl, λ _. refl)
    | no in_bounds ↦ rw (sys_brk_takes r addr s w v (omega arith) (omega arith)) (
      refl,
      record { above_data = omega arith; above_gp = v.above_gp; below_stack = omega arith },
      refl,
      λ _ _. refl,
      λ l. absurd (omega arith),
      λ l. absurd (omega arith),
    )
  ]
]

-- Between two calls of `_sbrk` its pointer is the program break.
pub record IsProcess (r : Regs) (p : Process) : Type 0 where
  pub valid : IsBreak r p.brk
  pub in_step : p.memptr ≡ p.brk.program_brk
  pub found : 0 < p.memptr

-- With the pointer found, an increment that does not wrap asks for the address itself.
sbrk_asks :
    (r : Regs) (n : ℕ) (p : Process)
    → 0 < p.memptr
    → p.memptr + n < 2 ^ 32
    → sbrk r (pos n) p ≡ sbrk_result p (sys_brk r (p.memptr + n) p.brk)
unfolding sbrk
sbrk_asks r n p found fits =
    let e : (p.memptr == 0) ≡ false = ground arith in
    let a : word (p.memptr + n) ≡ p.memptr + n = omega arith in
    rw (sbrk, e) (ap (λ x. sbrk_result p (sys_brk r x p.brk)) a)

sbrk_fails :
    (r : Regs) (n : ℕ) (p : Process)
    → IsRunning r
    → IsProcess r p
    → p.memptr + n < 2 ^ 32
    → (n ≡ 0) ⊎ (r.user_sp < p.memptr + n + 1024)
    → sbrk r (pos n) p ≡ (none, p)
sbrk_fails r n p w v fits (inl z) =
    let here : p.memptr + n ≡ p.memptr = omega arith in
    let same : (p.brk.program_brk == p.memptr) ≡ true = ground (arith, v.in_step) in
    sbrk_asks r n p v.found fits
    ∙ ap (λ x. sbrk_result p (sys_brk r x p.brk)) (here ∙ v.in_step)
    ∙ ap (λ x. sbrk_result p x)
        (sys_brk_takes r p.brk.program_brk p.brk w v.valid v.valid.above_data v.valid.below_stack)
    ∙ rw same refl
sbrk_fails r n p w v fits (inr l) =
    let same : (p.brk.program_brk == p.memptr) ≡ true = ground (arith, v.in_step) in
    sbrk_asks r n p v.found fits
    ∙ ap (λ x. sbrk_result p x) (sys_brk_refuses r (p.memptr + n) p.brk w v.valid (inr l))
    ∙ rw same refl

sbrk_grows :
    (r : Regs) (n : ℕ) (p : Process)
    → IsRunning r
    → IsProcess r p
    → 0 < n
    → p.memptr + n + 1024 ≤ r.user_sp
    → sbrk r (pos n) p ≡ (
      some p.memptr,
      record { brk = record p.brk { program_brk = p.memptr + n }; memptr = p.memptr + n },
    )
sbrk_grows r n p w v pos_n l =
    let differ : ((p.memptr + n) == p.memptr) ≡ false = ground arith in
    sbrk_asks r n p v.found (omega (arith, w.sp_fits))
    ∙ ap (λ x. sbrk_result p x)
        (sys_brk_takes r (p.memptr + n) p.brk w v.valid
          (omega (arith, v.in_step, v.valid.above_data)) l)
    ∙ rw differ refl

-- Once the pointer is set (`IsProcess`), and with increment and stack pointer below 2 ^ 31, `_sbrk`
-- of a positive increment returns the old break and moves it, if 1024 bytes are then left below the
-- stack; if not, it fails with ENOMEM and changes nothing. An increment of 0, which asks for the
-- break as it is, fails with ENOMEM as well.
pub sbrk-IsProcess :
    (r : Regs) (n : ℕ) (p : Process)
    → IsRunning r
    → IsProcess r p
    → n < 2 ^ 31
    → r.user_sp < 2 ^ 31
    → (0 < n
        → p.memptr + n + 1024 ≤ r.user_sp
        → let (got, p') = sbrk r (pos n) p in
          (got ≡ some p.memptr) × (p'.memptr ≡ p.memptr + n) × IsProcess r p')
      × (r.user_sp < p.memptr + n + 1024 → sbrk r (pos n) p ≡ (none, p))
      × (sbrk r (pos 0) p ≡ (none, p))
sbrk-IsProcess r n p w v small sp = (
  λ pos_n l. rw (sbrk_grows r n p w v pos_n l) (
    refl,
    refl,
    record {
      valid = record {
        above_data = omega (arith, v.in_step, v.valid.above_data);
        above_gp = v.valid.above_gp;
        below_stack = l;
      };
      in_step = refl;
      found = omega arith;
    },
  ),
  λ l. sbrk_fails r n p w v (omega (arith, v.in_step, v.valid.below_stack)) (inr l),
  sbrk_fails r 0 p w v (omega (arith, v.in_step, v.valid.below_stack)) (inl refl),
)
