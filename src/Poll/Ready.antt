-- ===== src/Poll/Ready.antt =====
-- What `SYS_poll` returns.
use filestick.Base.{
  ℕ, zero, suc, ◌+◌, ◌%◌, ◌^◌, ◌<◌, ◌≡◌, refl, ◌∙◌, ◌≢◌, ◌⊎◌, inl, inr, ◌||◌, Option, some, List,
  [], ◌∷◌, map, arith, ltb, ◌==◌, if◌then◌else◌, Bool-cases, Option-cases, Ret, val, err,
}
use filestick.Base.Int.{ℤ}
use filestick.Poll.{PollFd, skipped, answer, poll_round, poll_loop, sys_poll}

-- The descriptors that count as ready: not skipped, and with an event.
unfoldable pub ready_count : List PollFd → ℕ
ready_count [] = 0
ready_count (p ∷ ps) =
    let rest = ready_count ps in if skipped p.fd || p.revents == 0 then rest else suc rest

abbrev pub fd_of : PollFd → ℤ
fd_of p = p.fd

-- A descriptor's entry after a round: the answer is the event.
answer-ready :
    (r : Ret) → ((answer r).0 ≡ 0) × ((answer r).1 ≡ 0) ⊎ ((answer r).0 ≢ 0) × ((answer r).1 ≡ 1)
answer-ready (val zero) = inl (refl, refl)
answer-ready (val (suc n)) = inr (omega arith, refl)
answer-ready (err e) = inr (omega arith, refl)

module _ {K : Type 0} (sys_peek : ℤ → K → Option (Ret × K)) where
  record Polled (ps : List PollFd) (n : ℕ) (ps' : List PollFd) : Type 0 where
    counts : n ≡ ready_count ps'
    fds : map fd_of ps' ≡ map fd_of ps

  poll_round-Polled :
      (ps : List PollFd) (k : K) {ps' : List PollFd} {n : ℕ} {k' : K}
      → poll_round sys_peek ps k ≡ some (ps', n, k')
      → Polled ps n ps'
  unfolding poll_round ready_count
  poll_round-Polled [] k h = record { counts = ground arith; fds = ground arith }
  poll_round-Polled (p ∷ ps) k h = elim (Bool-cases (skipped p.fd)) [
    | inl s ↦ elim (Option-cases (poll_round sys_peek ps k)) [
      | inl q ↦ absurd (ground arith)
      | inr ((ps₁, n₁, k₁), q) ↦
          let v = poll_round-Polled ps k q in
          record { counts = ground (arith, v.counts); fds = ground (arith, v.fds) }
    ]
    | inr s ↦ elim (Option-cases (sys_peek p.fd k)) [
      | inl q ↦ absurd (ground arith)
      | inr ((r, k₁), q) ↦ elim (Option-cases (poll_round sys_peek ps k₁)) [
        | inl q₁ ↦ absurd (ground arith)
        | inr ((ps₂, n₂, k₂), q₁) ↦
            let v = poll_round-Polled ps k₁ q₁ in
            record {
              counts = ground (arith, v.counts, answer-ready r);
              fds = ground (arith, v.fds);
            }
      ]
    ]
  ]

  record Returned (timeout : ℕ) (ps : List PollFd) (n : ℕ) (ps' : List PollFd) : Type 0 where
    result : n ≡ ready_count ps'
    fds : map fd_of ps' ≡ map fd_of ps
    waits : timeout ≡ 0 → 0 < n

  poll_loop-Returned :
      (timeout end_time : ℕ) (rest : List ((K → K) × ℕ)) (ps : List PollFd) (k : K) {n : ℕ}
      {ps' : List PollFd} {k' : K}
      → poll_loop sys_peek timeout end_time rest ps k ≡ some (n, ps', k')
      → Returned timeout ps n ps'
  unfolding poll_loop
  poll_loop-Returned timeout end_time [] ps k h = absurd (ground arith)
  poll_loop-Returned timeout end_time ((interrupts, now) ∷ rest) ps k {n} {ps'} {k'} h =
      elim (Option-cases (poll_round sys_peek ps k)) [
        | inl q ↦ absurd (ground arith)
        | inr ((ps₁, n₁, k₁), q) ↦
            let v = poll_round-Polled ps k q in
            elim (Bool-cases (n₁ == 0)) [
              | inl z ↦ elim (Bool-cases (timeout == 0 || ltb now end_time)) [
                | inl t ↦
                    let r =
                      poll_loop-Returned timeout end_time rest ps₁ (interrupts k₁) {n = n}
                        {ps' = ps'} {k' = k'} (ground arith) in
                    record { result = r.result; fds = r.fds ∙ v.fds; waits = r.waits }
                | inr t ↦ record {
                  result = ground (arith, v.counts);
                  fds = ground (arith, v.fds);
                  waits = ground (arith, v.counts);
                }
              ]
              | inr z ↦ record {
                result = ground (arith, v.counts);
                fds = ground (arith, v.fds);
                waits = ground (arith, v.counts);
              }
            ]
      ]

  -- Where `SYS_poll` returns, its result is the number of descriptors that are not negative and
  -- have an event set, and the descriptors asked for are as they were. With a timeout of 0 it never
  -- returns 0: it goes on until something is ready.
  pub sys_poll-ready_count :
      (fds : List PollFd) (timeout start : ℕ) (rest : List ((K → K) × ℕ)) (k : K) {n : ℕ}
      {fds' : List PollFd} {k' : K}
      → sys_poll sys_peek fds timeout start rest k ≡ some (n, fds', k')
      → (n ≡ ready_count fds') × (map fd_of fds' ≡ map fd_of fds) × (timeout ≡ 0 → 0 < n)
  unfolding sys_poll
  sys_poll-ready_count fds timeout start rest k h =
      let r = poll_loop-Returned timeout ((start + timeout) % 2 ^ 64) rest fds k h in
      (r.result, r.fds, r.waits)
