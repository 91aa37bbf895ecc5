-- ===== src/Poll.antt =====
-- system/poll.c: `SYS_poll` over a peek at each descriptor, and system/rgbled.c, the LED as a
-- device.
pub mod Ready
pub mod Led
mod Tests
use filestick.Base.{
  ℕ, zero, suc, ◌+◌, ◌-◌, ◌*◌, ◌/◌, ◌%◌, ◌^◌, ◌≤◌, ◌<◌, min, max, bit_and, bit_or, bit_xor, ◌≡◌,
  refl, sym, ap, ap₂, ◌∙◌, fun_ext, ◌≢◌, ◌↔◌, ◌⊎◌, inl, inr, Bool, true, false, not, ◌&&◌, ◌||◌,
  Option, none, some, List, [], ◌∷◌, ◌++◌, map, append-nil, append_assoc, arith, ltb, leb, ◌==◌,
  if◌then◌else◌, ltb→lt, lt→ltb, leb→le, ==_iff, tests, Bool-cases, Option-cases, length, get_elem?,
  get_elem?-lt, get_elem?_of_lt, get_elem?-none, set, length-append, length-set, get_elem?-set_self,
  get_elem?-set_ne, get_or, take, drop, replicate, take-set_end, take-set_ge, take-take, take_all,
  take-append_self, take-append-take, take-append_left, drop-append_left, drop-append_self,
  drop-drop, take-append-drop, length-take, length-drop, length-replicate, length-map, Errno,
  enoent, eio, enoexec, ebadf, enomem, eexist, einval, enfile, emfile, espipe, erofs, emsgsize,
  edestaddrreq, ehostunreach, etimedout, efatfs, Ret, val, err,
}
use filestick.Base.Int.{ℤ, pos, negsuc}

-- include/poll.h
abbrev pub pollin : ℕ
pollin = 1

abbrev pub pollerr : ℕ
pollerr = 4

pub record PollFd : Type 0 where
  pub fd : ℤ
  pub events : ℕ
  pub revents : ℕ

-- `ptr->fd < 0`
abbrev pub skipped : ℤ → Bool
skipped (pos n) = false
skipped (negsuc n) = true

-- What the answer of the peek says: the flags, and whether the descriptor counts as ready.
abbrev pub answer : Ret → ℕ × ℕ
answer (err e) = (pollerr, 1)
answer (val zero) = (0, 0)
answer (val (suc n)) = (pollin, 1)

module _ {K : Type 0} (sys_peek : ℤ → K → Option (Ret × K)) where
  -- One round over the descriptors: the number of those that are ready.
  unfoldable pub poll_round : List PollFd → K → Option (List PollFd × ℕ × K)
  poll_round [] k = some ([], 0, k)
  poll_round (p ∷ ps) k =
      if skipped p.fd
      then elim (poll_round ps k) [ none ↦ none | some (ps', n, k') ↦ some (p ∷ ps', n, k') ]
      else elim (sys_peek p.fd k) [
        | none ↦ none
        | some (r, k₁) ↦ elim (poll_round ps k₁) [
          | none ↦ none
          | some (ps', n, k₂) ↦
              some (record p { revents = (answer r).0 } ∷ ps', (answer r).1 + n, k₂)
        ]
      ]

  -- The rounds, on what happens between them: what the interrupts do to the state, and the time
  -- that `get_ms` then says. `none` if the loop goes on after the last of them.
  unfoldable pub poll_loop :
      ℕ → ℕ → List ((K → K) × ℕ) → List PollFd → K → Option (ℕ × List PollFd × K)
  poll_loop timeout end_time [] ps k = none
  poll_loop timeout end_time ((interrupts, now) ∷ rest) ps k = elim (poll_round ps k) [
    | none ↦ none
    | some (ps', n, k') ↦
        let again = poll_loop timeout end_time rest ps' (interrupts k') in
        if not (n == 0)
        then some (n, ps', k')
        else if timeout == 0 || ltb now end_time
        then again
        else some (0, ps', k')
  ]

  -- `start` is the time of the call; a time has 64 bits.
  unfoldable pub sys_poll :
      List PollFd → ℕ → ℕ → List ((K → K) × ℕ) → K → Option (ℕ × List PollFd × K)
  sys_poll fds timeout start rest k = poll_loop timeout ((start + timeout) % 2 ^ 64) rest fds k
