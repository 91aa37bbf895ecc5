-- ===== src/Poll/Tests.antt =====
-- Tests of the poll and of the LED: one descriptor that is ready in the second round.
use filestick.Base.{ℕ, ◌+◌, ◌<◌, ◌≡◌, refl, Option, some, List, [], ◌∷◌, map, Ret, val}
use filestick.Base.Int.{ℤ, pos, negsuc}
use filestick.Poll.{PollFd, poll_round, poll_loop, sys_poll}
use filestick.Poll.Ready.{ready_count, fd_of, sys_poll-ready_count}

-- The peek at any descriptor says how many bytes have arrived.
abbrev peek_bytes : ℤ → ℕ → Option (Ret × ℕ)
peek_bytes fd k = some (val k, k)

abbrev two_fds : List PollFd
two_fds =
    record { fd = negsuc 0; events = 0; revents = 0 }
    ∷ record { fd = pos 3; events = 1; revents = 0 }
    ∷ []

abbrev polled : List PollFd
polled =
    record { fd = negsuc 0; events = 0; revents = 0 }
    ∷ record { fd = pos 3; events = 1; revents = 1 }
    ∷ []

abbrev no_timeout : ℕ
no_timeout = 0

abbrev idle_round : (ℕ → ℕ) × ℕ
idle_round = (λ k. k + 5, 10)

polls : sys_poll peek_bytes two_fds 0 0 (idle_round ∷ idle_round ∷ []) 0 ≡ some (1, polled, 5)
unfolding sys_poll poll_loop poll_round
polls = refl

sys_poll-ready_count_example :
    (1 ≡ ready_count polled) × (map fd_of polled ≡ map fd_of two_fds) × (no_timeout ≡ 0 → 0 < 1)
sys_poll-ready_count_example =
    sys_poll-ready_count peek_bytes two_fds 0 0 (idle_round ∷ idle_round ∷ []) 0 polls
