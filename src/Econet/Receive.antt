-- ===== src/Econet/Receive.antt =====
-- `econet_read`: a frame is handed out in pieces of the size asked for.
use native.Mathlib.Decide.{dec_lt}
use filestick.Base.{
  ℕ, zero, suc, ◌+◌, ◌%◌, ◌≤◌, ◌<◌, ◌≡◌, ap, ◌∙◌, ◌≢◌, true, false, Option, none, some, List, [],
  ◌++◌, append-nil, arith, ltb, if◌then◌else◌, take, drop, take-append-take, drop-drop, val,
}
use filestick.Econet.{
  Econet, is_ready, pending, consume, copy_size, econet_copy, econet_read, econet_peek, update,
}

module _ (fd : ℕ) where
  -- A frame is ready at the port of `fd`.
  pub record HasFrame (s : Econet) : Type 0 where
    pub no_monitor : s.mon ≡ 0
    pub bound : s.rx_portmap fd ≢ 0
    pub ready : is_ready (s.port_list (s.rx_portmap fd)) ≡ true

  read_copies :
      (count : ℕ) (s : Econet)
      → HasFrame s
      → econet_read fd count s ≡ some (econet_copy fd (s.rx_portmap fd) (copy_size count s) s)
  unfolding econet_read
  read_copies count s h = ground arith

  -- The bytes that a read short of the frame's end returns, and those that are then pending, make
  -- up what was pending.
  pending-consume :
      (n : ℕ) (s : Econet)
      → n ≤ s.buf_len
      → take n (drop s.buf_start s.rxbuf) ++ pending (consume n s) ≡ pending s
  pending-consume n s h =
      rw (← drop-drop s.rxbuf n s.buf_start)
        (take-append-take (drop s.buf_start s.rxbuf) n s.buf_len h)

  -- A client that reads `count` bytes at a time for as long as a frame is ready: all that it gets.
  pub read_frame : ℕ → ℕ → Econet → Option (List ℕ × Econet)
  read_frame zero count s = none
  read_frame (suc fuel) count s =
      if is_ready (s.port_list (s.rx_portmap fd))
      then elim (econet_read fd count s) [
        | none ↦ none
        | some (r, bytes, s') ↦ elim (read_frame fuel count s') [
          | none ↦ none
          | some (rest, s'') ↦ some (bytes ++ rest, s'')
        ]
      ]
      else some ([], s)

  -- What is left when the whole frame was read.
  pub record Drained (s s' : Econet) : Type 0 where
    pub given_back : is_ready (s'.port_list (s.rx_portmap fd)) ≡ false
    pub own_port : s'.port_list (s.rx_portmap fd) ≡ fd
    pub others : (p : ℕ) → p ≢ s.rx_portmap fd → s'.port_list p ≡ s.port_list p

  last_read :
      (fuel count : ℕ) (s : Econet)
      → fd < 16
      → HasFrame s
      → s.buf_len ≤ count
      → (s' : Econet) × (read_frame (suc (suc fuel)) count s ≡ some (pending s, s')) × Drained s s'
  unfolding read_frame
  last_read fuel count s small h le =
      let n : copy_size count s ≡ s.buf_len = ground arith in
      let whole : ltb s.buf_len s.buf_len ≡ false = ground arith in
      let mine : is_ready (fd % 256) ≡ false = ground arith in
      (
        record s { port_list = update s.port_list (s.rx_portmap fd) (fd % 256) },
        ground (arith, read_copies count s h, append-nil (pending s)),
        record {
          given_back = ground arith;
          own_port = ground arith;
          others = λ p ne. ground arith;
        },
      )

  read_step :
      (fuel count : ℕ) (s : Econet) {rest : List ℕ} {s' : Econet}
      → HasFrame s
      → count < s.buf_len
      → read_frame fuel count (consume count s) ≡ some (rest, s')
      → read_frame (suc fuel) count s ≡ some (take count (drop s.buf_start s.rxbuf) ++ rest, s')
  unfolding read_frame
  read_step fuel count s h lt q = ground (arith, read_copies count s h)

  read_frame-pending :
      (fuel count : ℕ) (s : Econet)
      → fd < 16
      → 0 < count
      → HasFrame s
      → s.buf_len < fuel
      → (s' : Econet) × (read_frame (suc fuel) count s ≡ some (pending s, s')) × Drained s s'
  read_frame-pending zero count s small pos h len = absurd (omega arith)
  read_frame-pending (suc fuel) count s small pos h len = elim (dec_lt count s.buf_len) [
    | yes lt ↦
        let (s', q, d) =
          read_frame-pending fuel count (consume count s) small pos
            (record { no_monitor = h.no_monitor; bound = h.bound; ready = h.ready })
            (omega arith) in
        (
          s',
          read_step (suc fuel) count s h lt q
              ∙ ap (λ l. some (l, s')) (pending-consume count s (omega arith)),
          record { given_back = d.given_back; own_port = d.own_port; others = d.others },
        )
    | no ge ↦ last_read fuel count s small h (omega arith)
  ]

  -- Reading a frame in pieces of any size but 0 gives exactly the bytes of the frame that were
  -- pending, in order; afterwards the port has no frame ready and is the reader's, and no other
  -- port has changed. `buf_len + 2` rounds are enough.
  pub econet_read-frame :
      (count : ℕ) (s : Econet)
      → fd < 16
      → 0 < count
      → HasFrame s
      → (s' : Econet) × (read_frame (s.buf_len + 2) count s ≡ some (pending s, s')) × Drained s s'
  econet_read-frame count s small pos h =
      let e : s.buf_len + 2 ≡ suc (s.buf_len + 1) = omega arith in
      rw e (read_frame-pending (s.buf_len + 1) count s small pos h (omega arith))

  -- A peek announces what can be read: with a frame ready, a read of as many bytes as the peek said
  -- returns the whole frame.
  pub econet_peek-read :
      (s : Econet)
      → HasFrame s
      → (econet_peek fd s ≡ val s.buf_len)
        × ((s' : Econet) × (econet_read fd s.buf_len s ≡ some (val s.buf_len, pending s, s')))
  unfolding econet_peek
  econet_peek-read s h = (
    ground arith,
    (
      record s { port_list = update s.port_list (s.rx_portmap fd) (fd % 256) },
      ground (arith, read_copies s.buf_len s h),
    ),
  )
