-- ===== src/Disk/Sectors.antt =====
-- Reads and writes of several sectors of the SD card.
use filestick.Base.{
  [], true, false, ◌&&◌, leb, append-nil, ℕ, zero, suc, ◌+◌, ◌%◌, ◌^◌, ◌<◌, ◌≡◌, refl, sym, ap, ◌∙◌,
  ◌⊎◌, inl, inr, Bool, not, ◌||◌, none, some, List, ◌++◌, append_assoc, arith, ltb, ◌==◌,
  Bool-cases, take, drop,
}
use filestick.Disk.{
  DResult, res_ok, res_error, res_wrprt, res_notrdy, res_parerr, Sd, read_sectors, write_sectors,
  sd_write, sd_read,
}
use filestick.Disk.Card.{Bus, sd_readsingleblk, sd_writesingleblk}

module _ (bus : Bus) where
  open bus use {Wire}

  -- One read after another, as `sd_read` reports them.
  abbrev pub then_read :
      (Wire → DResult × List ℕ × Wire) → DResult × List ℕ × Wire → DResult × List ℕ × Wire
  then_read next (res_ok, bytes, w) = let (r, more, w') = next w in (r, bytes ++ more, w')
  then_read next (r, bytes, w) = (r, bytes, w)

  abbrev with_bytes : List ℕ → DResult × List ℕ × Wire → DResult × List ℕ × Wire
  with_bytes bytes (r, more, w) = (r, bytes ++ more, w)

  then_read-with_bytes :
      (next : Wire → DResult × List ℕ × Wire) (bytes : List ℕ) (x : DResult × List ℕ × Wire)
      → then_read next (with_bytes bytes x) ≡ with_bytes bytes (then_read next x)
  then_read-with_bytes next bytes (res_ok, more, w) =
      ap (λ l. ((next w).0, l, (next w).2)) (append_assoc bytes more (next w).1)
  then_read-with_bytes next bytes (res_error, more, w) = refl
  then_read-with_bytes next bytes (res_wrprt, more, w) = refl
  then_read-with_bytes next bytes (res_notrdy, more, w) = refl
  then_read-with_bytes next bytes (res_parerr, more, w) = refl

  abbrev bad_block : ℕ → Wire → Bool
  bad_block phys w =
      let (rx, token, _, _) = sd_readsingleblk bus phys w in not (token == 0xFE) || ltb 1 rx

  -- From a 32-bit sector number, a read of `m + n` sectors is a read of the first `m` and then, if
  -- that succeeds, of the `n` that follow them: the buffers stand one after the other, and the
  -- first error ends it.
  pub read_sectors-add :
      (phys m n : ℕ) (w : Wire)
      → phys < 2 ^ 32
      → read_sectors bus phys (m + n) w
        ≡ then_read (read_sectors bus ((phys + m) % 2 ^ 32) n) (read_sectors bus phys m w)
  unfolding read_sectors
  read_sectors-add phys zero n w h =
      let e : (phys + 0) % 2 ^ 32 ≡ phys = omega arith in
      let z : 0 + n ≡ n = omega arith in rw (e, z) refl
  read_sectors-add phys (suc m) n w h = elim (Bool-cases (bad_block phys w)) [
    | inl b ↦ let z : suc m + n ≡ suc (m + n) = omega arith in rw (z, b) refl
    | inr b ↦
        let (_, _, bytes, w₁) = sd_readsingleblk bus phys w in
        let phys' = (phys + 1) % 2 ^ 32 in
        let e : (phys' + m) % 2 ^ 32 ≡ (phys + suc m) % 2 ^ 32 = omega arith in
        let z : suc m + n ≡ suc (m + n) = omega arith in
        rw (z, b, ← e)
          (ap (λ x. with_bytes bytes x) (read_sectors-add phys' m n w₁ (omega arith))
            ∙ sym (
                then_read-with_bytes (read_sectors bus ((phys' + m) % 2 ^ 32) n) bytes
                  (read_sectors bus phys' m w₁)))
  ]

  -- The number of the sector after `k` more, and the bus after they were asked for one by one.
  abbrev pub sector_at : ℕ → ℕ → Wire → ℕ × Wire
  sector_at phys zero w = (phys, w)
  sector_at phys (suc k) w =
      let (_, _, _, w₁) = sd_readsingleblk bus phys w in sector_at ((phys + 1) % 2 ^ 32) k w₁

  -- What the card sends of `k` sectors.
  abbrev pub sent_by_card : ℕ → ℕ → Wire → List ℕ
  sent_by_card phys zero w = []
  sent_by_card phys (suc k) w =
      let (_, _, bytes, w₁) = sd_readsingleblk bus phys w in
      bytes ++ sent_by_card ((phys + 1) % 2 ^ 32) k w₁

  -- The card answers the request for the sector after `k` more without an error, and sends the token
  -- before its bytes.
  abbrev pub accepted : ℕ → ℕ → Wire → Bool
  accepted phys k w =
      let (p, w') = sector_at phys k w in
      let (rx, token, _, _) = sd_readsingleblk bus p w' in token == 0xFE && leb rx 1

  -- A read that takes so many sectors, and ends well or with the sector after them.
  abbrev pub Ends : ℕ → ℕ → Wire → DResult × List ℕ × Wire → ℕ → Type 0
  Ends phys n w out k =
      ((i : ℕ) → i < k → accepted phys i w ≡ true)
      × (((k ≡ n) × (out ≡ (res_ok, sent_by_card phys n w, (sector_at phys n w).1)))
          ⊎ ((k < n)
              × (accepted phys k w ≡ false)
              × (out ≡ (res_error, sent_by_card phys (suc k) w, (sector_at phys (suc k) w).1))))

  not_bad : (phys : ℕ) (w : Wire) → accepted phys 0 w ≡ not (bad_block phys w)
  not_bad phys w = ground arith

  one_more :
      (phys n k : ℕ) (w : Wire)
      → bad_block phys w ≡ false
      → let (_, _, bytes, w₁) = sd_readsingleblk bus phys w in
        let phys' = (phys + 1) % 2 ^ 32 in
        Ends phys' n w₁ (read_sectors bus phys' n w₁) k
        → Ends phys (suc n) w (read_sectors bus phys (suc n) w) (suc k)
  unfolding read_sectors
  one_more phys n k w good (all, ends) =
      let (_, _, bytes, w₁) = sd_readsingleblk bus phys w in
      let first : accepted phys 0 w ≡ true = not_bad phys w ∙ ap not good in
      (
        upto first all,
        elim ends [
          | inl (e, q) ↦ inl (omega arith, rw (read_sectors, good) (ap (with_bytes bytes) q))
          | inr (l, a, q) ↦ inr (omega arith, a, rw (read_sectors, good) (ap (with_bytes bytes) q))
        ],
      )
    where
      upto :
          accepted phys 0 w ≡ true
          → ((i : ℕ) → i < k → accepted phys (suc i) w ≡ true)
          → (i : ℕ) → i < suc k
          → accepted phys i w ≡ true
      upto first all zero l = first
      upto first all (suc i) l = all i (omega arith)

  read_sectors-Ends :
      (phys n : ℕ) (w : Wire) → (k : ℕ) × Ends phys n w (read_sectors bus phys n w) k
  unfolding read_sectors
  read_sectors-Ends phys zero w = (0, ((λ i l. absurd (omega arith)), inl (refl, refl)))
  read_sectors-Ends phys (suc n) w = elim (Bool-cases (bad_block phys w)) [
    | inl b ↦
        let (_, _, bytes, w₁) = sd_readsingleblk bus phys w in
        (
          0,
          (
            (λ i l. absurd (omega arith)),
            inr (
              omega arith,
              not_bad phys w ∙ ap not b,
              rw (read_sectors, b) (ap (λ l. (res_error, l, w₁)) (sym (append-nil bytes))),
            ),
          ),
        )
    | inr b ↦
        let (_, _, bytes, w₁) = sd_readsingleblk bus phys w in
        let (k, ends) = read_sectors-Ends ((phys + 1) % 2 ^ 32) n w₁ in
        (suc k, one_more phys n k w b ends)
  ]

  -- `sd_read` of some sectors asks the card for them one after the other, from the sector's number in
  -- the partition on. If it answers each without an error and sends the token, the read succeeds with
  -- the bytes of all of them, one after the other; at the first sector where it does not, the read
  -- ends with RES_ERROR, and no further sector is asked for. The buffer then has the bytes of the
  -- sectors before, and what the card sent of that one. The variables of the driver are as they were.
  pub sd_read-Ends :
      (sector n : ℕ) (s : Sd bus)
      → let phys = (sector + s.lba_offset) % 2 ^ 32 in
        let (r, bytes, s') = sd_read bus sector n s in
        (k : ℕ) × Ends phys n s.wire (r, bytes, s'.wire) k × (s' ≡ record s { wire = s'.wire })
  unfolding sd_read
  sd_read-Ends sector n s =
      let (k, ends) = read_sectors-Ends ((sector + s.lba_offset) % 2 ^ 32) n s.wire in
      (k, ends, refl)

  -- `sd_write` never reports success: its value is RES_ERROR, or it ends without one.
  pub sd_write-no_ok :
      (junk sector count : ℕ) (buf : List ℕ) (s : Sd bus)
      → ((sd_write bus junk sector count buf s).0 ≡ none)
        ⊎ ((sd_write bus junk sector count buf s).0 ≡ some res_error)
  unfolding sd_write write_sectors
  sd_write-no_ok junk sector count buf s =
      written ((sector + s.lba_offset) % 2 ^ 32) count junk buf s.wire
    where
      written :
          (phys count token : ℕ) (buf : List ℕ) (w : Wire)
          → ((write_sectors bus phys count token buf w).0 ≡ none)
            ⊎ ((write_sectors bus phys count token buf w).0 ≡ some res_error)
      written phys zero token buf w = inl refl
      written phys (suc count) token buf w =
          let (rx, token', w₁) = sd_writesingleblk bus phys (take 512 buf) token w in
          elim (Bool-cases (not (token' == 0x05) || not (rx == 0))) [
            | inl b ↦ rw b (inr refl)
            | inr b ↦ rw b (written ((phys + 1) % 2 ^ 32) count token' (drop 512 buf) w₁)
          ]
