-- ===== src/Disk/Card.antt =====
-- system/sd_io.c: an SD card on the SPI bus. The bus is hardware (system/spi.S): one byte or a
-- block of bytes is exchanged.
use filestick.Base.{
  ℕ, zero, suc, ◌/◌, ◌%◌, ◌^◌, Bool, true, false, not, List, [], ◌∷◌, ltb, ◌==◌, if◌then◌else◌,
}

pub record Bus : Type 1 where
  pub Wire : Type 0
  -- `spi_set_slave(SD_SLAVE_ID)`
  pub select : Wire → Wire
  pub spi_byte : ℕ → Wire → ℕ × Wire
  pub spi_write : List ℕ → Wire → Wire
  pub spi_read : ℕ → Wire → List ℕ × Wire

-- A command with its checksum.
abbrev pub sd_cmd : ℕ → ℕ → ℕ → List ℕ
sd_cmd cmd arg crc =
    cmd ∷ arg / 2 ^ 24 % 256 ∷ arg / 2 ^ 16 % 256 ∷ arg / 2 ^ 8 % 256 ∷ arg % 256 ∷ crc ∷ []

module _ (bus : Bus) where
  open bus use {Wire, select, spi_byte, spi_write, spi_read}

  -- Reads until a byte differs from `idle`, at most `n` times: the last byte, and whether one did.
  unfoldable pub read_while : ℕ → ℕ → ℕ → Wire → Bool × ℕ × Wire
  read_while idle zero last w = (false, last, w)
  read_while idle (suc n) last w =
      let (b, w') = spi_byte 0xFF w in
      let rest = read_while idle n b w' in if b == idle then rest else (true, b, w')

  unfoldable pub sd_readres1 : Wire → ℕ × Wire
  sd_readres1 w = let (_, b, w') = read_while 0xFF 255 0xFF w in (b, w')

  unfoldable pub read_bytes : ℕ → Wire → Wire
  read_bytes zero w = w
  read_bytes (suc n) w = read_bytes n (spi_byte 0xFF w).1

  -- Four bytes follow the first only if it is at most 1.
  unfoldable pub sd_readres37 : Wire → ℕ × Wire
  sd_readres37 w =
      let (r1, w₁) = sd_readres1 w in if ltb 1 r1 then (r1, w₁) else (r1, read_bytes 4 w₁)

  -- The initialisation of the card, at most 51 rounds of ACMD41.
  unfoldable pub init_loop : ℕ → Wire → Bool × Wire
  init_loop zero w = (false, w)
  init_loop (suc n) w =
      let (rx, w₁) = sd_readres1 (spi_write (sd_cmd 0x77 0 0) w) in
      let (rx', w₂) =
        if ltb rx 2 then sd_readres1 (spi_write (sd_cmd 0x69 0x40000000 0) w₁) else (rx, w₁) in
      let rest = init_loop n w₂ in if rx' == 0 then (true, w₂) else rest

  abbrev read_ocr : Bool × Wire → Bool × Wire
  read_ocr (ok, w) =
      let (r1, w') = sd_readres37 (spi_write (sd_cmd 0x7A 0 0) w) in
      if ok then (not (ltb 1 r1), w') else (false, w)

  -- Whether `sd_init` returns SD_SUCCESS; its error codes are not told apart by its caller.
  unfoldable pub sd_init : Wire → Bool × Wire
  sd_init w =
      let (rx, w₁) = sd_readres1 (spi_write (sd_cmd 0x40 0 0x95) (read_bytes 10 (select w))) in
      let (r1, w₂) = sd_readres37 (spi_write (sd_cmd 0x48 0x1AA 0x87) w₁) in
      if not (rx == 1)
      then (false, w₁)
      else if ltb 1 r1
      then (false, w₂)
      else read_ocr (init_loop 51 w₂)

  -- After the data token: 512 bytes and two of checksum.
  abbrev pub block_read : ℕ → Bool × ℕ × Wire → ℕ × ℕ × List ℕ × Wire
  block_read rx (_, token, w) =
      if token == 0xFE
      then (let (bytes, w') = spi_read 512 w in (rx, token, bytes, read_bytes 2 w'))
      else (rx, token, [], w)

  -- The first answer, the token and the bytes that were stored.
  unfoldable pub sd_readsingleblk : ℕ → Wire → ℕ × ℕ × List ℕ × Wire
  sd_readsingleblk addr w =
      let (rx, w₁) = sd_readres1 (spi_write (sd_cmd 0x51 addr 0) (select w)) in
      if rx == 0xFF then (rx, 0xFF, [], w₁) else block_read rx (read_while 0xFF 65534 0xFF w₁)

  -- The wait while the card is busy: it is done when a byte is not 0.
  abbrev pub block_accepted : ℕ → Bool × ℕ × Wire → ℕ × ℕ × Wire
  block_accepted rx (_, answer, w) =
      let (done, _, w') = read_while 0 65535 0 w in
      if answer % 2 ^ 5 == 0x05 then (rx, if done then 0x05 else 0, w') else (rx, answer % 2 ^ 5, w)

  -- `token` keeps what it was where the card refuses the command.
  unfoldable pub sd_writesingleblk : ℕ → List ℕ → ℕ → Wire → ℕ × ℕ × Wire
  sd_writesingleblk addr buf token w =
      let (rx, w₁) = sd_readres1 (spi_write (sd_cmd 0x58 addr 0) (select w)) in
      if rx == 0
      then block_accepted rx (read_while 0xFF 65535 0xFF (spi_write buf (spi_byte 0xFE w₁).1))
      else (rx, token, w₁)
