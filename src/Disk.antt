-- ===== src/Disk.antt =====
-- The block devices under FatFs: system/diskio.c over system/flashdisc.c (child `Flash`) and
-- system/sd_ldio.c (here) with system/sd_io.c (child `Card`).
pub mod Card
pub mod Flash
pub mod Sectors
pub mod Drives
mod Tests
use filestick.Base.{
  ℕ, zero, suc, ◌+◌, ◌-◌, ◌*◌, ◌/◌, ◌%◌, ◌^◌, ◌≤◌, ◌<◌, min, max, bit_and, bit_or, bit_xor, ◌≡◌,
  refl, sym, ap, ap₂, ◌∙◌, fun_ext, ◌≢◌, ◌↔◌, ◌⊎◌, inl, inr, Bool, true, false, not, ◌&&◌, ◌||◌,
  Option, none, some, List, [], ◌∷◌, ◌++◌, map, append-nil, append_assoc, arith, ltb, leb, ◌==◌,
  if◌then◌else◌, ltb→lt, lt→ltb, leb→le, ==_iff, tests, Bool-cases, Option-cases, length, get_elem?,
  get_elem?-lt, get_elem?_of_lt, get_elem?-none, set, length-append, length-set, get_elem?-set_self,
  get_elem?-set_ne, get_or, take, drop, replicate, take-set_end, take-set_ge, take-take, take_all,
  take-append_self, take-append-take, take-append_left, drop-append_left, drop-append_self,
  drop-drop, take-append-drop, length-take, length-drop, length-replicate, length-map, Errno,
  enoent, eio, enoexec, ebadf, enomem, eexist, einval, enfile, emfile, espipe, erofs, emsgsize,
  edestaddrreq, ehostunreach, etimedout, efatfs, Ret, val, err,
}
use filestick.Disk.Card.{Bus, sd_init, sd_readsingleblk, sd_writesingleblk}

pub data DResult : Type 0 where
  res_ok res_error res_wrprt res_notrdy res_parerr : DResult

-- STA_NOINIT of a DSTATUS.
abbrev pub sta_noinit : ℕ
sta_noinit = 1

-- The codes of `disk_ioctl`.
abbrev pub ctrl_sync : ℕ
ctrl_sync = 0

abbrev pub get_sector_count : ℕ
get_sector_count = 1

abbrev pub get_sector_size : ℕ
get_sector_size = 2

abbrev pub get_block_size : ℕ
get_block_size = 3

abbrev pub ctrl_trim : ℕ
ctrl_trim = 4

-- `SET_UINT32`
abbrev pub uint32_at : List ℕ → ℕ → ℕ
uint32_at bytes i =
    get_or bytes i 0
    + get_or bytes (i + 1) 0 * 2 ^ 8
    + get_or bytes (i + 2) 0 * 2 ^ 16
    + get_or bytes (i + 3) 0 * 2 ^ 24

-- The members of `PTEntry` that are used.
pub record PtEntry : Type 0 where
  pub startlba : ℕ
  pub sectors : ℕ

-- `fill_pte`: after eight bytes of status and geometry.
unfoldable pub fill_pte : List ℕ → PtEntry
fill_pte ptebytes = record { startlba = uint32_at ptebytes 8; sectors = uint32_at ptebytes 12 }

module _ (bus : Bus) where
  open bus use {Wire}

  -- The variables of system/sd_ldio.c, and the bus.
  pub record Sd : Type 0 where
    pub lba_offset : ℕ
    pub lba_sectors : ℕ
    pub sd_status : ℕ
    pub wire : Wire

  abbrev got_table : Sd → ℕ × ℕ × List ℕ × Wire → DResult × Sd
  got_table s (rx, token, bootsect, w) =
      if not (token == 0xFE) || ltb 1 rx
      then (res_error, record s { wire = w })
      else let pte = fill_pte (drop 0x1BE bootsect) in
        (
          res_ok,
          record { lba_offset = pte.startlba; lba_sectors = pte.sectors; sd_status = 0; wire = w },
        )

  unfoldable pub sd_read_pt : Sd → DResult × Sd
  sd_read_pt s = got_table s (sd_readsingleblk bus 0 s.wire)

  -- The loop of `sd_read`, from the physical sector on; the bytes are those that reached the
  -- buffer.
  unfoldable pub read_sectors : ℕ → ℕ → Wire → DResult × List ℕ × Wire
  read_sectors phys zero w = (res_ok, [], w)
  read_sectors phys (suc count) w =
      let (rx, token, bytes, w₁) = sd_readsingleblk bus phys w in
      let rest = read_sectors ((phys + 1) % 2 ^ 32) count w₁ in
      if not (token == 0xFE) || ltb 1 rx
      then (res_error, bytes, w₁)
      else (rest.0, bytes ++ rest.1, rest.2)

  unfoldable pub sd_read : ℕ → ℕ → Sd → DResult × List ℕ × Sd
  sd_read sector count s =
      let (r, bytes, w) = read_sectors ((sector + s.lba_offset) % 2 ^ 32) count s.wire in
      (r, bytes, record s { wire = w })

  -- The loop of `sd_write`. After the last sector the function ends without a `return`: `none` is
  -- that its value is indeterminate.
  unfoldable pub write_sectors : ℕ → ℕ → ℕ → List ℕ → Wire → Option DResult × Wire
  write_sectors phys zero token buf w = (none, w)
  write_sectors phys (suc count) token buf w =
      let (rx, token', w₁) = sd_writesingleblk bus phys (take 512 buf) token w in
      let rest = write_sectors ((phys + 1) % 2 ^ 32) count token' (drop 512 buf) w₁ in
      if not (token' == 0x05) || not (rx == 0) then (some res_error, w₁) else rest

  unfoldable pub sd_write : ℕ → ℕ → ℕ → List ℕ → Sd → Option DResult × Sd
  sd_write junk sector count buf s =
      let (r, w) = write_sectors ((sector + s.lba_offset) % 2 ^ 32) count junk buf s.wire in
      (r, record s { wire = w })

  -- What is stored through the pointer, if anything.
  unfoldable pub sd_ioctl : ℕ → Sd → DResult × Option ℕ
  sd_ioctl cmd s =
      if cmd == ctrl_sync
      then (res_ok, none)
      else if cmd == get_sector_count
      then (res_ok, some s.lba_sectors)
      else if cmd == get_sector_size
      then (res_ok, some 512)
      else if cmd == get_block_size
      then (res_ok, some 512)
      else if cmd == ctrl_trim
      then (res_ok, none)
      else (res_parerr, none)

  -- `disk_status`, `disk_initialize` for the two drives: 0 is the flash, 1 the card. The flash's
  -- part is an argument.
  unfoldable pub disk_status : ℕ → Sd → ℕ
  disk_status pdrv s = if pdrv == 0 then 0 else if pdrv == 1 then s.sd_status else sta_noinit

  abbrev dresult_code : DResult → ℕ
  dresult_code res_ok = 0
  dresult_code res_error = 1
  dresult_code res_wrprt = 2
  dresult_code res_notrdy = 3
  dresult_code res_parerr = 4

  abbrev sd_started : Sd → Bool × Wire → ℕ × Sd
  sd_started s (ok, w) =
      if ok
      then (let (r, s') = sd_read_pt (record s { wire = w }) in (dresult_code r, s'))
      else (sta_noinit, record s { wire = w })

  unfoldable pub disk_initialize_card : Sd → ℕ × Sd
  disk_initialize_card s = sd_started s (sd_init bus s.wire)
