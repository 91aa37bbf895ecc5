-- ===== src/Disk/Drives.antt =====
-- system/diskio.c: the calls that FatFs makes, by drive number: 0 is the flash, 1 the SD card.
use filestick.Base.{
  ℕ, ◌≡◌, refl, ◌⊎◌, Option, none, some, List, [], arith, ◌==◌, if◌then◌else◌, Ret,
}
use filestick.Fd.{FdFunction, Kernel}
use filestick.Disk.{
  DResult, res_ok, res_parerr, sta_noinit, Sd, sd_read, sd_write, sd_ioctl, disk_initialize_card,
}
use filestick.Disk.Card.{Bus}
use filestick.Disk.Flash.{FlashDisc, intflash_init, intflash_read, intflash_write, intflash_ioctl}

module _ {D S : Type 0} (funcs : D → FdFunction S) (bus : Bus) where
  pub record Drives : Type 0 where
    pub flash : FlashDisc funcs
    pub card : Sd bus

  unfoldable pub disk_initialize :
      (List ℕ → ℕ → Kernel D S → Option (Ret × Kernel D S)) → ℕ → Drives → Option (ℕ × Drives)
  disk_initialize sys_open pdrv s =
      if pdrv == 0
      then elim (intflash_init funcs sys_open s.flash) [
        | none ↦ none
        | some (r, f) ↦ some (r, record s { flash = f })
      ]
      else if pdrv == 1
      then some (
        (disk_initialize_card bus s.card).0,
        record s { card = (disk_initialize_card bus s.card).1 },
      )
      else some (sta_noinit, s)

  unfoldable pub disk_read : ℕ → ℕ → ℕ → Drives → Option (DResult × List ℕ × Drives)
  disk_read pdrv sector count s =
      if pdrv == 0
      then elim (intflash_read funcs sector count s.flash) [
        | none ↦ none
        | some (r, bytes, f) ↦ some (r, bytes, record s { flash = f })
      ]
      else if pdrv == 1
      then (let (r, bytes, c) = sd_read bus sector count s.card in
          some (r, bytes, record s { card = c }))
      else some (res_parerr, [], s)

  -- `junk` is what the token variable held; an outer `none` is a fault, an inner one no value.
  unfoldable pub disk_write : ℕ → ℕ → List ℕ → ℕ → ℕ → Drives → Option (Option DResult × Drives)
  disk_write junk pdrv buff sector count s =
      if pdrv == 0
      then elim (intflash_write funcs buff sector count s.flash) [
        | none ↦ none
        | some (r, f) ↦ some (some r, record s { flash = f })
      ]
      else if pdrv == 1
      then (let (r, c) = sd_write bus junk sector count buff s.card in
          some (r, record s { card = c }))
      else some (some res_parerr, s)

  -- The result, what is stored through the pointer, and the drives.
  unfoldable pub disk_ioctl :
      (Kernel D S → Kernel D S) → ℕ → ℕ → Drives → DResult × Option ℕ × Drives
  disk_ioctl spiflash_sync pdrv cmd s =
      if pdrv == 0
      then (let (r, v, f) = intflash_ioctl funcs spiflash_sync cmd s.flash in
          (r, v, record s { flash = f }))
      else if pdrv == 1
      then ((sd_ioctl bus cmd s.card).0, (sd_ioctl bus cmd s.card).1, s)
      else (res_parerr, none, s)

  -- FatFs asks a drive for its number of sectors: the card answers with the size of its partition,
  -- but the flash says RES_OK and stores nothing, for this and the other requests for a number.
  pub disk_ioctl-sectors :
      (spiflash_sync : Kernel D S → Kernel D S) (cmd : ℕ) (s : Drives)
      → (cmd ≡ 1) ⊎ (cmd ≡ 2) ⊎ (cmd ≡ 3)
      → (disk_ioctl spiflash_sync 0 cmd s ≡ (res_ok, none, s))
        × (disk_ioctl spiflash_sync 1 1 s ≡ (res_ok, some s.card.lba_sectors, s))
  unfolding disk_ioctl intflash_ioctl sd_ioctl
  disk_ioctl-sectors spiflash_sync cmd s h = (ground arith, refl)
