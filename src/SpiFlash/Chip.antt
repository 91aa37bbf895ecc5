-- ===== src/SpiFlash/Chip.antt =====
-- The flash chip as the driver meets it: commands that are sent between two changes of the slave
-- select, and the contents that `flash_memcpy` reads. The laws are what the data sheet of such a
-- chip says of the commands that the driver uses; addresses have 24 bits.
use filestick.Base.{
  ℕ, zero, suc, ◌+◌, ◌*◌, ◌/◌, ◌%◌, ◌≡◌, ◌≢◌, Bool, true, List, [], ◌∷◌, ◌==◌, if◌then◌else◌,
  length, get_or, replicate,
}

pub record FlashChip : Type 1 where
  pub Chip : Type 0
  -- The byte at an address.
  pub cell : Chip → ℕ → ℕ
  -- One command: the bytes that are sent while the chip is selected.
  pub send : List ℕ → Chip → Chip
  -- How often the status register will still read busy.
  pub busy : Chip → ℕ
  pub ready : Chip → Bool
  -- Polling the status register until it does not read busy makes the chip ready and changes
  -- nothing.
  pub poll_ready : (c : Chip) → ready (send (0x05 ∷ replicate (busy c + 1) 0xFF) c) ≡ true
  pub poll_cell :
      (c : Chip) (a : ℕ) → cell (send (0x05 ∷ replicate (busy c + 1) 0xFF) c) a ≡ cell c a
  -- Write enable and sector erase: the 4k sector of the address reads 0xFF.
  pub erase_cell :
      (c : Chip) (a₂ a₁ a₀ a : ℕ)
      → ready c ≡ true
      → cell (send (0x20 ∷ a₂ ∷ a₁ ∷ a₀ ∷ []) (send (0x06 ∷ []) c)) a
        ≡ (if a / 4096 == (a₂ * 65536 + a₁ * 256 + a₀) / 4096 then 0xFF else cell c a)
  -- Write enable and page program of one whole page: an erased byte takes the value sent, and bytes
  -- outside the page are kept.
  pub program_in :
      (c : Chip) (a₂ a₁ a a₀ : ℕ) (page : List ℕ)
      → ready c ≡ true
      → length page ≡ 256
      → a₀ ≡ 0
      → a / 256 ≡ a₂ * 256 + a₁
      → cell c a ≡ 0xFF
      → cell (send (0x02 ∷ a₂ ∷ a₁ ∷ a₀ ∷ page) (send (0x06 ∷ []) c)) a ≡ get_or page (a % 256) 0xFF
  pub program_out :
      (c : Chip) (a₂ a₁ a a₀ : ℕ) (page : List ℕ)
      → ready c ≡ true
      → length page ≡ 256
      → a₀ ≡ 0
      → a / 256 ≢ a₂ * 256 + a₁
      → cell (send (0x02 ∷ a₂ ∷ a₁ ∷ a₀ ∷ page) (send (0x06 ∷ []) c)) a ≡ cell c a

-- `n` bytes from an address on.
abbrev pub cells : (fc : FlashChip) → fc.Chip → ℕ → ℕ → List ℕ
cells fc c a zero = []
cells fc c a (suc n) = fc.cell c a ∷ cells fc c (a + 1) n
