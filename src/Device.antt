-- ===== src/Device.antt =====
-- The block device as src/kernel/fs/fs.c uses it: `ata_pio_read` and `ata_pio_write` of one sector,
-- `ata_pio_init`, `ata_pio_ready` and `ata_pio_total_sectors` (src/include/lux/ata.h). `D` is the state
-- of the driver and the disk. A read that fails gives no sector.
use lux_kernel.Base.{ℕ, Bool, Option, List}

abbrev pub sector_size : ℕ
sector_size = 512

pub record Device (D : Type 0) : Type 0 where
  pub read : ℕ → D → Option (List ℕ) × D
  pub write : ℕ → List ℕ → D → Bool × D
  pub ready : D → Bool
  pub init : D → Bool × D
  pub total_sectors : D → ℕ
