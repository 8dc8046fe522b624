-- ===== src/Fs/Disk.antt =====
-- What the block functions of src/kernel/fs/fs.c do on a disk that works.
use lux_kernel.Base.{
  ℕ, ◌+◌, ◌-◌, ◌≤◌, ◌≡◌, refl, sym, ap, ◌∙◌, true, some, List, arith, length, get_or, take, ◌==◌,
  if◌then◌else◌,
}
use lux_kernel.Device.{Device}
use lux_kernel.Bytes.{At, take-bytes}
use lux_kernel.Strings.{memcpy}
use lux_kernel.Strings.Copy.{get_or-memcpy, length-memcpy}
use lux_kernel.Fs.{Sys, M, ok, ◌>>=◌, start_lba, total_sectors}
use lux_kernel.Fs.Blocks.{zeros, ata_read, ata_write, disk_read_block, disk_write_block}

-- A device that is ready and large enough, whose reads and writes of a sector succeed: a sector has the
-- bytes that were written last.
pub record Works {D : Type 0} (dev : Device D) : Type 0 where
  pub content : D → ℕ → List ℕ
  pub ready : (d : D) → dev.ready d ≡ true
  pub large : (d : D) → start_lba + total_sectors ≤ dev.total_sectors d
  pub reads : (lba : ℕ) (d : D) → (dev.read lba d).0 ≡ some (content d lba)
  pub reading : (lba : ℕ) (d : D) (x : ℕ) → content (dev.read lba d).1 x ≡ content d x
  pub writes : (lba : ℕ) (bytes : List ℕ) (d : D) → (dev.write lba bytes d).0 ≡ true
  pub writing :
      (lba : ℕ) (bytes : List ℕ) (d : D) (x : ℕ)
      → content (dev.write lba bytes d).1 x ≡ (if x == lba then bytes else content d x)

module _ {D A B : Type 0} where
  pub bind-ok :
      (m : M D A) (k : A → M D B) (s s' : Sys D) (a : A) → m s ≡ (ok a, s') → (m >>= k) s ≡ k a s'
  unfolding ◌>>=◌
  bind-ok m k s s' a e = rw e refl

module _ {D : Type 0} (dev : Device D) (works : Works dev) where
  -- The state of the device behind a write and a read.
  abbrev pub written : ℕ → List ℕ → D → D
  written block bytes d = (dev.write (start_lba + block) bytes d).1

  abbrev pub after_read : ℕ → D → D
  after_read block d = (dev.read (start_lba + block) d).1

  abbrev pub block_at : D → ℕ → List ℕ
  block_at d block = works.content d (start_lba + block)

  pub write-ok :
      (block : ℕ) (bytes : List ℕ) (s : Sys D)
      → disk_write_block dev block bytes s ≡ (ok tt, record s { disk = written block bytes s.disk })
  unfolding disk_write_block ata_write
  write-ok block bytes s = rw (works.writes (start_lba + block) bytes s.disk) refl

  pub read-ok :
      (block : ℕ) (s : Sys D)
      → disk_read_block dev block s
        ≡ (ok (block_at s.disk block), record s { disk = after_read block s.disk })
  unfolding disk_read_block ata_read
  read-ok block s = rw (works.reads (start_lba + block) s.disk) refl

  pub block_at-written :
      (block : ℕ) (bytes : List ℕ) (d : D) (x : ℕ)
      → block_at (written block bytes d) x ≡ (if x == block then bytes else block_at d x)
  block_at-written block bytes d x =
      works.writing (start_lba + block) bytes d (start_lba + x) ∙ ground arith

At-copied :
    (bytes array : List ℕ) (n : ℕ)
    → length bytes ≡ n
    → n ≤ length array
    → At 0 bytes (memcpy array 0 bytes 0 n)
At-copied bytes array n size fits i lt =
    get_or-memcpy array 0 bytes 0 n (0 + i) (omega (arith, fits))
    ∙ ground
        (arith, ap (λ j. get_or bytes j 0) {x = 0 + (0 + i - 0)} {y = i} (omega arith), lt, size)

-- A sector made of some bytes and zeros.
pub At-sector :
    (bytes : List ℕ) (n : ℕ) → length bytes ≡ n → n ≤ 512 → At 0 bytes (memcpy zeros 0 bytes 0 n)
At-sector bytes n size fits = At-copied bytes zeros n size fits

pub take-sector :
    (bytes : List ℕ) (n : ℕ)
    → length bytes ≡ n
    → n ≤ 512
    → take n (memcpy zeros 0 bytes 0 n) ≡ bytes
take-sector bytes n size fits =
    ap (λ k. take k (memcpy zeros 0 bytes 0 n)) (sym size)
    ∙ take-bytes bytes (memcpy zeros 0 bytes 0 n)
        (omega (arith, length-memcpy zeros 0 bytes 0 n, size, fits))
        (λ i lt.
          ap (λ j. get_or (memcpy zeros 0 bytes 0 n) j 0) {x = i} {y = 0 + i} (omega arith)
          ∙ At-sector bytes n size fits i lt)
