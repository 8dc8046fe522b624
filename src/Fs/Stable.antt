-- ===== src/Fs/Stable.antt =====
-- What the functions of src/kernel/fs/fs.c change in `g_fs`, block input and output and the allocators:
-- a predicate that the writes of inodes and of bits keep is kept by each of them.
pub mod Alloc
pub mod Directory
pub mod Api
use lux_kernel.Base.{
  ℕ, zero, suc, ◌+◌, ◌-◌, ◌*◌, ◌/◌, ◌%◌, ◌≡◌, refl, Bool, true, false, not, Option, none, some,
  List, [], ◌∷◌, leb, ltb, ◌==◌, if◌then◌else◌, set, get_or,
}
use lux_kernel.Device.{Device}
use lux_kernel.Strings.{memcpy}
use lux_kernel.Fs.{
  Fs, Sys, Outcome, ok, fail, fault, M, ◌>>=◌, ◌>>◌, pure, failed, faulted, attempt, ignore, guard,
  get, put, inode, set_inode, max_inodes, direct_blocks, invalid_block, data_block_count,
  data_block_start, start_lba, inode_table_blocks,
}
use lux_kernel.Fs.Layout.{Inode}
use lux_kernel.Fs.Bitmap.{bitmap_test, bitmap_set}
use lux_kernel.Fs.Blocks.{
  ata_read, ata_write, disk_read_block, disk_write_block, disk_read_data_block,
  disk_write_data_block, flush_superblock, flush_inode_bitmap, flush_block_bitmap,
  flush_inode_block, flush_inode, flush_inode_blocks, inode_clear,
}
use lux_kernel.Fs.Alloc.{
  first_clear, take_inode, alloc_inode, take_block, alloc_block, free_block, release_loop,
  release_inode_blocks, mark_inode_free,
}
use lux_kernel.Fs.Keeps.{
  Leads, Keeps, Keeps-pure, Keeps-failed, Keeps-faulted, Leads-if, Leads-attempt, Keeps-guard,
  Keeps-inode, Leads-put, Keeps-bind, Leads-get, Keeps-ignore,
}

pub record Stable (P : Fs → Type 0) : Type 0 where
  pub table : (fs : Fs) (i : ℕ) (n : Inode) → P fs → P (record fs { inodes = set fs.inodes i n })
  pub inode_bit :
      (fs : Fs) (i : ℕ) (v : Bool)
      → P fs
      → P (record fs { inode_bitmap = bitmap_set fs.inode_bitmap i v })
  pub block_bit :
      (fs : Fs) (i : ℕ) (v : Bool)
      → P fs
      → P (record fs { block_bitmap = bitmap_set fs.block_bitmap i v })

-- Input and output leave `g_fs` alone.
module _ {D : Type 0} (dev : Device D) {P : Fs → Type 0} where
  pub Keeps-ata_read : (lba : ℕ) → Keeps P (ata_read dev lba)
  unfolding ata_read
  Keeps-ata_read lba = record { at = λ s h. h }

  pub Keeps-ata_write : (lba : ℕ) (bytes : List ℕ) → Keeps P (ata_write dev lba bytes)
  unfolding ata_write
  Keeps-ata_write lba bytes = record { at = λ s h. h }

  pub Keeps-read_block : (block : ℕ) → Keeps P (disk_read_block dev block)
  unfolding disk_read_block
  Keeps-read_block block = Keeps-ata_read (start_lba + block)

  pub Keeps-write_block : (block : ℕ) (bytes : List ℕ) → Keeps P (disk_write_block dev block bytes)
  unfolding disk_write_block
  Keeps-write_block block bytes = Keeps-ata_write (start_lba + block) bytes

  pub Keeps-read_data : (i : ℕ) → Keeps P (disk_read_data_block dev i)
  unfolding disk_read_data_block
  Keeps-read_data i =
      Leads-if (leb data_block_count i) _ _ (λ _. Keeps-failed) (λ _. Keeps-ata_read _)

  pub Keeps-write_data : (i : ℕ) (bytes : List ℕ) → Keeps P (disk_write_data_block dev i bytes)
  unfolding disk_write_data_block
  Keeps-write_data i bytes =
      Leads-if (leb data_block_count i) _ _ (λ _. Keeps-failed) (λ _. Keeps-ata_write _ _)

  pub Keeps-flush_superblock : Keeps P (flush_superblock dev)
  unfolding flush_superblock
  Keeps-flush_superblock = Leads-get _ λ fs h. Keeps-write_block _ _

  pub Keeps-flush_inode_bitmap : Keeps P (flush_inode_bitmap dev)
  unfolding flush_inode_bitmap
  Keeps-flush_inode_bitmap = Leads-get _ λ fs h. Keeps-write_block _ _

  pub Keeps-flush_block_bitmap : Keeps P (flush_block_bitmap dev)
  unfolding flush_block_bitmap
  Keeps-flush_block_bitmap = Leads-get _ λ fs h. Keeps-write_block _ _

  pub Keeps-flush_inode_block : (b : ℕ) → Keeps P (flush_inode_block dev b)
  unfolding flush_inode_block
  Keeps-flush_inode_block b =
      Leads-if (leb inode_table_blocks b) _ _ (λ _. Keeps-failed)
        (λ _. Leads-get _ λ fs h. Keeps-write_block _ _)

  pub Keeps-flush_inode : (i : ℕ) → Keeps P (flush_inode dev i)
  unfolding flush_inode
  Keeps-flush_inode i =
      Leads-if (leb max_inodes i) _ _ (λ _. Keeps-failed) (λ _. Keeps-flush_inode_block _)

  pub Keeps-flush_inode_blocks : (n b : ℕ) → Keeps P (flush_inode_blocks dev n b)
  unfolding flush_inode_blocks
  Keeps-flush_inode_blocks zero b = Keeps-pure tt
  Keeps-flush_inode_blocks (suc n) b =
      Keeps-bind _ _ (Keeps-flush_inode_block b) (λ _. Keeps-flush_inode_blocks n (b + 1))

module _ {D : Type 0} {P : Fs → Type 0} (stable : Stable P) where
  pub Keeps-set_inode : (i : ℕ) (n : Inode) → Keeps {D = D} P (set_inode i n)
  unfolding set_inode
  Keeps-set_inode i n = record { at = λ s h. stable.table s.fs i n h }
