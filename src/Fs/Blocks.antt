-- ===== src/Fs/Blocks.antt =====
-- The block input and output of src/kernel/fs/fs.c: `disk_read_block` to `luxfs_load_metadata`,
-- and `luxfs_format`.
use lux_kernel.Base.{
  ℕ, zero, suc, ◌+◌, ◌-◌, ◌*◌, ◌/◌, Bool, true, false, none, some, List, ◌∷◌, ◌++◌, ltb, leb, ◌==◌,
  ◌&&◌, if◌then◌else◌, take, drop, length, replicate,
}
use lux_kernel.Device.{Device, sector_size}
use lux_kernel.Strings.{memcpy}
use lux_kernel.Fs.{
  Fs, M, ◌>>=◌, ◌>>◌, pure, failed, get, put, start_lba, total_sectors, max_inodes, direct_blocks,
  invalid_block, super_block, inode_bitmap_block, block_bitmap_block, inode_table_start,
  inodes_per_block, inode_table_blocks, data_block_start, data_block_count, inode_bitmap_bytes,
  block_bitmap_bytes, node_free, node_dir, ok, fail,
}
use lux_kernel.Fs.Layout.{
  Superblock, Inode, inode_size, superblock_bytes, superblock_at, inodes_bytes, inodes_at,
}
use lux_kernel.Fs.Bitmap.{bitmap_set}

unfoldable pub min_u32 : ℕ → ℕ → ℕ
min_u32 a b = if ltb a b then a else b

abbrev pub zeros : List ℕ
zeros = replicate sector_size 0

-- The elements from `i` on overwritten, by the `memcpy` into the inode array.
unfoldable pub splice : List Inode → ℕ → List Inode → List Inode
splice old i new = take i old ++ (new ++ drop (i + length new) old)

module _ {D : Type 0} (dev : Device D) where
  unfoldable pub ata_read : ℕ → M D (List ℕ)
  ata_read lba s =
      let (r, d) = dev.read lba s.disk in
      (elim r [ none ↦ fail | some bytes ↦ ok bytes ], record s { disk = d })

  unfoldable pub ata_write : ℕ → List ℕ → M D (Unit {0})
  ata_write lba buffer s =
      let (done, d) = dev.write lba buffer s.disk in
      ((if done then ok tt else fail), record s { disk = d })

  unfoldable pub disk_read_block : ℕ → M D (List ℕ)
  disk_read_block block = ata_read (start_lba + block)

  unfoldable pub disk_write_block : ℕ → List ℕ → M D (Unit {0})
  disk_write_block block buffer = ata_write (start_lba + block) buffer

  unfoldable pub disk_read_data_block : ℕ → M D (List ℕ)
  disk_read_data_block index =
      if leb data_block_count index then failed else ata_read (start_lba + data_block_start + index)

  unfoldable pub disk_write_data_block : ℕ → List ℕ → M D (Unit {0})
  disk_write_data_block index buffer =
      if leb data_block_count index
      then failed
      else ata_write (start_lba + data_block_start + index) buffer

  unfoldable pub flush_superblock : M D (Unit {0})
  flush_superblock = do
    fs ← get
    disk_write_block super_block (memcpy zeros 0 (superblock_bytes fs.super) 0 40)

  unfoldable pub flush_inode_bitmap : M D (Unit {0})
  flush_inode_bitmap = do
    fs ← get
    disk_write_block inode_bitmap_block (memcpy zeros 0 fs.inode_bitmap 0 inode_bitmap_bytes)

  unfoldable pub flush_block_bitmap : M D (Unit {0})
  flush_block_bitmap = do
    fs ← get
    disk_write_block block_bitmap_block (memcpy zeros 0 fs.block_bitmap 0 block_bitmap_bytes)

  unfoldable pub flush_inode_block : ℕ → M D (Unit {0})
  flush_inode_block block_index = if leb inode_table_blocks block_index then failed else do
    fs ← get
    let start = block_index * inodes_per_block
    let count = min_u32 inodes_per_block (max_inodes - start)
    disk_write_block (inode_table_start + block_index)
        (memcpy zeros 0 (inodes_bytes (take count (drop start fs.inodes))) 0 (count * inode_size))

  unfoldable pub flush_inode : ℕ → M D (Unit {0})
  flush_inode inode_index =
      if leb max_inodes inode_index
      then failed
      else flush_inode_block (inode_index / inodes_per_block)

  -- The loop over the inode table: `n` blocks from `block` on.
  unfoldable pub load_inode_blocks : ℕ → ℕ → M D (Unit {0})
  load_inode_blocks zero block = pure tt
  load_inode_blocks (suc n) block = do
    buffer ← disk_read_block (inode_table_start + block)
    fs ← get
    let start = block * inodes_per_block
    let count = min_u32 inodes_per_block (max_inodes - start)
    put (record fs { inodes = splice fs.inodes start (inodes_at buffer 0 count) })
    load_inode_blocks n (block + 1)

  unfoldable pub load_metadata : M D (Unit {0})
  load_metadata = do
    buffer ← disk_read_block super_block
    fs ← get
    put (record fs { super = superblock_at buffer })
    buffer ← disk_read_block inode_bitmap_block
    fs ← get
    put (record fs { inode_bitmap = take inode_bitmap_bytes buffer })
    buffer ← disk_read_block block_bitmap_block
    fs ← get
    put (record fs { block_bitmap = take block_bitmap_bytes buffer })
    load_inode_blocks inode_table_blocks 0

  unfoldable pub flush_inode_blocks : ℕ → ℕ → M D (Unit {0})
  flush_inode_blocks zero block = pure tt
  flush_inode_blocks (suc n) block = do flush_inode_block block; flush_inode_blocks n (block + 1)

-- The reserved fields keep their values.
unfoldable pub inode_clear : Inode → Inode
inode_clear n = record n {
  type = node_free;
  size = 0;
  parent = 0;
  direct = replicate direct_blocks invalid_block;
}

abbrev pub blank_inode : Inode
blank_inode = record {
  type = 0;
  reserved0 = 0;
  reserved1 = 0;
  size = 0;
  parent = 0;
  direct = replicate direct_blocks 0;
  reserved_tail = replicate 4 0;
}

abbrev pub fresh_super : Superblock
fresh_super = record {
  magic = 0x4C555846;
  version = 1;
  block_size = sector_size;
  start_lba = start_lba;
  total_sectors = total_sectors;
  inode_table_start = inode_table_start;
  inode_count = max_inodes;
  data_block_start = data_block_start;
  data_block_count = data_block_count;
  root_inode = 0;
}

-- The state that `luxfs_format` sets up before it writes: the `memset`, the superblock, the cleared
-- inodes, and the root directory.
unfoldable pub fresh_fs : Fs
unfolding inode_clear bitmap_set
fresh_fs = record {
  mounted = false;
  super = fresh_super;
  inodes =
      record (inode_clear blank_inode) { type = node_dir; parent = 0 }
      ∷ replicate (max_inodes - 1) (inode_clear blank_inode);
  inode_bitmap = bitmap_set (replicate inode_bitmap_bytes 0) 0 true;
  block_bitmap = replicate block_bitmap_bytes 0;
}

module _ {D : Type 0} (dev : Device D) where
  unfoldable pub format : M D (Unit {0})
  format = do
    put fresh_fs
    flush_superblock dev
    flush_inode_bitmap dev
    flush_block_bitmap dev
    flush_inode_blocks dev inode_table_blocks 0
    fs ← get
    put (record fs { mounted = true })

unfoldable pub validate_superblock : Superblock → Bool
validate_superblock s =
    s.magic == 0x4C555846
    && s.version == 1
    && s.block_size == sector_size
    && s.start_lba == start_lba
    && s.total_sectors == total_sectors
    && s.inode_table_start == inode_table_start
    && s.inode_count == max_inodes
    && s.data_block_start == data_block_start
    && s.data_block_count == data_block_count
