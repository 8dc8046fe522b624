-- ===== src/Fs/Layout.antt =====
-- The on-disk structures of src/kernel/fs/fs.c and their bytes. The target is little-endian, and no
-- structure has padding.
pub mod Bytes
use lux_kernel.Base.{ℕ, zero, suc, ◌+◌, ◌*◌, ◌/◌, ◌%◌, List, [], ◌∷◌, ◌++◌, take, drop, get_or}

pub record Superblock : Type 0 where
  pub magic : ℕ
  pub version : ℕ
  pub block_size : ℕ
  pub start_lba : ℕ
  pub total_sectors : ℕ
  pub inode_table_start : ℕ
  pub inode_count : ℕ
  pub data_block_start : ℕ
  pub data_block_count : ℕ
  pub root_inode : ℕ

-- The reserved fields are kept, since whole inodes are copied to and from the disk.
pub record Inode : Type 0 where
  pub type : ℕ
  pub reserved0 : ℕ
  pub reserved1 : ℕ
  pub size : ℕ
  pub parent : ℕ
  pub direct : List ℕ
  pub reserved_tail : List ℕ

pub record DirRecord : Type 0 where
  pub inode : ℕ
  pub name : List ℕ

abbrev pub inode_size : ℕ
inode_size = 60

abbrev pub dir_record_size : ℕ
dir_record_size = 36

-- A `uint32_t`, and an array of them.
unfoldable pub u32_bytes : ℕ → List ℕ
u32_bytes n = n % 256 ∷ n / 256 % 256 ∷ n / 65536 % 256 ∷ n / 16777216 % 256 ∷ []

unfoldable pub u32_at : List ℕ → ℕ → ℕ
u32_at b i =
    get_or b i 0
    + 256 * get_or b (i + 1) 0
    + 65536 * get_or b (i + 2) 0
    + 16777216 * get_or b (i + 3) 0

unfoldable pub u32s_bytes : List ℕ → List ℕ
unfolding u32_bytes
u32s_bytes [] = []
u32s_bytes (n ∷ ns) = u32_bytes n ++ u32s_bytes ns

unfoldable pub u32s_at : List ℕ → ℕ → ℕ → List ℕ
unfolding u32_at
u32s_at b i zero = []
u32s_at b i (suc k) = u32_at b i ∷ u32s_at b (i + 4) k

unfoldable pub superblock_bytes : Superblock → List ℕ
unfolding u32s_bytes
superblock_bytes s = u32s_bytes (
    s.magic ∷ s.version ∷ s.block_size ∷ s.start_lba ∷ s.total_sectors ∷ s.inode_table_start
    ∷ s.inode_count ∷ s.data_block_start ∷ s.data_block_count ∷ s.root_inode ∷ [])

unfoldable pub superblock_at : List ℕ → Superblock
unfolding u32_at
superblock_at b = record {
  magic = u32_at b 0;
  version = u32_at b 4;
  block_size = u32_at b 8;
  start_lba = u32_at b 12;
  total_sectors = u32_at b 16;
  inode_table_start = u32_at b 20;
  inode_count = u32_at b 24;
  data_block_start = u32_at b 28;
  data_block_count = u32_at b 32;
  root_inode = u32_at b 36;
}

unfoldable pub inode_bytes : Inode → List ℕ
unfolding u32_bytes u32s_bytes
inode_bytes n =
    n.type % 256
    ∷ n.reserved0 % 256
    ∷ n.reserved1 % 256
    ∷ n.reserved1 / 256 % 256
    ∷ (u32_bytes n.size
        ++ (u32_bytes n.parent ++ (u32s_bytes n.direct ++ u32s_bytes n.reserved_tail)))

unfoldable pub inode_at : List ℕ → ℕ → Inode
unfolding u32_at u32s_at
inode_at b i = record {
  type = get_or b i 0;
  reserved0 = get_or b (i + 1) 0;
  reserved1 = get_or b (i + 2) 0 + 256 * get_or b (i + 3) 0;
  size = u32_at b (i + 4);
  parent = u32_at b (i + 8);
  direct = u32s_at b (i + 12) 8;
  reserved_tail = u32s_at b (i + 44) 4;
}

-- Consecutive elements of the inode array.
unfoldable pub inodes_bytes : List Inode → List ℕ
unfolding inode_bytes
inodes_bytes [] = []
inodes_bytes (n ∷ ns) = inode_bytes n ++ inodes_bytes ns

unfoldable pub inodes_at : List ℕ → ℕ → ℕ → List Inode
unfolding inode_at
inodes_at b i zero = []
inodes_at b i (suc k) = inode_at b i ∷ inodes_at b (i + inode_size) k

unfoldable pub record_bytes : DirRecord → List ℕ
unfolding u32_bytes
record_bytes r = u32_bytes r.inode ++ take 32 r.name

unfoldable pub record_at : List ℕ → DirRecord
unfolding u32_at
record_at b = record { inode = u32_at b 0; name = take 32 (drop 4 b) }
