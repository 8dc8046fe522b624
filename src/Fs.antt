-- ===== src/Fs.antt =====
-- src/kernel/fs/fs.c, the LUXFS file system: its state and the monad of its functions. A function
-- that returns `false` is `fail`, and every write made before it stays; `fault` is an access that
-- the C program would make outside an array, or a loop that has used up its fuel. `g_fs` and the
-- state of the block device are passed along.
pub mod Layout
pub mod Bitmap
pub mod Blocks
pub mod Path
pub mod Alloc
pub mod Directory
pub mod Resolve
pub mod Api
pub mod Keeps
pub mod Stable
pub mod Sound
pub mod Disk
pub mod Table
pub mod Persist
pub mod Supported
mod Tests
use lux_kernel.Base.{ℕ, Bool, true, false, Option, none, some, List, get_elem?, set}
use lux_kernel.Fs.Layout.{Superblock, Inode}

abbrev pub start_lba : ℕ
start_lba = 2048

abbrev pub total_sectors : ℕ
total_sectors = 4096

abbrev pub max_inodes : ℕ
max_inodes = 128

abbrev pub direct_blocks : ℕ
direct_blocks = 8

abbrev pub invalid_block : ℕ
invalid_block = 0xFFFFFFFF

abbrev pub super_block : ℕ
super_block = 0

abbrev pub inode_bitmap_block : ℕ
inode_bitmap_block = 1

abbrev pub block_bitmap_block : ℕ
block_bitmap_block = 2

abbrev pub inode_table_start : ℕ
inode_table_start = 3

abbrev pub inodes_per_block : ℕ
inodes_per_block = 8

abbrev pub inode_table_blocks : ℕ
inode_table_blocks = 16

abbrev pub data_block_start : ℕ
data_block_start = 19

abbrev pub data_block_count : ℕ
data_block_count = 4077

abbrev pub inode_bitmap_bytes : ℕ
inode_bitmap_bytes = 16

abbrev pub block_bitmap_bytes : ℕ
block_bitmap_bytes = 510

abbrev pub node_free : ℕ
node_free = 0

abbrev pub node_dir : ℕ
node_dir = 1

abbrev pub node_file : ℕ
node_file = 2

-- `struct luxfs_state`
pub record Fs : Type 0 where
  pub mounted : Bool
  pub super : Superblock
  pub inodes : List Inode
  pub inode_bitmap : List ℕ
  pub block_bitmap : List ℕ

pub record Sys (D : Type 0) : Type 0 where
  pub fs : Fs
  pub disk : D

pub data Outcome (A : Type 0) : Type 0 where
  ok : A → Outcome A
  fail : Outcome A
  fault : Outcome A

-- The Boolean result of a call, for a caller that goes on when it is `false`.
abbrev pub tried : {A : Type 0} → Outcome A → Outcome (Option A)
tried (ok a) = ok (some a)
tried fail = ok none
tried fault = fault

abbrev pub M : Type 0 → Type 0 → Type 0
M D A = Sys D → Outcome A × Sys D

module _ {D A B : Type 0} where
  abbrev pub continue : Outcome A → (A → M D B) → M D B
  continue (ok a) f s = f a s
  continue fail f s = (fail, s)
  continue fault f s = (fault, s)

  infixl 5 ◌>>=◌ ◌>>◌
  unfoldable pub ◌>>=◌ : M D A → (A → M D B) → M D B
  ◌>>=◌ m f s = continue (m s).0 f (m s).1

  abbrev pub ◌>>◌ : M D A → M D B → M D B
  m >> k = m >>= λ _. k

module _ {D A : Type 0} where
  unfoldable pub pure : A → M D A
  pure a s = (ok a, s)

  unfoldable pub failed : M D A
  failed s = (fail, s)

  unfoldable pub faulted : M D A
  faulted s = (fault, s)

  unfoldable pub attempt : M D A → M D (Option A)
  attempt m s = (tried (m s).0, (m s).1)

-- A call whose result the caller drops.
unfoldable pub ignore : {D A : Type 0} → M D A → M D (Unit {0})
ignore m = attempt m >>= λ _. pure tt

module _ {D : Type 0} where
  unfoldable pub guard : Bool → M D (Unit {0})
  guard true = pure tt
  guard false = failed

  unfoldable pub get : M D Fs
  get s = (ok s.fs, s)

  unfoldable pub put : Fs → M D (Unit {0})
  put fs s = (ok tt, record s { fs = fs })

  -- `g_fs.inodes[i]`, read and written
  abbrev pub found : Option Inode → M D Inode
  found none = faulted
  found (some n) = pure n

  unfoldable pub inode : ℕ → M D Inode
  inode i s = found (get_elem? s.fs.inodes i) s

  unfoldable pub set_inode : ℕ → Inode → M D (Unit {0})
  set_inode i n s = (ok tt, record s { fs = record (s.fs) { inodes = set s.fs.inodes i n } })
