-- ===== src/Fs/Alloc.antt =====
-- Allocation and release of inodes and data blocks in src/kernel/fs/fs.c.
pub mod Blocks
use lux_kernel.Base.{
  ℕ, zero, suc, ◌+◌, Bool, true, false, Option, none, some, List, leb, not, ◌==◌, if◌then◌else◌,
  get_or, set,
}
use lux_kernel.Device.{Device}
use lux_kernel.Fs.{
  M, ◌>>=◌, ◌>>◌, pure, failed, guard, get, put, inode, set_inode, attempt, ignore, max_inodes,
  direct_blocks, invalid_block, data_block_count,
}
use lux_kernel.Fs.Bitmap.{bitmap_test, bitmap_set}
use lux_kernel.Fs.Blocks.{flush_inode_bitmap, flush_block_bitmap, flush_inode, inode_clear}

-- The scan of both allocators: the first of `n` indices from `i` on whose bit is clear.
unfoldable pub first_clear : List ℕ → ℕ → ℕ → Option ℕ
first_clear bitmap zero i = none
first_clear bitmap (suc n) i =
    let rest = first_clear bitmap n (i + 1) in if not (bitmap_test bitmap i) then some i else rest

module _ {D : Type 0} (dev : Device D) where
  -- The body of the loop of `luxfs_alloc_inode`, at the index that it stops at.
  unfoldable pub take_inode : ℕ → ℕ → ℕ → M D ℕ
  take_inode type parent i = do
    n ← inode i
    set_inode i (record (inode_clear n) { type = type; parent = parent })
    fs ← get
    put (record fs { inode_bitmap = bitmap_set fs.inode_bitmap i true })
    flush_inode_bitmap dev
    flush_inode dev i
    pure i

  unfoldable pub alloc_inode : ℕ → ℕ → M D ℕ
  unfolding take_inode
  alloc_inode type parent = do
    fs ← get
    elim (first_clear fs.inode_bitmap max_inodes 0) [
      | none ↦ failed
      | some i ↦ take_inode type parent i
    ]

  unfoldable pub take_block : ℕ → M D ℕ
  take_block i = do
    fs ← get
    put (record fs { block_bitmap = bitmap_set fs.block_bitmap i true })
    flush_block_bitmap dev
    pure i

  unfoldable pub alloc_block : M D ℕ
  unfolding take_block
  alloc_block = do
    fs ← get
    elim (first_clear fs.block_bitmap data_block_count 0) [ none ↦ failed | some i ↦ take_block i ]

  unfoldable pub free_block : ℕ → M D (Unit {0})
  free_block index = if leb data_block_count index then failed else do
    fs ← get
    if not (bitmap_test fs.block_bitmap index) then pure tt else do
      put (record fs { block_bitmap = bitmap_set fs.block_bitmap index false })
      flush_block_bitmap dev

  -- The loop of `luxfs_release_inode_blocks` over the direct blocks of the inode at `index`, from `i`
  -- on; `done` is its flag `ok`.
  unfoldable pub release_loop : ℕ → ℕ → ℕ → Bool → M D Bool
  release_loop index zero i done = pure done
  release_loop index (suc n) i done = do
    node ← inode index
    if get_or node.direct i 0 == invalid_block then release_loop index n (i + 1) done else do
      freed ← attempt (free_block (get_or node.direct i 0))
      node ← inode index
      set_inode index (record node { direct = set node.direct i invalid_block })
      release_loop index n (i + 1) (elim freed [ none ↦ false | some _ ↦ done ])

  unfoldable pub release_inode_blocks : ℕ → M D (Unit {0})
  unfolding release_loop
  release_inode_blocks index = do
    done ← release_loop index direct_blocks 0 true
    node ← inode index
    set_inode index (record node { size = 0 })
    guard done

  unfoldable pub mark_inode_free : ℕ → M D (Unit {0})
  mark_inode_free index = if leb max_inodes index then pure tt else do
    ignore (release_inode_blocks index)
    node ← inode index
    set_inode index (inode_clear node)
    fs ← get
    put (record fs { inode_bitmap = bitmap_set fs.inode_bitmap index false })
    ignore (flush_inode dev index)
    ignore (flush_inode_bitmap dev)
