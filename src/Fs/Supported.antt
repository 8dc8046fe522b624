-- ===== src/Fs/Supported.antt =====
-- What the check of the superblock in src/kernel/fs/fs.c accepts, and what it does not look at.
use lux_kernel.Base.{
  ℕ, zero, suc, ◌≡◌, refl, true, none, some, List, [], arith, ◌≤◌, length, get_elem?, ◌∷◌,
}
use lux_kernel.Device.{Device, sector_size}
use lux_kernel.Fs.{
  Sys, ◌>>=◌, guard, get, pure, start_lba, total_sectors, inode_table_start, max_inodes,
  data_block_start, data_block_count, fault, faulted, inode,
}
use lux_kernel.Fs.Layout.{Superblock}
use lux_kernel.Fs.Blocks.{validate_superblock}
use lux_kernel.Fs.Api.{ready_path, fs_stat_path}
use lux_kernel.Fs.Path.{slash, tokenize_path, tokenize_loop, next_component, skip_slashes}
use lux_kernel.Fs.Resolve.{resolve, resolve_loop}

-- The first nine fields are the constants of `luxfs_format`.
abbrev pub IsSupported : Superblock → Type 0
IsSupported s =
    (s.magic ≡ 0x4C555846)
    × (s.version ≡ 1)
    × (s.block_size ≡ sector_size)
    × (s.start_lba ≡ start_lba)
    × (s.total_sectors ≡ total_sectors)
    × (s.inode_table_start ≡ inode_table_start)
    × (s.inode_count ≡ max_inodes)
    × (s.data_block_start ≡ data_block_start)
    × (s.data_block_count ≡ data_block_count)

IsSupported-validate : (s : Superblock) → validate_superblock s ≡ true → IsSupported s
unfolding validate_superblock
IsSupported-validate s h = ground arith

validate-IsSupported : (s : Superblock) → IsSupported s → validate_superblock s ≡ true
unfolding validate_superblock
validate-IsSupported s h = ground arith

-- `luxfs_validate_superblock` accepts exactly the superblocks whose first nine fields are the constants
-- that `luxfs_format` writes.
pub validate_superblock_iff :
    (s : Superblock)
    → (validate_superblock s ≡ true → IsSupported s)
      × (IsSupported s → validate_superblock s ≡ true)
validate_superblock_iff s = (IsSupported-validate s, validate-IsSupported s)

get_elem?-none : {A : Type 0} (xs : List A) (i : ℕ) → length xs ≤ i → get_elem? xs i ≡ none
get_elem?-none [] i le = refl
get_elem?-none (x ∷ xs) zero le = absurd (omega (arith, le))
get_elem?-none (x ∷ xs) (suc i) le = get_elem?-none xs i (omega (arith, le))

-- The superblock does not vouch for its root: on a mounted file system whose superblock is valid but names a
-- root inode that is not in the table, looking at the root directory reads outside the table.
pub root-fault :
    {D : Type 0} (dev : Device D) (s : Sys D)
    → s.fs.mounted ≡ true
    → validate_superblock s.fs.super ≡ true
    → length s.fs.inodes ≤ s.fs.super.root_inode
    → fs_stat_path dev (some (slash ∷ [])) s ≡ (fault, s)
unfolding fs_stat_path ready_path resolve tokenize_path tokenize_loop next_component skip_slashes
    resolve_loop ◌>>=◌ get guard pure inode faulted
root-fault dev s on valid far = simp (on, get_elem?-none s.fs.inodes s.fs.super.root_inode far)
