-- ===== src/Fs/Tests.antt =====
-- Runs of src/kernel/fs/fs.c over a disk in memory.
use lux_kernel.Base.{
  ◌+◌, ◌≢◌, ℕ, ◌≡◌, refl, true, false, Option, some, List, [], ◌∷◌, ◌==◌, if◌then◌else◌, subst,
  arith, replicate, tested, tested-at, false, ◌<◌,
}
use lux_kernel.Device.{Device}
use lux_kernel.Fs.{
  fault, M, Sys, attempt, failed, faulted, get, guard, ignore, inode, ok, pure, put, set_inode,
  ◌>>=◌, ◌>>◌,
}
use lux_kernel.Strings.{memcmp, memcpy, memmove, memset, strcmp, strlen}
use lux_kernel.Fs.Layout.{
  inode_at, inode_bytes, inodes_at, inodes_bytes, record_at, record_bytes, superblock_at,
  superblock_bytes, u32_at, u32_bytes, u32s_at, u32s_bytes,
}
use lux_kernel.Fs.Bitmap.{bitmap_set, bitmap_test}
use lux_kernel.Fs.Blocks.{
  ata_read, ata_write, disk_read_block, disk_read_data_block, disk_write_block,
  disk_write_data_block, flush_block_bitmap, flush_inode, flush_inode_bitmap, flush_inode_block,
  flush_inode_blocks, flush_superblock, format, fresh_fs, fresh_super, inode_clear,
  load_inode_blocks, load_metadata, min_u32, splice, validate_superblock, zeros,
}
use lux_kernel.Fs.Path.{
  slash, basename, copy_name, is_dot, keep, last_slash, max_path_depth, next_component,
  read_component, skip_slashes, tokenize_loop, tokenize_path, trim_end,
}
use lux_kernel.Fs.Alloc.{
  first_clear, take_inode, alloc_inode, take_block, alloc_block, free_block, release_loop,
  release_inode_blocks, mark_inode_free,
}
use lux_kernel.Fs.Directory.{
  iterate_chunk, iterate_loop, dir_iterate, dir_find_cb, dir_emit_cb, grown, dir_find, dir_block,
  append_loop, dir_append_record,
}
use lux_kernel.Fs.Resolve.{is_parent, resolve_loop, resolve, parent_loop, resolve_parent}
use lux_kernel.Fs.Api.{
  check_size, create, fs_list, fs_mkdir, fs_mount, fs_read, fs_stat_path, fs_touch, fs_write,
  is_reserved, new_record, read_loop, ready_path, start_device, truncated, write_block, write_loop,
}
use lux_kernel.Fs.Sound.{IsSound, AllBytes-replicate}
use lux_kernel.Fs.Sound.Mount.{FillsSectors, IsSector}
use lux_kernel.Fs.Sound.Reach
use lux_kernel.Fs.Sound.Reach.{boot_fs, Step, Reached, mount, touch, booted, call}
use lux_kernel.Fs.Path.Split.{split, accept}
use lux_kernel.Fs.Path.Tokens
use lux_kernel.Fs.Disk.{Works}
use lux_kernel.Fs.Persist
use lux_kernel.Fs.Persist.{flush_all, fresh_fs-Fits}
use lux_kernel.Fs.Supported
use lux_kernel.Fs.Api.Rounds
use lux_kernel.Fs.{direct_blocks}
use lux_kernel.Fs.Blocks.{blank_inode}
use lux_kernel.Fs.Supported.{IsSupported}
use lux_kernel.Fs.Alloc.Blocks
use lux_kernel.Fs.Alloc.Blocks.{Taken}

abbrev Disk : Type 0
Disk = ℕ → List ℕ

abbrev ram : Device Disk
ram = record {
  read = λ lba d. (some (d lba), d);
  write = λ lba bytes d. (true, λ x. if x == lba then bytes else d x);
  ready = λ d. true;
  init = λ d. (true, d);
  total_sectors = λ d. 8192;
}

abbrev blank : Sys Disk
blank = record { fs = fresh_fs; disk = λ lba. zeros }

abbrev path_a : Option (List ℕ)
path_a = some (47 ∷ 97 ∷ [])

abbrev session : M Disk (List ℕ × ℕ)
session = do
  format ram
  fs_touch ram path_a
  fs_write ram path_a 0 (some (1 ∷ 2 ∷ 3 ∷ [])) 3 false
  fs_read ram path_a 0 (some (0 ∷ 0 ∷ 0 ∷ 0 ∷ [])) 4

-- What is written is read back.
reads_back : (session blank).0 ≡ ok (1 ∷ 2 ∷ 3 ∷ 0 ∷ [], 3)
unfolding ◌>>=◌ pure failed faulted attempt ignore guard get put inode set_inode memset memcpy
    memmove memcmp strcmp strlen u32_bytes u32_at u32s_bytes u32s_at superblock_bytes superblock_at
    inode_bytes inode_at inodes_bytes inodes_at record_bytes record_at bitmap_test bitmap_set
    min_u32 splice ata_read ata_write disk_read_block disk_write_block disk_read_data_block
    disk_write_data_block flush_superblock flush_inode_bitmap flush_block_bitmap flush_inode_block
    flush_inode load_inode_blocks load_metadata flush_inode_blocks inode_clear fresh_fs format
    validate_superblock copy_name trim_end last_slash basename skip_slashes read_component keep
    next_component is_dot tokenize_loop tokenize_path first_clear take_inode alloc_inode take_block
    alloc_block free_block release_loop release_inode_blocks mark_inode_free iterate_chunk
    iterate_loop dir_iterate dir_find_cb dir_emit_cb grown dir_find dir_block append_loop
    dir_append_record is_parent resolve_loop resolve parent_loop resolve_parent is_reserved
    new_record start_device check_size fs_mount ready_path create fs_touch fs_mkdir fs_list
    fs_stat_path read_loop fs_read write_block write_loop truncated fs_write
reads_back = refl

-- "/usr//./bin"
abbrev path_bin : List ℕ
path_bin = 47 ∷ 117 ∷ 115 ∷ 114 ∷ 47 ∷ 47 ∷ 46 ∷ 47 ∷ 98 ∷ 105 ∷ 110 ∷ []

splits_bin :
    accept max_path_depth (split path_bin)
    ≡ ok ((117 ∷ 115 ∷ 114 ∷ []) ∷ (98 ∷ 105 ∷ 110 ∷ []) ∷ [])
unfolding split accept keep
splits_bin = refl

tokenize_path-accept_example :
    tokenize_path (some path_bin) ≡ accept max_path_depth (split path_bin)
tokenize_path-accept_example = Tokens.tokenize_path-accept path_bin

-- A disk whose sectors are all zero.
abbrev zero_disk : Device Unit
zero_disk = record {
  read = λ lba d. (some zeros, d);
  write = λ lba bytes d. (true, d);
  ready = λ d. true;
  init = λ d. (true, d);
  total_sectors = λ d. 8192;
}

zeros-IsSector : IsSector zeros
zeros-IsSector = (refl, AllBytes-replicate 512 0 (omega arith))

zero_disk-FillsSectors : FillsSectors zero_disk
zero_disk-FillsSectors lba d bytes e =
    let same : zeros ≡ bytes = cc in subst IsSector same zeros-IsSector

abbrev booted_state : Sys Unit
booted_state = record { fs = boot_fs; disk = tt }

Reached-IsSound_example :
    IsSound (fs_touch zero_disk path_a (fs_mount zero_disk booted_state).1).1.fs
Reached-IsSound_example =
    Reach.Reached-IsSound zero_disk zero_disk-FillsSectors
      (fs_touch zero_disk path_a (fs_mount zero_disk booted_state).1).1
      (call _ _ (call _ _ (booted tt) (mount booted_state)) (touch _ path_a))

-- A mounted file system whose root inode is not in the table.
abbrev rootless : Sys Unit
rootless = record {
  fs = record boot_fs { mounted = true; super = record fresh_super { root_inode = 200 } };
  disk = tt;
}

root-fault_example : fs_stat_path zero_disk (some (slash ∷ [])) rootless ≡ (fault, rootless)
unfolding validate_superblock
root-fault_example = Supported.root-fault zero_disk rootless refl refl (omega arith)

abbrev fresh_state : Sys Unit
fresh_state = record { fs = fresh_fs; disk = tt }

abbrev taken_state : Sys Unit
taken_state = (alloc_block zero_disk fresh_state).1

alloc_runs : alloc_block zero_disk fresh_state ≡ (ok 0, taken_state)
unfolding alloc_block take_block first_clear bitmap_test bitmap_set fresh_fs ◌>>=◌ get put pure
    failed flush_block_bitmap disk_write_block ata_write
alloc_runs = refl

alloc_block-Taken_example : Taken zero_disk fresh_state taken_state 0
unfolding fresh_fs
alloc_block-Taken_example =
    Blocks.alloc_block-Taken zero_disk fresh_state taken_state 0
      (AllBytes-replicate 510 0 (omega arith)) refl alloc_runs

abbrev full_state : Sys Unit
full_state = record { fs = record boot_fs { block_bitmap = replicate 510 255 }; disk = tt }

all_set : (j : ℕ) → j < 4077 → bitmap_test (replicate 510 255) j ≡ true
unfolding bitmap_test tested
all_set j lt = tested-at (bitmap_test (replicate 510 255)) 4077 j lt refl

read_loop-ends_example :
    (read_loop zero_disk (direct_blocks + 1) blank_inode 700 (0 ∷ []) 0 3000 booted_state).0 ≢ fault
read_loop-ends_example = Rounds.read_loop-ends zero_disk blank_inode 700 (0 ∷ []) 3000 booted_state

ram_works : Works ram
ram_works = record {
  content = λ d lba. d lba;
  ready = λ d. refl;
  large = λ d. omega arith;
  reads = λ lba d. refl;
  reading = λ lba d x. refl;
  writes = λ lba bytes d. refl;
  writing = λ lba bytes d x. refl;
}

-- A file system on another disk, and one that is to be loaded over.
abbrev made : Sys Disk
made = record { fs = fresh_fs; disk = λ lba. zeros }

load_metadata-flush_example :
    let flushed = flush_all ram made in
    let loaded = load_metadata ram (record { fs = boot_fs; disk = flushed.1.disk }) in
    (flushed.0 ≡ ok tt)
    × (flushed.1.fs ≡ made.fs)
    × (loaded.0 ≡ ok tt)
    × (loaded.1.fs ≡ record (made.fs) { mounted = boot_fs.mounted })
load_metadata-flush_example =
    Persist.load_metadata-flush ram ram_works made boot_fs fresh_fs-Fits refl
