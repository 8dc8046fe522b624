-- ===== src/Fs/Sound/Reach.antt =====
-- Runs of the file system of src/kernel/fs/fs.c: any sequence of calls of its public functions, from the
-- state before the first, each over whatever the disk holds.
use lux_kernel.Base.{ℕ, ◌≡◌, refl, Bool, false, Option, List, replicate, arith}
use lux_kernel.Device.{Device}
use lux_kernel.Fs.{Fs, Sys, max_inodes, inode_bitmap_bytes, block_bitmap_bytes}
use lux_kernel.Fs.Blocks.{blank_inode}
use lux_kernel.Fs.Api.{fs_mount, fs_touch, fs_mkdir, fs_list, fs_stat_path, fs_read, fs_write}
use lux_kernel.Fs.Sound.{IsSound, IsSound-Stable, AllBytes-replicate}
use lux_kernel.Fs.Sound.Mount.{FillsSectors, fs_mount-IsSound}
use lux_kernel.Fs.Stable.Api.{
  Keeps-fs_touch, Keeps-fs_mkdir, Keeps-fs_list, Keeps-fs_stat_path, Keeps-fs_read, Keeps-fs_write,
}

-- `g_fs` in zeroed memory
abbrev pub boot_fs : Fs
boot_fs = record {
  mounted = false;
  super = record {
    magic = 0;
    version = 0;
    block_size = 0;
    start_lba = 0;
    total_sectors = 0;
    inode_table_start = 0;
    inode_count = 0;
    data_block_start = 0;
    data_block_count = 0;
    root_inode = 0;
  };
  inodes = replicate max_inodes blank_inode;
  inode_bitmap = replicate inode_bitmap_bytes 0;
  block_bitmap = replicate block_bitmap_bytes 0;
}

-- One call of a public function, whatever its result.
pub data Step {D : Type 0} (dev : Device D) : Sys D → Sys D → Type 0 where
  mount : (s : Sys D) → Step dev s (fs_mount dev s).1
  touch : (s : Sys D) (path : Option (List ℕ)) → Step dev s (fs_touch dev path s).1
  mkdir : (s : Sys D) (path : Option (List ℕ)) → Step dev s (fs_mkdir dev path s).1
  list : (s : Sys D) (path : Option (List ℕ)) (cb : Bool) → Step dev s (fs_list dev path cb s).1
  stat : (s : Sys D) (path : Option (List ℕ)) → Step dev s (fs_stat_path dev path s).1
  read :
      (s : Sys D) (path : Option (List ℕ)) (offset : ℕ) (buffer : Option (List ℕ)) (n : ℕ)
      → Step dev s (fs_read dev path offset buffer n s).1
  write :
      (s : Sys D) (path : Option (List ℕ)) (offset : ℕ) (buffer : Option (List ℕ)) (n : ℕ)
      (truncate : Bool)
      → Step dev s (fs_write dev path offset buffer n truncate s).1

pub data Reached {D : Type 0} (dev : Device D) : Sys D → Type 0 where
  booted : (disk : D) → Reached dev (record { fs = boot_fs; disk = disk })
  call : (s t : Sys D) → Reached dev s → Step dev s t → Reached dev t

boot_fs-IsSound : IsSound boot_fs
boot_fs-IsSound = record {
  shape = record {
    inodes = refl;
    inode_bits = refl;
    inode_bytes = AllBytes-replicate inode_bitmap_bytes 0 (omega arith);
    block_bits = refl;
    block_bytes = AllBytes-replicate block_bitmap_bytes 0 (omega arith);
  };
  supported = λ on. ground arith;
}

Step-IsSound :
    {D : Type 0} (dev : Device D)
    → FillsSectors dev
    → (s t : Sys D) → Step dev s t
    → IsSound s.fs
    → IsSound t.fs
Step-IsSound dev fills _ _ (mount s) h = (fs_mount-IsSound dev fills).at s h
Step-IsSound dev fills _ _ (touch s path) h = (Keeps-fs_touch dev IsSound-Stable path).at s h
Step-IsSound dev fills _ _ (mkdir s path) h = (Keeps-fs_mkdir dev IsSound-Stable path).at s h
Step-IsSound dev fills _ _ (list s path cb) h = (Keeps-fs_list dev {P = IsSound} path cb).at s h
Step-IsSound dev fills _ _ (stat s path) h = (Keeps-fs_stat_path dev {P = IsSound} path).at s h
Step-IsSound dev fills _ _ (read s path offset buffer n) h =
    (Keeps-fs_read dev {P = IsSound} path offset buffer n).at s h
Step-IsSound dev fills _ _ (write s path offset buffer n truncate) h =
    (Keeps-fs_write dev IsSound-Stable path offset buffer n truncate).at s h

-- In every state that calls of the public functions can reach from boot, over any device whose reads fill
-- a sector with bytes, the tables have their declared sizes, the bitmaps hold bytes, and a mounted file
-- system has a superblock that `luxfs_validate_superblock` accepts.
pub Reached-IsSound :
    {D : Type 0} (dev : Device D) → FillsSectors dev → (s : Sys D) → Reached dev s → IsSound s.fs
Reached-IsSound dev fills _ (booted disk) = boot_fs-IsSound
Reached-IsSound dev fills _ (call s t r step) =
    Step-IsSound dev fills s t step (Reached-IsSound dev fills s r)

-- `fs_list`, `fs_stat_path` and `fs_read` leave `g_fs` as it was, whatever their arguments and results.
pub queries-fs :
    {D : Type 0} (dev : Device D) (path : Option (List ℕ)) (cb : Bool) (offset : ℕ)
    (buffer : Option (List ℕ)) (n : ℕ) (s : Sys D)
    → ((fs_list dev path cb s).1.fs ≡ s.fs)
      × ((fs_stat_path dev path s).1.fs ≡ s.fs)
      × ((fs_read dev path offset buffer n s).1.fs ≡ s.fs)
queries-fs dev path cb offset buffer n s =
    let Same : Fs → Type 0 = λ x. x ≡ s.fs in
    (
      (Keeps-fs_list dev {P = Same} path cb).at s refl,
      (Keeps-fs_stat_path dev {P = Same} path).at s refl,
      (Keeps-fs_read dev {P = Same} path offset buffer n).at s refl,
    )
