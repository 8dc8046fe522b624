-- ===== src/Fs/Sound.antt =====
-- The shape of `g_fs` in src/kernel/fs/fs.c: arrays of their declared lengths, and once it is mounted a
-- superblock that `luxfs_validate_superblock` accepts.
pub mod Mount
pub mod Reach
use lux_kernel.Base.{
  ℕ, zero, suc, ◌+◌, ◌-◌, ◌*◌, ◌/◌, ◌≤◌, ◌<◌, replicate, ◌≡◌, refl, Bool, true, false, Option, none,
  some, List, length, arith, take, drop, set, ◌++◌, length-set, length-append, ◌∙◌,
}
use lux_kernel.Device.{Device, sector_size}
use lux_kernel.Fs.{Fs, Sys, M, max_inodes, inode_bitmap_bytes, block_bitmap_bytes, put, set_inode}
use lux_kernel.Fs.Layout.{Inode, inodes_at}
use lux_kernel.Fs.Blocks.{validate_superblock, fresh_fs, splice}
use lux_kernel.Fs.Bitmap.{bitmap_set}
use lux_kernel.Fs.Bitmap.Update.{AllBytes, AllBytes-bitmap_set}
use lux_kernel.Fs.Stable.{Stable}

pub record Shape (fs : Fs) : Type 0 where
  pub inodes : length fs.inodes ≡ max_inodes
  pub inode_bits : length fs.inode_bitmap ≡ inode_bitmap_bytes
  pub inode_bytes : AllBytes fs.inode_bitmap
  pub block_bits : length fs.block_bitmap ≡ block_bitmap_bytes
  pub block_bytes : AllBytes fs.block_bitmap

pub record IsSound (fs : Fs) : Type 0 where
  pub shape : Shape fs
  pub supported : fs.mounted ≡ true → validate_superblock fs.super ≡ true

-- In between, while the metadata is loaded.
pub record IsLoading (fs : Fs) : Type 0 where
  pub shape : Shape fs
  pub idle : fs.mounted ≡ false

pub IsLoading-IsSound : (fs : Fs) → IsLoading fs → IsSound fs
IsLoading-IsSound fs h = record { shape = h.shape; supported = λ on. ground (arith, h.idle) }

pub AllBytes-replicate : (n b : ℕ) → b < 256 → AllBytes (replicate n b)
AllBytes-replicate zero b lt = tt
AllBytes-replicate (suc n) b lt = (lt, AllBytes-replicate n b lt)

pub fresh_fs-Shape : Shape fresh_fs
unfolding fresh_fs
fresh_fs-Shape = record {
  inodes = refl;
  inode_bits = refl;
  inode_bytes =
      AllBytes-bitmap_set (replicate inode_bitmap_bytes 0) 0 true
        (AllBytes-replicate inode_bitmap_bytes 0 (omega arith));
  block_bits = refl;
  block_bytes = AllBytes-replicate block_bitmap_bytes 0 (omega arith);
}

length-bitmap_set : (bits : List ℕ) (i : ℕ) (v : Bool) → length (bitmap_set bits i v) ≡ length bits
unfolding bitmap_set
length-bitmap_set bits i v = length-set bits (i / 8) _

pub Shape-inode_bitmap :
    (fs : Fs) (i : ℕ) (v : Bool)
    → Shape fs
    → Shape (record fs { inode_bitmap = bitmap_set fs.inode_bitmap i v })
Shape-inode_bitmap fs i v h = record {
  inodes = h.inodes;
  inode_bits = length-bitmap_set fs.inode_bitmap i v ∙ h.inode_bits;
  inode_bytes = AllBytes-bitmap_set fs.inode_bitmap i v h.inode_bytes;
  block_bits = h.block_bits;
  block_bytes = h.block_bytes;
}

pub Shape-block_bitmap :
    (fs : Fs) (i : ℕ) (v : Bool)
    → Shape fs
    → Shape (record fs { block_bitmap = bitmap_set fs.block_bitmap i v })
Shape-block_bitmap fs i v h = record {
  inodes = h.inodes;
  inode_bits = h.inode_bits;
  inode_bytes = h.inode_bytes;
  block_bits = length-bitmap_set fs.block_bitmap i v ∙ h.block_bits;
  block_bytes = AllBytes-bitmap_set fs.block_bitmap i v h.block_bytes;
}

pub Shape-inodes :
    (fs : Fs) (ns : List Inode)
    → length ns ≡ max_inodes
    → Shape fs
    → Shape (record fs { inodes = ns })
Shape-inodes fs ns e h = record {
  inodes = e;
  inode_bits = h.inode_bits;
  inode_bytes = h.inode_bytes;
  block_bits = h.block_bits;
  block_bytes = h.block_bytes;
}

pub IsSound-Stable : Stable IsSound
IsSound-Stable = record {
  table = λ fs i n h. record {
    shape = Shape-inodes fs (set fs.inodes i n) (length-set fs.inodes i n ∙ h.shape.inodes) h.shape;
    supported = h.supported;
  };
  inode_bit =
      λ fs i v h. record { shape = Shape-inode_bitmap fs i v h.shape; supported = h.supported };
  block_bit =
      λ fs i v h. record { shape = Shape-block_bitmap fs i v h.shape; supported = h.supported };
}
