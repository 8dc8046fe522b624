-- ===== src/Fs/Sound/Mount.antt =====
-- `fs_mount`, `luxfs_format` and `luxfs_load_metadata` of src/kernel/fs/fs.c leave a sound `g_fs`.
use lux_kernel.Base.{
  ℕ, zero, suc, ◌+◌, ◌-◌, ◌*◌, ◌≤◌, ◌<◌, ◌≡◌, refl, sym, ap, ◌∙◌, true, not, Option, none, some,
  List, [], ◌∷◌, ◌++◌, arith, length, take, drop, length-append, length-drop, length-take,
  Bool-cases, subst, inl, inr,
}
use lux_kernel.Device.{Device, sector_size}
use lux_kernel.Fs.{
  Fs, Outcome, ok, fail, max_inodes, inodes_per_block, inode_table_blocks, start_lba,
  inode_bitmap_bytes, block_bitmap_bytes, super_block, inode_bitmap_block, block_bitmap_block,
}
use lux_kernel.Fs.Layout.{Superblock, Inode, inodes_at}
use lux_kernel.Fs.Bitmap.Update.{AllBytes}
use lux_kernel.Fs.Blocks.{
  splice, min_u32, ata_read, disk_read_block, load_inode_blocks, load_metadata, format,
  validate_superblock, fresh_fs, fresh_super,
}
use lux_kernel.Fs.Api.{start_device, check_size, fs_mount}
use lux_kernel.Fs.Keeps.{
  Leads, Keeps, Returns, Keeps-pure, Leads-if, Leads-attempt, Leads-put, Keeps-bind, Leads-bind,
  Leads-bind_result, Leads-get, Leads-elim, Leads-weaken, Leads-get_same,
}
use lux_kernel.Fs.Stable.{
  Keeps-read_block, Keeps-flush_superblock, Keeps-flush_inode_bitmap, Keeps-flush_block_bitmap,
  Keeps-flush_inode_blocks,
}
use lux_kernel.Fs.Sound.{Shape, IsSound, IsLoading, IsLoading-IsSound, Shape-inodes, fresh_fs-Shape}

-- A read that succeeds fills a sector with bytes.
abbrev pub IsSector : List ℕ → Type 0
IsSector bytes = (length bytes ≡ sector_size) × AllBytes bytes

abbrev pub FillsSectors : {D : Type 0} → Device D → Type 0
FillsSectors {D} dev =
    (lba : ℕ) (d : D) (bytes : List ℕ) → (dev.read lba d).0 ≡ some bytes → IsSector bytes

AllBytes-take : (n : ℕ) (xs : List ℕ) → AllBytes xs → AllBytes (take n xs)
AllBytes-take zero xs h = tt
AllBytes-take (suc n) [] h = tt
AllBytes-take (suc n) (x ∷ xs) h = (h.0, AllBytes-take n xs h.1)

length-inodes_at : (b : List ℕ) (i n : ℕ) → length (inodes_at b i n) ≡ n
unfolding inodes_at
length-inodes_at b i zero = refl
length-inodes_at b i (suc n) = omega (arith, length-inodes_at b (i + 60) n)

length-splice :
    (old new : List Inode) (i : ℕ)
    → i + length new ≤ length old
    → length (splice old i new) ≡ length old
unfolding splice
length-splice old new i le = omega (
  arith,
  length-append (take i old) (new ++ drop (i + length new) old),
  length-append new (drop (i + length new) old),
  length-drop (i + length new) old,
  length-take i old,
)

-- A record built from the parts of another.
with_super : (fs : Fs) (super : Superblock) → Shape fs → Shape (record fs { super = super })
with_super fs super h = record {
  inodes = h.inodes;
  inode_bits = h.inode_bits;
  inode_bytes = h.inode_bytes;
  block_bits = h.block_bits;
  block_bytes = h.block_bytes;
}

with_inode_bitmap :
    (fs : Fs) (buffer : List ℕ)
    → IsSector buffer
    → Shape fs
    → Shape (record fs { inode_bitmap = take inode_bitmap_bytes buffer })
with_inode_bitmap fs buffer sector h = record {
  inodes = h.inodes;
  inode_bits = omega (arith, length-take 16 buffer, sector.0);
  inode_bytes = AllBytes-take 16 buffer sector.1;
  block_bits = h.block_bits;
  block_bytes = h.block_bytes;
}

with_block_bitmap :
    (fs : Fs) (buffer : List ℕ)
    → IsSector buffer
    → Shape fs
    → Shape (record fs { block_bitmap = take block_bitmap_bytes buffer })
with_block_bitmap fs buffer sector h = record {
  inodes = h.inodes;
  inode_bits = h.inode_bits;
  inode_bytes = h.inode_bytes;
  block_bits = omega (arith, length-take 510 buffer, sector.0);
  block_bytes = AllBytes-take 510 buffer sector.1;
}

-- A block of the inode table in place.
with_inodes :
    (fs : Fs) (buffer : List ℕ) (block : ℕ)
    → block < inode_table_blocks
    → Shape fs
    → let start = block * inodes_per_block in
      let count = min_u32 inodes_per_block (max_inodes - start) in
      Shape (record fs { inodes = splice fs.inodes start (inodes_at buffer 0 count) })
unfolding min_u32
with_inodes fs buffer block lt h =
    let start = block * inodes_per_block in
    let count = min_u32 inodes_per_block (max_inodes - start) in
    let small : start + count ≤ max_inodes = ground arith in
    Shape-inodes fs _
      (length-splice fs.inodes (inodes_at buffer 0 count) start
          (omega (arith, length-inodes_at buffer 0 count, h.inodes, small))
        ∙ h.inodes)
      h

module _ {D : Type 0} (dev : Device D) (fills : FillsSectors dev) where
  Returns-read_block : (block : ℕ) → Returns IsSector (disk_read_block dev block)
  unfolding disk_read_block ata_read
  Returns-read_block block = record {
    result = λ s bytes e.
        fills (start_lba + block) s.disk bytes
          (from_ok (dev.read (start_lba + block) s.disk).0 bytes e);
  }
    where
      from_ok :
          (o : Option (List ℕ)) (bytes : List ℕ)
          → Path (Outcome (List ℕ)) (elim o [ none ↦ fail | some b ↦ ok b ]) (ok bytes)
          → o ≡ some bytes
      from_ok none bytes e = cc
      from_ok (some b) bytes e = cc

  Keeps-load_inode_blocks :
      (n block : ℕ)
      → block + n ≤ inode_table_blocks
      → Keeps IsLoading (load_inode_blocks dev n block)
  unfolding load_inode_blocks
  Keeps-load_inode_blocks zero block le = Keeps-pure tt
  Keeps-load_inode_blocks (suc n) block le = Keeps-bind _ _ (Keeps-read_block dev _) λ buffer.
      Leads-get _ λ fs h.
        Keeps-bind _ _
          (Leads-put _ (record {
            shape = with_inodes fs buffer block (omega (arith, le)) h.shape;
            idle = h.idle;
          }))
          λ _. Keeps-load_inode_blocks n (block + 1) (omega (arith, le))

  Keeps-load_metadata : Keeps IsLoading (load_metadata dev)
  unfolding load_metadata
  Keeps-load_metadata = Keeps-bind _ _ (Keeps-read_block dev super_block) λ buffer.
      Leads-get _ λ fs h.
        Keeps-bind _ _ (Leads-put _ (record { shape = with_super fs _ h.shape; idle = h.idle }))
          λ _.
            Leads-bind_result _ _ (λ fs h. h) (Keeps-read_block dev inode_bitmap_block)
              (Returns-read_block _)
              λ buffer sector. Leads-get _ λ fs h.
                Keeps-bind _ _
                  (Leads-put _
                    (record { shape = with_inode_bitmap fs buffer sector h.shape; idle = h.idle }))
                  λ _.
                    Leads-bind_result _ _ (λ fs h. h) (Keeps-read_block dev block_bitmap_block)
                      (Returns-read_block _)
                      λ buffer sector. Leads-get _ λ fs h.
                        Keeps-bind _ _
                          (Leads-put _ (record {
                            shape = with_block_bitmap fs buffer sector h.shape;
                            idle = h.idle;
                          }))
                          λ _. Keeps-load_inode_blocks 16 0 (omega arith)

-- The state of `luxfs_format` before it is mounted.
record IsFresh (fs : Fs) : Type 0 where
  loading : IsLoading fs
  super : fs.super ≡ fresh_super

IsFresh-IsSound : (fs : Fs) → IsFresh fs → IsSound fs
IsFresh-IsSound fs h = IsLoading-IsSound fs h.loading

fresh_fs-IsFresh : IsFresh fresh_fs
unfolding fresh_fs
fresh_fs-IsFresh = record { loading = record { shape = fresh_fs-Shape; idle = refl }; super = refl }

mounted-IsSound :
    (fs : Fs)
    → Shape fs
    → validate_superblock fs.super ≡ true
    → IsSound (record fs { mounted = true })
mounted-IsSound fs h valid = record {
  shape = record {
    inodes = h.inodes;
    inode_bits = h.inode_bits;
    inode_bytes = h.inode_bytes;
    block_bits = h.block_bits;
    block_bytes = h.block_bytes;
  };
  supported = λ on. valid;
}

fresh_super-valid : validate_superblock fresh_super ≡ true
unfolding validate_superblock
fresh_super-valid = refl

module _ {D : Type 0} (dev : Device D) where
  -- `luxfs_format` leaves a sound state, whatever the state was before and whichever write fails.
  pub format-IsSound :
      {P : Fs → Type 0} → ((fs : Fs) → P fs → IsSound fs) → Leads P IsSound (format dev)
  unfolding format
  format-IsSound weak = Leads-bind _ _ (IsFresh-IsSound) (Leads-put fresh_fs fresh_fs-IsFresh) λ _.
      Leads-bind _ _ (IsFresh-IsSound) (Keeps-flush_superblock dev) λ _.
        Leads-bind _ _ (IsFresh-IsSound) (Keeps-flush_inode_bitmap dev) λ _.
          Leads-bind _ _ (IsFresh-IsSound) (Keeps-flush_block_bitmap dev) λ _.
            Leads-bind _ _ (IsFresh-IsSound) (Keeps-flush_inode_blocks dev 16 0) λ _.
              Leads-get _ λ fs h. Leads-put _ (
                mounted-IsSound fs h.loading.shape
                  (ap validate_superblock h.super ∙ fresh_super-valid))

  Keeps-start_device : {P : Fs → Type 0} → Keeps P (start_device dev)
  unfolding start_device
  Keeps-start_device = record {
    at = λ s h. elim (Bool-cases (dev.ready s.disk)) [ inl e ↦ rw e h | inr e ↦ rw e h ];
  }

  Keeps-check_size : {P : Fs → Type 0} → Keeps P (check_size dev)
  unfolding check_size
  Keeps-check_size = record { at = λ s h. h }

module _ {D : Type 0} (dev : Device D) (fills : FillsSectors dev) where
  -- Mounting keeps the state sound on every branch: mounted already, a device that fails or is too small,
  -- metadata that cannot be read or is not valid, and metadata that is.
  pub fs_mount-IsSound : Keeps IsSound (fs_mount dev)
  unfolding fs_mount
  fs_mount-IsSound = Leads-get_same _ λ fs h.
      Leads-if fs.mounted _ _
        (λ on. Leads-weaken _ (λ x e. subst IsSound (sym e) h) (Keeps-pure tt))
        (λ off.
          Leads-weaken _ (λ x e. subst IsLoading (sym e) (record { shape = h.shape; idle = off }))
            (Leads-bind _ _ IsLoading-IsSound (Keeps-start_device dev) λ _.
              Leads-bind _ _ IsLoading-IsSound (Keeps-check_size dev) λ _.
                Leads-bind _ _ IsLoading-IsSound (Leads-attempt _ (Keeps-load_metadata dev fills))
                  λ loaded. Leads-elim loaded _ _ (format-IsSound dev IsLoading-IsSound) λ _.
                    Leads-get _ λ fs h.
                      Leads-if (not (validate_superblock fs.super)) _ _
                        (λ _. format-IsSound dev IsLoading-IsSound)
                        (λ valid.
                          Leads-put _ (mounted-IsSound fs h.shape (ground (arith, valid))))))
