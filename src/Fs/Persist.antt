-- ===== src/Fs/Persist.antt =====
-- The metadata that src/kernel/fs/fs.c writes to the disk is what it loads from there.
use lux_kernel.Base.{ℕ, zero, suc, ◌+◌, ◌<◌, ◌≡◌, refl, ap, ◌∙◌, arith, length, take, replicate}
use lux_kernel.Device.{Device}
use lux_kernel.Strings.{memcpy}
use lux_kernel.Fs.{Fs, Sys, M, Outcome, ok, ◌>>=◌, ◌>>◌, get, put, start_lba, total_sectors}
use lux_kernel.Fs.Layout.{Inode, superblock_bytes, superblock_at}
use lux_kernel.Fs.Layout.Bytes.{FitsWords, FitsInode, AllFit, superblock_at-superblock_bytes}
use lux_kernel.Fs.Blocks.{
  zeros, flush_superblock, flush_inode_bitmap, flush_block_bitmap, flush_inode_blocks,
  load_inode_blocks, load_metadata, fresh_fs, inode_clear, blank_inode,
}
use lux_kernel.Fs.Table.{
  Flushed, flush_inode_blocks-Flushed, load_inode_blocks-Loaded, table_sector,
}
use lux_kernel.Fs.Bitmap.{bitmap_set}
use lux_kernel.Fs.Disk.{
  Works, written, after_read, block_at, write-ok, read-ok, block_at-written, take-sector,
}

-- The arrays of `g_fs` have their lengths, and all numbers fit.
pub record Fits (f : Fs) : Type 0 where
  pub super : FitsWords f.super
  pub inode_bits : length f.inode_bitmap ≡ 16
  pub block_bits : length f.block_bitmap ≡ 510
  pub inodes : length f.inodes ≡ 128
  pub fields : AllFit f.inodes

module _ {D : Type 0} (dev : Device D) where
  -- All of the metadata is written, as `luxfs_format` does it.
  abbrev pub flush_all : M D (Unit {0})
  flush_all = do
    flush_superblock dev
    flush_inode_bitmap dev
    flush_block_bitmap dev
    flush_inode_blocks dev 16 0

module _ {D : Type 0} (dev : Device D) (works : Works dev) where
  -- The disk holds the metadata.
  pub record Stored (f : Fs) (d : D) : Type 0 where
    pub super : block_at dev works d 0 ≡ memcpy zeros 0 (superblock_bytes f.super) 0 40
    pub inode_bits : block_at dev works d 1 ≡ memcpy zeros 0 f.inode_bitmap 0 16
    pub block_bits : block_at dev works d 2 ≡ memcpy zeros 0 f.block_bitmap 0 510
    pub table : (b : ℕ) → b < 16 → block_at dev works d (3 + b) ≡ table_sector f.inodes b

  load_start :
      (s : Sys D)
      → let d1 = after_read dev works 0 s.disk in
        let d2 = after_read dev works 1 d1 in
        load_metadata dev s
        ≡ load_inode_blocks dev 16 0 (record {
          fs = record (s.fs) {
            super = superblock_at (block_at dev works s.disk 0);
            inode_bitmap = take 16 (block_at dev works d1 1);
            block_bitmap = take 510 (block_at dev works d2 2);
          };
          disk = after_read dev works 2 d2;
        })
  unfolding load_metadata ◌>>=◌ get put
  load_start s =
      let d1 = after_read dev works 0 s.disk in
      let d2 = after_read dev works 1 d1 in
      rw (read-ok dev works 0 s) (rw (read-ok dev works 1 _) (rw (read-ok dev works 2 _) refl))

  -- The metadata of a file system is on the disk, and a run has loaded it.
  pub record LoadedAll (f g : Fs) (d : D) (r : Outcome (Unit {0}) × Sys D) : Type 0 where
    pub disk : D
    pub result : r ≡ (ok tt, record { fs = record f { mounted = g.mounted }; disk = disk })
    pub same : (x : ℕ) → block_at dev works disk x ≡ block_at dev works d x

  load_metadata-LoadedAll :
      (f g : Fs) (d : D)
      → Fits f
      → length g.inodes ≡ 128
      → Stored f d
      → LoadedAll f g d (load_metadata dev (record { fs = g; disk = d }))
  load_metadata-LoadedAll f g d fits size on =
      let s : Sys D = record { fs = g; disk = d } in
      let d1 = after_read dev works 0 d in
      let d2 = after_read dev works 1 d1 in
      let d3 = after_read dev works 2 d2 in
      let read1 = λ (x : ℕ). works.reading (start_lba + 0) d (start_lba + x) in
      let read2 = λ (x : ℕ). works.reading (start_lba + 1) d1 (start_lba + x) ∙ read1 x in
      let read3 = λ (x : ℕ). works.reading (start_lba + 2) d2 (start_lba + x) ∙ read2 x in
      let s3 : Sys D = record {
        fs = record g {
          super = superblock_at (block_at dev works d 0);
          inode_bitmap = take 16 (block_at dev works d1 1);
          block_bitmap = take 510 (block_at dev works d2 2);
        };
        disk = d3;
      } in
      let super = ap superblock_at on.super ∙ superblock_at-superblock_bytes f.super fits.super in
      let inode_bits =
        ap (take 16) (read1 1 ∙ on.inode_bits)
        ∙ take-sector f.inode_bitmap 16 fits.inode_bits (omega arith) in
      let block_bits =
        ap (take 510) (read2 2 ∙ on.block_bits)
        ∙ take-sector f.block_bitmap 510 fits.block_bits (omega arith) in
      let r =
        load_inode_blocks-Loaded dev works 16 0 f.inodes g.inodes s3 refl fits.fields fits.inodes
          size (λ b lt. read3 (3 + b) ∙ on.table b lt) refl in
      record {
        disk = r.disk;
        result = load_start s ∙ r.result ∙ (λ i. (
          ok tt,
          record {
            fs = record {
              mounted = g.mounted;
              super = super i;
              inodes = f.inodes;
              inode_bitmap = inode_bits i;
              block_bitmap = block_bits i;
            };
            disk = r.disk;
          },
        ));
        same = λ x. r.same x ∙ read3 x;
      }

  -- The disk when the superblock and the bitmaps have been written.
  abbrev bitmaps_written : Fs → D → D
  bitmaps_written f d = written dev works 2 (memcpy zeros 0 f.block_bitmap 0 510) (
      written dev works 1 (memcpy zeros 0 f.inode_bitmap 0 16)
        (written dev works 0 (memcpy zeros 0 (superblock_bytes f.super) 0 40) d))

  flush_start :
      (s : Sys D)
      → flush_all dev s
        ≡ flush_inode_blocks dev 16 0 (record s { disk = bitmaps_written s.fs s.disk })
  unfolding flush_superblock flush_inode_bitmap flush_block_bitmap ◌>>=◌ get
  flush_start s =
      rw (write-ok dev works 0 _ s)
        (rw (write-ok dev works 1 _ _) (rw (write-ok dev works 2 _ _) refl))

  Flushed-Stored :
      (s : Sys D)
      → let s' : Sys D = record s { disk = bitmaps_written s.fs s.disk } in
        (r : Flushed dev works 0 16 s' (flush_inode_blocks dev 16 0 s')) → Stored s.fs r.disk
  Flushed-Stored s r =
      let sb = memcpy zeros 0 (superblock_bytes s.fs.super) 0 40 in
      let ib = memcpy zeros 0 s.fs.inode_bitmap 0 16 in
      let bb = memcpy zeros 0 s.fs.block_bitmap 0 510 in
      let w0 = written dev works 0 sb s.disk in
      let w1 = written dev works 1 ib w0 in
      let read0 = block_at-written dev works 0 sb s.disk in
      let read1 = block_at-written dev works 1 ib w0 in
      let read2 = block_at-written dev works 2 bb w1 in
      record {
        super = r.others 0 (omega arith) ∙ read2 0 ∙ read1 0 ∙ read0 0;
        inode_bits = r.others 1 (omega arith) ∙ read2 1 ∙ read1 1;
        block_bits = r.others 2 (omega arith) ∙ read2 2;
        table = λ b lt. r.table b (omega arith) (omega (arith, lt));
      }

  -- On a working disk, the functions that write the metadata, `luxfs_flush_superblock` to the blocks of the inode
  -- table, succeed and leave `g_fs` alone; and then, from any other `g_fs` with an array of 128 inodes,
  -- `luxfs_load_metadata` succeeds, and its superblock, bitmaps and inodes are those that were written,
  -- while the flag `mounted` stays. The arrays that are written have their lengths, and their numbers
  -- fit into the fields of the structures.
  pub load_metadata-flush :
      (s : Sys D) (g : Fs)
      → Fits s.fs
      → length g.inodes ≡ 128
      → let flushed = flush_all dev s in
        let loaded = load_metadata dev (record { fs = g; disk = flushed.1.disk }) in
        (flushed.0 ≡ ok tt)
        × (flushed.1.fs ≡ s.fs)
        × (loaded.0 ≡ ok tt)
        × (loaded.1.fs ≡ record (s.fs) { mounted = g.mounted })
  load_metadata-flush s g fits size =
      let s' : Sys D = record s { disk = bitmaps_written s.fs s.disk } in
      let r = flush_inode_blocks-Flushed dev works 16 0 s' (omega arith) in
      let e = flush_start s ∙ r.result in
      let l = load_metadata-LoadedAll s.fs g r.disk fits size (Flushed-Stored s r) in
      rw e (refl, refl, ap (λ x. x.0) l.result, ap (λ x. x.1.fs) l.result)

AllFit-replicate : (n : ℕ) (i : Inode) → FitsInode i → AllFit (replicate n i)
AllFit-replicate zero i fits = tt
AllFit-replicate (suc n) i fits = (fits, AllFit-replicate n i fits)

pub fresh_fs-Fits : Fits fresh_fs
unfolding fresh_fs inode_clear bitmap_set
fresh_fs-Fits = record {
  super = record {
    magic = omega arith;
    version = omega arith;
    block_size = omega arith;
    start_lba = omega arith;
    total_sectors = omega arith;
    inode_table_start = omega arith;
    inode_count = omega arith;
    data_block_start = omega arith;
    data_block_count = omega arith;
    root_inode = omega arith;
  };
  inode_bits = refl;
  block_bits = refl;
  inodes = refl;
  fields = (
    cleared 1 (omega arith),
    AllFit-replicate 127 (inode_clear blank_inode) (cleared 0 (omega arith)),
  );
}
  where
    cleared :
        (type : ℕ)
        → type < 256
        → FitsInode (record (inode_clear blank_inode) { type = type; parent = 0 })
    cleared type lt = record {
      type = lt;
      reserved0 = omega arith;
      reserved1 = omega arith;
      size = omega arith;
      parent = omega arith;
      direct = (
        omega arith,
        (
          omega arith,
          (
            omega arith,
            (omega arith, (omega arith, (omega arith, (omega arith, (omega arith, tt))))),
          ),
        ),
      );
      directs = refl;
      reserved_tail = (omega arith, (omega arith, (omega arith, (omega arith, tt))));
      reserved_tails = refl;
    }
