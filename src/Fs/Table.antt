-- ===== src/Fs/Table.antt =====
-- The inode table of src/kernel/fs/fs.c, written to the disk and read from there.
use lux_kernel.Base.{
  ℕ, zero, suc, ◌+◌, ◌-◌, ◌*◌, ◌≤◌, ◌<◌, ◌≡◌, refl, sym, ap, ap₂, ◌∙◌, false, List, [], ◌∷◌, ◌++◌,
  arith, length, take, drop, length-take, length-drop, ◌==◌, leb, inl, inr, Bool-cases, eq→==,
}
use lux_kernel.Device.{Device}
use lux_kernel.Strings.{memcpy}
use lux_kernel.Fs.{Sys, Outcome, ok, ◌>>=◌, get, put, pure, start_lba}
use lux_kernel.Fs.Layout.{Inode, inodes_bytes, inodes_at}
use lux_kernel.Fs.Layout.Bytes.{AllFit, length-inodes_bytes, inodes_at-At}
use lux_kernel.Fs.Blocks.{
  zeros, min_u32, splice, flush_inode_block, flush_inode_blocks, load_inode_blocks,
}
use lux_kernel.Fs.Disk.{
  Works, bind-ok, written, after_read, block_at, write-ok, read-ok, block_at-written, At-sector,
}

-- The inodes of a block of the table, and its sector.
abbrev pub slice : List Inode → ℕ → List Inode
slice ns block = take 8 (drop (block * 8) ns)

abbrev pub table_sector : List Inode → ℕ → List ℕ
table_sector ns block = memcpy zeros 0 (inodes_bytes (slice ns block)) 0 480

AllFit-take : (n : ℕ) (ns : List Inode) → AllFit ns → AllFit (take n ns)
AllFit-take zero ns fits = tt
AllFit-take (suc n) [] fits = tt
AllFit-take (suc n) (x ∷ ns) fits = (fits.0, AllFit-take n ns fits.1)

AllFit-drop : (n : ℕ) (ns : List Inode) → AllFit ns → AllFit (drop n ns)
AllFit-drop zero ns fits = fits
AllFit-drop (suc n) [] fits = tt
AllFit-drop (suc n) (x ∷ ns) fits = AllFit-drop n ns fits.1

-- A block of the table is read back.
slice-read :
    (ns : List Inode) (block : ℕ)
    → AllFit ns
    → length ns ≡ 128
    → block < 16
    → inodes_at (table_sector ns block) 0 8 ≡ slice ns block
slice-read ns block fits size lt =
    let part = slice ns block in
    let n : length part ≡ 8 =
      length-take 8 (drop (block * 8) ns) ∙ omega (arith, length-drop (block * 8) ns, size) in
    let all = AllFit-take 8 (drop (block * 8) ns) (AllFit-drop (block * 8) ns fits) in
    ap (inodes_at (table_sector ns block) 0) (sym n)
    ∙ inodes_at-At (table_sector ns block) 0 part all (
        At-sector (inodes_bytes part) 480 (length-inodes_bytes part all ∙ omega (arith, n))
          (omega arith))

-- The table after a block of it was copied in.
splice-next :
    (n : ℕ) (xs ys : List Inode)
    → n + 8 ≤ length xs
    → length ys ≡ length xs
    → splice (take n xs ++ drop n ys) n (take 8 (drop n xs)) ≡ take (n + 8) xs ++ drop (n + 8) ys
unfolding splice
splice-next zero xs ys fits same =
    let n : length (take 8 xs) ≡ 8 = length-take 8 xs ∙ omega (arith, fits) in
    ap (λ k. take 8 xs ++ drop k ys) {x = 0 + length (take 8 xs)} {y = 8} (omega (arith, n))
splice-next (suc n) [] ys fits same = absurd (omega (arith, fits))
splice-next (suc n) (x ∷ xs) [] fits same = absurd (omega (arith, same))
splice-next (suc n) (x ∷ xs) (y ∷ ys) fits same =
    let zs = take n xs ++ drop n ys in
    let new = take 8 (drop n xs) in
    ap (λ k. x ∷ (take n zs ++ (new ++ drop k (x ∷ zs)))) {x = suc n + length new}
      {y = suc (n + length new)} (omega arith)
    ∙ ap (◌∷◌ x) (splice-next n xs ys (omega arith) (omega arith))
    ∙ sym (
        ap (λ k. take k (x ∷ xs) ++ drop k (y ∷ ys)) {x = suc n + 8} {y = suc (n + 8)}
          (omega arith))

take-drop_whole :
    (n : ℕ) (xs ys : List Inode) → length xs ≡ n → length ys ≡ n → take n xs ++ drop n ys ≡ xs
take-drop_whole zero [] [] e f = refl
take-drop_whole zero [] (y ∷ ys) e f = absurd (omega (arith, f))
take-drop_whole zero (x ∷ xs) ys e f = absurd (omega (arith, e))
take-drop_whole (suc n) [] ys e f = absurd (omega (arith, e))
take-drop_whole (suc n) (x ∷ xs) [] e f = absurd (omega (arith, f))
take-drop_whole (suc n) (x ∷ xs) (y ∷ ys) e f =
    ap (◌∷◌ x) (take-drop_whole n xs ys (omega arith) (omega arith))

module _ {D : Type 0} (dev : Device D) (works : Works dev) where
  flush_inode_block-ok :
      (block : ℕ) (s : Sys D)
      → block < 16
      → flush_inode_block dev block s ≡ (
        ok tt,
        record s { disk = written dev works (3 + block) (table_sector s.fs.inodes block) s.disk },
      )
  unfolding flush_inode_block ◌>>=◌ get min_u32
  flush_inode_block-ok block s lt =
      let known : leb 16 block ≡ false = ground (arith, lt) in
      let count : min_u32 8 (128 - block * 8) ≡ 8 = ground (arith, lt) in
      rw (known, count) (write-ok dev works (3 + block) (table_sector s.fs.inodes block) s)

  -- The blocks of the table have been written.
  pub record Flushed (block n : ℕ) (s : Sys D) (r : Outcome (Unit {0}) × Sys D) : Type 0 where
    pub disk : D
    pub result : r ≡ (ok tt, record s { disk = disk })
    pub table :
        (b : ℕ)
        → block ≤ b
        → b < block + n
        → block_at dev works disk (3 + b) ≡ table_sector s.fs.inodes b
    pub others : (x : ℕ) → x < 3 + block → block_at dev works disk x ≡ block_at dev works s.disk x

  pub flush_inode_blocks-Flushed :
      (n block : ℕ) (s : Sys D)
      → block + n ≤ 16
      → Flushed block n s (flush_inode_blocks dev n block s)
  unfolding flush_inode_blocks pure
  flush_inode_blocks-Flushed zero block s fits = record {
    disk = s.disk;
    result = refl;
    table = λ b ge lt. absurd (omega (arith, ge, lt));
    others = λ x lt. refl;
  }
  flush_inode_blocks-Flushed (suc n) block s fits =
      let d = written dev works (3 + block) (table_sector s.fs.inodes block) s.disk in
      let s' : Sys D = record s { disk = d } in
      let r = flush_inode_blocks-Flushed n (block + 1) s' (omega arith) in
      let read = λ (x : ℕ).
        block_at-written dev works (3 + block) (table_sector s.fs.inodes block) s.disk x in
      record {
        disk = r.disk;
        result = bind-ok _ _ s s' tt (flush_inode_block-ok block s (omega arith)) ∙ r.result;
        table = λ b ge lt. elim (Bool-cases (b == block)) [
          | inl e ↦
              let same : b ≡ block = ground (arith, e) in
              r.others (3 + b) (omega (arith, same))
              ∙ read (3 + b)
              ∙ rw (eq→== (3 + b) (3 + block) (ap (λ k. 3 + k) same))
                  (ap (table_sector s.fs.inodes) (sym same))
          | inr e ↦ r.table b (ground (arith, e, ge)) (omega (arith, lt))
        ];
        others = λ x lt. r.others x (omega (arith, lt)) ∙ read x ∙ ground (arith, lt);
      }

  -- The blocks of the table have been read.
  pub record Loaded (ns : List Inode) (s : Sys D) (r : Outcome (Unit {0}) × Sys D) : Type 0 where
    pub disk : D
    pub result : r ≡ (ok tt, record { fs = record (s.fs) { inodes = ns }; disk = disk })
    pub same : (x : ℕ) → block_at dev works disk x ≡ block_at dev works s.disk x

  load_round :
      (n block : ℕ) (s : Sys D)
      → load_inode_blocks dev (suc n) block s
        ≡ load_inode_blocks dev n (block + 1) (record {
          fs = record (s.fs) {
            inodes =
                splice s.fs.inodes (block * 8) (
                  inodes_at
                    (block_at dev works s.disk (3 + block))
                    0
                    (min_u32 8 (128 - block * 8)));
          };
          disk = after_read dev works (3 + block) s.disk;
        })
  unfolding load_inode_blocks ◌>>=◌ get put
  load_round n block s = rw (read-ok dev works (3 + block) s) refl

  pub load_inode_blocks-Loaded :
      (n block : ℕ) (ns old : List Inode) (s : Sys D)
      → n + block ≡ 16
      → AllFit ns
      → length ns ≡ 128
      → length old ≡ 128
      → ((b : ℕ) → b < 16 → block_at dev works s.disk (3 + b) ≡ table_sector ns b)
      → s.fs.inodes ≡ take (block * 8) ns ++ drop (block * 8) old
      → Loaded ns s (load_inode_blocks dev n block s)
  unfolding load_inode_blocks pure min_u32
  load_inode_blocks-Loaded zero block ns old s last fits size old_size stored here = record {
    disk = s.disk;
    result =
        ap (λ xs. (ok tt, record { fs = record (s.fs) { inodes = xs }; disk = s.disk }))
          (here
            ∙ take-drop_whole (block * 8) ns old (omega (arith, size, last))
                (omega (arith, old_size, last)));
    same = λ x. refl;
  }
  load_inode_blocks-Loaded (suc n) block ns old s last fits size old_size stored here =
      let count : min_u32 8 (128 - block * 8) ≡ 8 = ground (arith, last) in
      let buffer = block_at dev works s.disk (3 + block) in
      let d = after_read dev works (3 + block) s.disk in
      let s' : Sys D = record {
        fs = record (s.fs) {
          inodes =
              splice s.fs.inodes (block * 8) (inodes_at buffer 0 (min_u32 8 (128 - block * 8)));
        };
        disk = d;
      } in
      let new : inodes_at buffer 0 (min_u32 8 (128 - block * 8)) ≡ slice ns block =
        ap (inodes_at buffer 0) count
        ∙ ap (λ b. inodes_at b 0 8) (stored block (omega (arith, last)))
        ∙ slice-read ns block fits size (omega (arith, last)) in
      let reading = λ (x : ℕ). works.reading (start_lba + (3 + block)) s.disk (start_lba + x) in
      let r =
        load_inode_blocks-Loaded n (block + 1) ns old s' (omega (arith, last)) fits size old_size
          (λ b lt. reading (3 + b) ∙ stored b lt)
          (ap₂ (λ xs ys. splice xs (block * 8) ys) here new
            ∙ splice-next (block * 8) ns old (omega (arith, size, last))
                (omega (arith, size, old_size))
            ∙ ap (λ k. take k ns ++ drop k old) {x = block * 8 + 8} {y = (block + 1) * 8}
                (omega arith)) in
      record {
        disk = r.disk;
        result = load_round n block s ∙ r.result;
        same = λ x. r.same x ∙ reading x;
      }
