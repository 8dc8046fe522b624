-- ===== src/Fs/Stable/Alloc.antt =====
-- The allocators of src/kernel/fs/fs.c change only inodes and bits.
use lux_kernel.Base.{
  ℕ, zero, suc, ◌+◌, Bool, true, false, not, Option, none, some, leb, ◌==◌, get_or,
}
use lux_kernel.Device.{Device}
use lux_kernel.Fs.{Fs, failed, max_inodes, direct_blocks, invalid_block, data_block_count}
use lux_kernel.Fs.Bitmap.{bitmap_test}
use lux_kernel.Fs.Alloc.{
  first_clear, take_inode, alloc_inode, take_block, alloc_block, free_block, release_loop,
  release_inode_blocks, mark_inode_free,
}
use lux_kernel.Fs.Keeps.{
  Keeps, Keeps-pure, Keeps-failed, Leads-if, Leads-attempt, Keeps-guard, Keeps-inode, Leads-put,
  Keeps-bind, Leads-get, Keeps-ignore,
}
use lux_kernel.Fs.Stable.{
  Stable, Keeps-flush_inode_bitmap, Keeps-flush_block_bitmap, Keeps-flush_inode, Keeps-set_inode,
}

module _ {D : Type 0} (dev : Device D) {P : Fs → Type 0} (stable : Stable P) where
  pub Keeps-take_inode : (t p i : ℕ) → Keeps P (take_inode dev t p i)
  unfolding take_inode
  Keeps-take_inode t p i = Keeps-bind _ _ (Keeps-inode i) λ n.
      Keeps-bind _ _ (Keeps-set_inode stable i _) λ _. Leads-get _ λ fs h.
        Keeps-bind _ _ (Leads-put _ (stable.inode_bit fs i true h)) λ _.
          Keeps-bind _ _ (Keeps-flush_inode_bitmap dev)
            λ _. Keeps-bind _ _ (Keeps-flush_inode dev i) λ _. Keeps-pure i

  pub Keeps-alloc_inode : (t p : ℕ) → Keeps P (alloc_inode dev t p)
  unfolding alloc_inode
  Keeps-alloc_inode t p = Leads-get _ λ fs h. chosen (first_clear fs.inode_bitmap max_inodes 0)
    where
      chosen :
          (o : Option ℕ)
          → Keeps {D = D} {A = ℕ} P (elim o [ none ↦ failed | some i ↦ take_inode dev t p i ])
      chosen none = Keeps-failed
      chosen (some i) = Keeps-take_inode t p i

  pub Keeps-take_block : (i : ℕ) → Keeps P (take_block dev i)
  unfolding take_block
  Keeps-take_block i = Leads-get _ λ fs h.
      Keeps-bind _ _ (Leads-put _ (stable.block_bit fs i true h))
        λ _. Keeps-bind _ _ (Keeps-flush_block_bitmap dev) λ _. Keeps-pure i

  pub Keeps-alloc_block : Keeps P (alloc_block dev)
  unfolding alloc_block
  Keeps-alloc_block = Leads-get _ λ fs h. chosen (first_clear fs.block_bitmap data_block_count 0)
    where
      chosen :
          (o : Option ℕ)
          → Keeps {D = D} {A = ℕ} P (elim o [ none ↦ failed | some i ↦ take_block dev i ])
      chosen none = Keeps-failed
      chosen (some i) = Keeps-take_block i

  pub Keeps-free_block : (i : ℕ) → Keeps P (free_block dev i)
  unfolding free_block
  Keeps-free_block i =
      Leads-if (leb data_block_count i) _ _ (λ _. Keeps-failed)
        λ _. Leads-get _ λ fs h.
          Leads-if (not (bitmap_test fs.block_bitmap i)) _ _ (λ _. Keeps-pure tt)
            λ _.
              Keeps-bind _ _ (Leads-put _ (stable.block_bit fs i false h))
                λ _. Keeps-flush_block_bitmap dev

  Keeps-release_loop : (index n i : ℕ) (done : Bool) → Keeps P (release_loop dev index n i done)
  unfolding release_loop
  Keeps-release_loop index zero i done = Keeps-pure done
  Keeps-release_loop index (suc n) i done = Keeps-bind _ _ (Keeps-inode index) λ node.
      Leads-if (get_or node.direct i 0 == invalid_block) _ _
        (λ _. Keeps-release_loop index n (i + 1) done)
        λ _. Keeps-bind _ _ (Leads-attempt _ (Keeps-free_block _)) λ freed.
          Keeps-bind _ _ (Keeps-inode index) λ node.
            Keeps-bind _ _ (Keeps-set_inode stable index _)
              λ _. Keeps-release_loop index n (i + 1) _

  pub Keeps-release_inode_blocks : (index : ℕ) → Keeps P (release_inode_blocks dev index)
  unfolding release_inode_blocks
  Keeps-release_inode_blocks index =
      Keeps-bind _ _ (Keeps-release_loop index direct_blocks 0 true) λ done.
        Keeps-bind _ _ (Keeps-inode index)
          λ node. Keeps-bind _ _ (Keeps-set_inode stable index _) λ _. Keeps-guard done

  pub Keeps-mark_inode_free : (index : ℕ) → Keeps P (mark_inode_free dev index)
  unfolding mark_inode_free
  Keeps-mark_inode_free index =
      Leads-if (leb max_inodes index) _ _ (λ _. Keeps-pure tt)
        λ _. Keeps-bind _ _ (Keeps-ignore _ (Keeps-release_inode_blocks index)) λ _.
          Keeps-bind _ _ (Keeps-inode index) λ node.
            Keeps-bind _ _ (Keeps-set_inode stable index _) λ _. Leads-get _ λ fs h.
              Keeps-bind _ _ (Leads-put _ (stable.inode_bit fs index false h)) λ _.
                Keeps-bind _ _ (Keeps-ignore _ (Keeps-flush_inode dev index))
                  λ _. Keeps-ignore _ (Keeps-flush_inode_bitmap dev)
