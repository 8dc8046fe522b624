-- ===== src/Fs/Stable/Api.antt =====
-- The public functions of src/kernel/fs/fs.c, `fs_mount` and `luxfs_format` apart, change only inodes and
-- bits.
use lux_kernel.Base.{
  ℕ, zero, suc, ◌+◌, ◌-◌, ◌/◌, ◌%◌, Bool, true, false, not, Option, none, some, List, [], leb, ltb,
  ◌==◌, if◌then◌else◌, get_or,
}
use lux_kernel.Device.{Device}
use lux_kernel.Strings.{memcpy}
use lux_kernel.Fs.{Fs, direct_blocks, invalid_block}
use lux_kernel.Fs.Layout.{Inode}
use lux_kernel.Fs.Keeps.{
  Keeps, Keeps-pure, Keeps-failed, Keeps-faulted, Leads-if, Leads-attempt, Keeps-guard, Keeps-inode,
  Keeps-bind, Leads-get, Leads-elim,
}
use lux_kernel.Fs.Stable.{
  Stable, Keeps-read_data, Keeps-write_data, Keeps-flush_inode, Keeps-set_inode,
}
use lux_kernel.Device.{sector_size}
use lux_kernel.Fs.Directory.{dir_emit_cb}
use lux_kernel.Fs.{node_dir}
use lux_kernel.Fs.Stable.Alloc.{
  Keeps-alloc_block, Keeps-alloc_inode, Keeps-release_inode_blocks, Keeps-mark_inode_free,
}
use lux_kernel.Fs.{node_file}
use lux_kernel.Fs.Stable.Directory.{
  Keeps-dir_iterate, Keeps-emit_cb, Keeps-dir_find, Keeps-resolve, Keeps-resolve_parent,
  Keeps-append,
}
use lux_kernel.Fs.Api.{
  is_reserved, bytes_or, ready_path, create, fs_touch, fs_mkdir, fs_list, fs_stat_path, read_loop,
  fs_read, write_block, write_loop, truncated, fs_write,
}

module _ {D : Type 0} (dev : Device D) {P : Fs → Type 0} where
  Keeps-ready_path : (path : Option (List ℕ)) → Keeps P (ready_path dev path)
  unfolding ready_path
  Keeps-ready_path path = Leads-get _ λ fs h. Keeps-guard _

  pub Keeps-fs_list : (path : Option (List ℕ)) (cb : Bool) → Keeps P (fs_list dev path cb)
  unfolding fs_list
  Keeps-fs_list path cb = Leads-get _ λ fs h.
      Leads-if (not fs.mounted) _ _ (λ _. Keeps-pure _)
        λ _. Keeps-bind _ _ (Leads-attempt _ (Keeps-resolve dev _)) λ found.
          Leads-elim found _ _ (Keeps-pure _) λ i. Keeps-bind _ _ (Keeps-inode i) λ node.
            Leads-if (node.type == node_file) _ _ (λ _. Keeps-pure _)
              λ _.
                Leads-if (not cb) _ _ (λ _. Keeps-pure _)
                  λ _. Keeps-dir_iterate dev dir_emit_cb Keeps-emit_cb i []

  pub Keeps-fs_stat_path : (path : Option (List ℕ)) → Keeps P (fs_stat_path dev path)
  unfolding fs_stat_path
  Keeps-fs_stat_path path = Keeps-bind _ _ (Keeps-ready_path path) λ _.
      Keeps-bind _ _ (Keeps-resolve dev path) λ i. Keeps-bind _ _ (Keeps-inode i) λ n. Keeps-pure _

  Keeps-read_loop :
      (fuel : ℕ) (node : Inode) (offset : ℕ) (buffer : List ℕ) (total remaining : ℕ)
      → Keeps P (read_loop dev fuel node offset buffer total remaining)
  unfolding read_loop
  Keeps-read_loop zero node offset buffer total remaining = Keeps-faulted
  Keeps-read_loop (suc fuel) node offset buffer total remaining =
      let block_idx = offset / sector_size in
      let data_block = get_or node.direct block_idx 0 in
      let room = sector_size - offset % sector_size in
      let chunk = if ltb remaining room then remaining else room in
      Leads-if (remaining == 0) _ _ (λ _. Keeps-pure _)
        λ _.
          Leads-if (leb direct_blocks block_idx) _ _ (λ _. Keeps-pure _)
            λ _.
              Leads-if (data_block == invalid_block) _ _ (λ _. Keeps-pure _)
                λ _. Keeps-bind _ _ (Keeps-read_data dev data_block) λ block.
                  Keeps-read_loop fuel node (offset + chunk)
                    (memcpy buffer total block (offset % sector_size) chunk) (total + chunk)
                    (remaining - chunk)

  pub Keeps-fs_read :
      (path : Option (List ℕ)) (offset : ℕ) (buffer : Option (List ℕ)) (length : ℕ)
      → Keeps P (fs_read dev path offset buffer length)
  unfolding fs_read
  Keeps-fs_read path offset none length = Keeps-failed
  Keeps-fs_read path offset (some buffer) length = Keeps-bind _ _ (Keeps-ready_path path) λ _.
      Keeps-bind _ _ (Keeps-resolve dev path) λ i. Keeps-bind _ _ (Keeps-inode i) λ node.
        let available = node.size - offset in
        Leads-if (not (node.type == node_file)) _ _ (λ _. Keeps-failed)
          λ _.
            Leads-if (leb node.size offset) _ _ (λ _. Keeps-pure _)
              λ _.
                Keeps-read_loop (direct_blocks + 1) node offset buffer 0
                  (if ltb length available then length else available)

module _ {D : Type 0} (dev : Device D) {P : Fs → Type 0} (stable : Stable P) where
  Keeps-create : (type parent : ℕ) (leaf : List ℕ) → Keeps P (create dev type parent leaf)
  unfolding create
  Keeps-create type parent leaf = Keeps-bind _ _ (Keeps-alloc_inode dev stable type parent) λ i.
      Keeps-bind _ _ (Leads-attempt _ (Keeps-append dev stable parent _)) λ appended.
        Leads-elim appended _ _
          (Keeps-bind _ _ (Keeps-mark_inode_free dev stable i) λ _. Keeps-failed)
          (λ _. Keeps-pure tt)

  pub Keeps-fs_touch : (path : Option (List ℕ)) → Keeps P (fs_touch dev path)
  unfolding fs_touch
  Keeps-fs_touch path = Keeps-bind _ _ (Keeps-ready_path dev path) λ _.
      Keeps-bind _ _ (Leads-attempt _ (Keeps-resolve dev path)) λ existing.
        Leads-elim existing _ _
          (Keeps-bind _ _ (Keeps-resolve_parent dev path) λ at.
            Leads-if (is_reserved at.1) _ _ (λ _. Keeps-failed)
              λ _. Keeps-bind _ _ (Leads-attempt _ (Keeps-dir_find dev at.0 at.1)) λ there.
                Leads-elim there _ _ (Keeps-create node_file at.0 at.1) (λ _. Keeps-pure tt))
          (λ i. Keeps-bind _ _ (Keeps-inode i) λ n. Keeps-guard _)

  pub Keeps-fs_mkdir : (path : Option (List ℕ)) → Keeps P (fs_mkdir dev path)
  unfolding fs_mkdir
  Keeps-fs_mkdir path = Keeps-bind _ _ (Keeps-ready_path dev path) λ _.
      Keeps-bind _ _ (Leads-attempt _ (Keeps-resolve dev path)) λ existing.
        Leads-elim existing _ _
          (Keeps-bind _ _ (Keeps-resolve_parent dev path) λ at.
            Leads-if (is_reserved at.1) _ _ (λ _. Keeps-failed)
              λ _.
                Keeps-bind _ _ (Leads-attempt _ (Keeps-dir_find dev at.0 at.1)) λ there.
                  Leads-elim there _ _ (Keeps-create node_dir at.0 at.1) (λ _. Keeps-failed))
          (λ i. Keeps-failed)

  Keeps-write_block : (index b : ℕ) → Keeps P (write_block dev index b)
  unfolding write_block
  Keeps-write_block index b = Keeps-bind _ _ (Keeps-inode index) λ node.
      Leads-if (get_or node.direct b 0 == invalid_block) _ _
        (λ _. Keeps-bind _ _ (Keeps-alloc_block dev stable) λ new.
          Keeps-bind _ _ (Keeps-inode index)
            λ node. Keeps-bind _ _ (Keeps-set_inode stable index _) λ _. Keeps-pure _)
        (λ _. Keeps-bind _ _ (Keeps-read_data dev _) λ block. Keeps-pure _)

  Keeps-write_loop :
      (fuel index : ℕ) (src : List ℕ) (length total offset : ℕ)
      → Keeps P (write_loop dev fuel index src length total offset)
  unfolding write_loop
  Keeps-write_loop zero index src length total offset = Keeps-faulted
  Keeps-write_loop (suc fuel) index src length total offset =
      let block_idx = offset / sector_size in
      let room = sector_size - offset % sector_size in
      let remaining = length - total in
      let chunk = if ltb remaining room then remaining else room in
      Leads-if (leb length total) _ _ (λ _. Keeps-pure _)
        λ _.
          Leads-if (leb direct_blocks block_idx) _ _ (λ _. Keeps-failed)
            λ _. Keeps-bind _ _ (Keeps-write_block index block_idx) λ at.
              Keeps-bind _ _ (Keeps-write_data dev at.0 _)
                λ _. Keeps-write_loop fuel index src length (total + chunk) (offset + chunk)

  Keeps-truncated : (index : ℕ) (truncate : Bool) → Keeps P (truncated dev index truncate)
  unfolding truncated
  Keeps-truncated index true =
      Keeps-bind _ _ (Keeps-release_inode_blocks dev stable index)
        λ _. Keeps-bind _ _ (Keeps-inode index) λ node. Keeps-set_inode stable index _
  Keeps-truncated index false = Keeps-pure tt

  pub Keeps-fs_write :
      (path : Option (List ℕ)) (offset : ℕ) (buffer : Option (List ℕ)) (length : ℕ)
      (truncate : Bool)
      → Keeps P (fs_write dev path offset buffer length truncate)
  unfolding fs_write
  Keeps-fs_write path offset buffer length truncate =
      Keeps-bind _ _ (Keeps-ready_path dev path) λ _. Keeps-bind _ _ (Keeps-guard _) λ _.
        Keeps-bind _ _ (Keeps-guard _) λ _. Keeps-bind _ _ (Keeps-guard _) λ _.
          Keeps-bind _ _ (Keeps-resolve dev path) λ index.
            Keeps-bind _ _ (Keeps-inode index) λ node. Keeps-bind _ _ (Keeps-guard _) λ _.
              Keeps-bind _ _ (Keeps-guard _) λ _.
                Keeps-bind _ _ (Keeps-truncated index truncate) λ _.
                  Leads-if (length == 0) _ _ (λ _. Keeps-flush_inode dev index)
                    λ _.
                      Keeps-bind _ _
                        (Keeps-write_loop (direct_blocks + 1) index (bytes_or buffer []) length 0
                          offset)
                        λ end. Keeps-bind _ _ (Keeps-inode index) λ node.
                          Keeps-bind _ _ (Keeps-set_inode stable index _)
                            λ _. Keeps-flush_inode dev index
