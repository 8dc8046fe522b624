-- ===== src/Fs/Stable/Directory.antt =====
-- Directories and path resolution of src/kernel/fs/fs.c change only inodes and bits.
use lux_kernel.Base.{
  ℕ, zero, suc, ◌+◌, ◌-◌, ◌/◌, ◌%◌, Bool, true, not, Option, none, List, [], ◌∷◌, leb, ltb, ◌==◌,
  if◌then◌else◌, get_or, replicate,
}
use lux_kernel.Device.{Device}
use lux_kernel.Strings.{memcpy}
use lux_kernel.Fs.{Fs, Outcome, M, pure, max_inodes, direct_blocks, invalid_block}
use lux_kernel.Fs.Layout.{Inode}
use lux_kernel.Fs.Keeps.{
  Keeps, Keeps-pure, Keeps-failed, Keeps-faulted, Leads-if, Leads-attempt, Keeps-guard, Keeps-inode,
  Keeps-bind, Leads-get, Leads-elim,
}
use lux_kernel.Fs.Stable.{
  Stable, Keeps-read_data, Keeps-write_data, Keeps-flush_inode, Keeps-set_inode,
}
use lux_kernel.Device.{sector_size}
use lux_kernel.Fs.Directory.{
  Callback, Round, stop, more, Dirent, iterate_chunk, iterate_loop, dir_iterate, dir_find_cb,
  dir_emit_cb, dir_find, dir_block, append_loop, dir_append_record, is_zero,
}
use lux_kernel.Strings.{strcmp}
use lux_kernel.Fs.Layout.{DirRecord, dir_record_size, record_at, record_bytes}
use lux_kernel.Fs.{node_dir, node_free}
use lux_kernel.Fs.Path.{tokenize_path}
use lux_kernel.Fs.Resolve.{is_parent, lift, resolve_loop, resolve, parent_loop, resolve_parent}
use lux_kernel.Fs.Stable.Alloc.{Keeps-alloc_block}

module _ {D C : Type 0} (dev : Device D) (callback : Callback D C) {P : Fs → Type 0}
    (called : (r : DirRecord) (c : C) → Keeps P (callback r c)) where
  Keeps-iterate_chunk :
      (fuel : ℕ) (block : List ℕ) (offset chunk consumed : ℕ) (bytes : List ℕ) (progress : ℕ)
      (ctx : C)
      → Keeps P (iterate_chunk dev callback fuel block offset chunk consumed bytes progress ctx)
  unfolding iterate_chunk
  Keeps-iterate_chunk zero block offset chunk consumed bytes progress ctx = Keeps-faulted
  Keeps-iterate_chunk (suc fuel) block offset chunk consumed bytes progress ctx =
      Leads-if (leb chunk consumed) _ _ (λ _. Keeps-pure _)
        λ _.
          let left = chunk - consumed in
          let want = dir_record_size - progress in
          let copy = if ltb left want then left else want in
          let bytes' = memcpy bytes progress block (offset + consumed) copy in
          Leads-if ((progress + copy) == dir_record_size) _ _
            (λ _. Keeps-bind _ _ (called (record_at bytes') ctx) λ r.
              Leads-if r.0 _ _
                (λ _. Keeps-iterate_chunk fuel block offset chunk (consumed + copy) bytes' 0 r.1)
                (λ _. Keeps-pure _))
            (λ _.
              Keeps-iterate_chunk fuel block offset chunk (consumed + copy) bytes' (progress + copy)
                ctx)

  Keeps-round :
      (r : Round C) (next : List ℕ → ℕ → C → M D (Bool × C))
      → ((b : List ℕ) (p : ℕ) (c : C) → Keeps P (next b p c))
      → Keeps {D = D} {A = Bool × C} P
          (elim r as (λ _. M D (Bool × C)) [ stop c ↦ pure (true, c) | more b p c ↦ next b p c ])
  Keeps-round (stop c) next k = Keeps-pure _
  Keeps-round (more b p c) next k = k b p c

  Keeps-iterate_loop :
      (fuel : ℕ) (dir : Inode) (processed : ℕ) (bytes : List ℕ) (progress : ℕ) (ctx : C)
      → Keeps P (iterate_loop dev callback fuel dir processed bytes progress ctx)
  unfolding iterate_loop
  Keeps-iterate_loop zero dir processed bytes progress ctx = Keeps-faulted
  Keeps-iterate_loop (suc fuel) dir processed bytes progress ctx =
      let block_idx = processed / sector_size in
      let block_offset = processed % sector_size in
      let data_block = get_or dir.direct block_idx 0 in
      let room = sector_size - block_offset in
      let remaining = dir.size - processed in
      let chunk = if ltb remaining room then remaining else room in
      Leads-if (leb dir.size processed) _ _ (λ _. Keeps-pure _)
        λ _.
          Leads-if (leb direct_blocks block_idx) _ _ (λ _. Keeps-pure _)
            λ _.
              Leads-if (data_block == invalid_block) _ _ (λ _. Keeps-pure _)
                λ _. Keeps-bind _ _ (Leads-attempt _ (Keeps-read_data dev data_block)) λ sector.
                  Leads-elim sector _ _ (Keeps-pure _) λ block.
                    Keeps-bind _ _
                      (Keeps-iterate_chunk (suc chunk) block block_offset chunk 0 bytes progress
                        ctx)
                      λ round.
                        Keeps-round round _
                          (λ b p c. Keeps-iterate_loop fuel dir (processed + chunk) b p c)

  pub Keeps-dir_iterate : (i : ℕ) (ctx : C) → Keeps P (dir_iterate dev callback i ctx)
  unfolding dir_iterate
  Keeps-dir_iterate i ctx =
      Leads-if (leb max_inodes i) _ _ (λ _. Keeps-pure _)
        λ _. Keeps-bind _ _ (Keeps-inode i) λ dir.
          Leads-if (not (dir.type == node_dir)) _ _ (λ _. Keeps-pure _)
            (λ _. Keeps-iterate_loop (direct_blocks + 1) dir 0 (replicate dir_record_size 0) 0 ctx)

module _ {D : Type 0} {P : Fs → Type 0} where
  Keeps-find_cb :
      (target : List ℕ) (r : DirRecord) (c : Option ℕ) → Keeps {D = D} P (dir_find_cb target r c)
  unfolding dir_find_cb
  Keeps-find_cb target r c =
      Leads-if (is_zero (strcmp r.name target)) _ _ (λ _. Keeps-pure _) (λ _. Keeps-pure _)

  pub Keeps-emit_cb : (r : DirRecord) (out : List Dirent) → Keeps {D = D} P (dir_emit_cb r out)
  unfolding dir_emit_cb
  Keeps-emit_cb r out =
      Leads-if (leb max_inodes r.inode) _ _ (λ _. Keeps-pure _)
        λ _.
          Keeps-bind _ _ (Keeps-inode r.inode)
            λ child. Leads-if (child.type == node_free) _ _ (λ _. Keeps-pure _) (λ _. Keeps-pure _)

module _ {D : Type 0} (dev : Device D) {P : Fs → Type 0} where
  pub Keeps-dir_find : (i : ℕ) (name : List ℕ) → Keeps P (dir_find dev i name)
  unfolding dir_find
  Keeps-dir_find i name =
      Keeps-bind _ _ (Keeps-dir_iterate dev (dir_find_cb name) (Keeps-find_cb name) i none) λ r.
        Keeps-bind _ _ (Keeps-guard r.0) λ _. Leads-elim r.1 _ _ Keeps-failed (λ i. Keeps-pure i)

  Keeps-resolve_loop : (ws : List (List ℕ)) (i : ℕ) → Keeps P (resolve_loop dev ws i)
  unfolding resolve_loop
  Keeps-resolve_loop [] i = Keeps-pure i
  Keeps-resolve_loop (w ∷ ws) i =
      Leads-if (is_parent w) _ _
        (λ _. Keeps-bind _ _ (Keeps-inode i) λ n. Keeps-resolve_loop ws n.parent)
        (λ _. Keeps-bind _ _ (Keeps-dir_find i w) λ child. Keeps-resolve_loop ws child)

  Keeps-lift : {A : Type 0} (r : Outcome A) → Keeps P (lift dev r)
  Keeps-lift r = record { at = λ s h. h }

  pub Keeps-resolve : (path : Option (List ℕ)) → Keeps P (resolve dev path)
  unfolding resolve
  Keeps-resolve path =
      Keeps-bind _ _ (Keeps-lift (tokenize_path path))
        λ ws. Leads-get _ λ fs h. Keeps-resolve_loop ws _

  Keeps-parent_loop : (ws : List (List ℕ)) (i : ℕ) → Keeps P (parent_loop dev ws i)
  unfolding parent_loop
  Keeps-parent_loop [] i = Keeps-failed
  Keeps-parent_loop (w ∷ []) i = Keeps-pure _
  Keeps-parent_loop (w ∷ v ∷ ws) i =
      Leads-if (is_parent w) _ _
        (λ _. Keeps-bind _ _ (Keeps-inode i) λ n. Keeps-parent_loop (v ∷ ws) n.parent)
        (λ _. Keeps-bind _ _ (Keeps-dir_find i w) λ child. Keeps-bind _ _ (Keeps-inode child) λ n.
          Leads-if (not (n.type == node_dir)) _ _ (λ _. Keeps-failed)
            (λ _. Keeps-parent_loop (v ∷ ws) child))

  pub Keeps-resolve_parent : (path : Option (List ℕ)) → Keeps P (resolve_parent dev path)
  unfolding resolve_parent
  Keeps-resolve_parent path =
      Keeps-bind _ _ (Keeps-lift (tokenize_path path))
        λ ws. Leads-get _ λ fs h. Keeps-parent_loop ws _

module _ {D : Type 0} (dev : Device D) {P : Fs → Type 0} (stable : Stable P) where
  Keeps-dir_block : (i b : ℕ) → Keeps P (dir_block dev i b)
  unfolding dir_block
  Keeps-dir_block i b = Keeps-bind _ _ (Keeps-inode i) λ dir.
      Leads-if (not (get_or dir.direct b 0 == invalid_block)) _ _ (λ _. Keeps-pure _)
        λ _. Keeps-bind _ _ (Keeps-alloc_block dev stable) λ new.
          Keeps-bind _ _ (Keeps-write_data dev new _) λ _.
            Keeps-bind _ _ (Keeps-inode i)
              λ dir. Keeps-bind _ _ (Keeps-set_inode stable i _) λ _. Keeps-pure new

  Keeps-append_loop :
      (fuel i : ℕ) (bytes : List ℕ) (src offset remaining : ℕ)
      → Keeps P (append_loop dev fuel i bytes src offset remaining)
  unfolding append_loop
  Keeps-append_loop zero i bytes src offset remaining = Keeps-faulted
  Keeps-append_loop (suc fuel) i bytes src offset remaining =
      let block_idx = offset / sector_size in
      let room = sector_size - offset % sector_size in
      let chunk = if ltb remaining room then remaining else room in
      Leads-if (remaining == 0) _ _ (λ _. Keeps-pure _)
        λ _.
          Leads-if (leb direct_blocks block_idx) _ _ (λ _. Keeps-failed)
            λ _. Keeps-bind _ _ (Keeps-dir_block i block_idx) λ block.
              Keeps-bind _ _ (Keeps-read_data dev block) λ buffer.
                Keeps-bind _ _ (Keeps-write_data dev block _) λ _.
                  Keeps-append_loop fuel i bytes (src + chunk) (offset + chunk) (remaining - chunk)

  pub Keeps-append : (i : ℕ) (r : DirRecord) → Keeps P (dir_append_record dev i r)
  unfolding dir_append_record
  Keeps-append i r =
      Leads-if (leb max_inodes i) _ _ (λ _. Keeps-failed)
        λ _. Keeps-bind _ _ (Keeps-inode i) λ dir.
          Leads-if (not (dir.type == node_dir)) _ _ (λ _. Keeps-failed)
            λ _.
              Keeps-bind _ _ (Keeps-append_loop 3 i (record_bytes r) 0 dir.size dir_record_size)
                λ _.
                  Keeps-bind _ _ (Keeps-inode i)
                    λ dir. Keeps-bind _ _ (Keeps-set_inode stable i _) λ _. Keeps-flush_inode dev i
