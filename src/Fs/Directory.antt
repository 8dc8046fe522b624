-- ===== src/Fs/Directory.antt =====
-- The directory functions of src/kernel/fs/fs.c. Records are 36 bytes and lie across the sectors of
-- the directory's blocks. A name is the array of 32 bytes; the comparison takes its end for a NUL.
use lux_kernel.Base.{
  ℕ, zero, suc, ◌+◌, ◌-◌, ◌/◌, ◌%◌, ◌^◌, Bool, true, false, Option, none, some, List, [], ◌∷◌, ◌++◌,
  leb, ltb, not, ◌==◌, if◌then◌else◌, get_or, set, replicate, ℤ, pos, negsuc,
}
use lux_kernel.Strings.{memcpy, strcmp}
use lux_kernel.Device.{Device, sector_size}
use lux_kernel.Fs.{
  M, ◌>>=◌, ◌>>◌, pure, failed, faulted, guard, inode, set_inode, attempt, max_inodes,
  direct_blocks, invalid_block, node_free, node_dir,
}
use lux_kernel.Fs.Layout.{Inode, DirRecord, dir_record_size, record_bytes, record_at}
use lux_kernel.Fs.Blocks.{zeros, disk_read_data_block, disk_write_data_block, flush_inode}
use lux_kernel.Fs.Alloc.{alloc_block}

-- `struct fs_dirent`
pub record Dirent : Type 0 where
  pub name : List ℕ
  pub is_dir : Bool
  pub size : ℕ

abbrev pub is_zero : ℤ → Bool
is_zero (pos n) = n == 0
is_zero (negsuc n) = false

-- A callback gets a record and its context, and says whether to go on.
abbrev pub Callback : Type 0 → Type 0 → Type 0
Callback D C = DirRecord → C → M D (Bool × C)

-- What one chunk of a sector leads to: the callback stopped the iteration, or there is more to do,
-- with the bytes of the record so far and their number.
pub data Round (C : Type 0) : Type 0 where
  stop : C → Round C
  more : List ℕ → ℕ → C → Round C

module _ {D C : Type 0} (dev : Device D) (callback : Callback D C) where
  -- The inner loop, over the `chunk` bytes of `block` from `offset` on.
  unfoldable pub iterate_chunk : ℕ → List ℕ → ℕ → ℕ → ℕ → List ℕ → ℕ → C → M D (Round C)
  iterate_chunk zero block offset chunk consumed bytes progress ctx = faulted
  iterate_chunk (suc fuel) block offset chunk consumed bytes progress ctx =
      let left = chunk - consumed in
      let want = dir_record_size - progress in
      let copy = if ltb left want then left else want in
      let bytes' = memcpy bytes progress block (offset + consumed) copy in
      let next = iterate_chunk fuel block offset chunk (consumed + copy) bytes' in
      if leb chunk consumed
      then pure (more bytes progress ctx)
      else if (progress + copy) == dir_record_size
      then (do
        (go_on, ctx') ← callback (record_at bytes') ctx
        if go_on then next 0 ctx' else pure (stop ctx'))
      else next (progress + copy) ctx

  -- The outer loop. `processed` and `offset` of the source advance together and are one number.
  unfoldable pub iterate_loop : ℕ → Inode → ℕ → List ℕ → ℕ → C → M D (Bool × C)
  iterate_loop zero dir processed bytes progress ctx = faulted
  iterate_loop (suc fuel) dir processed bytes progress ctx =
      let block_idx = processed / sector_size in
      let block_offset = processed % sector_size in
      let data_block = get_or dir.direct block_idx 0 in
      let room = sector_size - block_offset in
      let remaining = dir.size - processed in
      let chunk = if ltb remaining room then remaining else room in
      let next = iterate_loop fuel dir (processed + chunk) in
      if leb dir.size processed
      then pure (progress == 0, ctx)
      else if leb direct_blocks block_idx
      then pure (false, ctx)
      else if data_block == invalid_block
      then pure (false, ctx)
      else do
        sector ← attempt (disk_read_data_block dev data_block)
        elim sector [
          | none ↦ pure (false, ctx)
          | some block ↦ do
            round ← iterate_chunk (suc chunk) block block_offset chunk 0 bytes progress ctx
            elim round [
              | stop ctx' ↦ pure (true, ctx')
              | more bytes' progress' ctx' ↦ next bytes' progress' ctx'
            ]
        ]

  -- Nine rounds: each one ends at a sector's border or at the directory's end, and the ninth sector
  -- is refused.
  unfoldable pub dir_iterate : ℕ → C → M D (Bool × C)
  unfolding iterate_loop iterate_chunk
  dir_iterate dir_index ctx = if leb max_inodes dir_index then pure (false, ctx) else do
    dir ← inode dir_index
    if not (dir.type == node_dir)
        then pure (false, ctx)
        else iterate_loop (direct_blocks + 1) dir 0 (replicate dir_record_size 0) 0 ctx

-- `luxfs_dir_find_cb`; the context is the inode index once it is found.
unfoldable pub dir_find_cb : {D : Type 0} → List ℕ → Callback D (Option ℕ)
dir_find_cb target entry ctx =
    if is_zero (strcmp entry.name target) then pure (false, some entry.inode) else pure (true, ctx)

abbrev pub dirent : List ℕ → Inode → Dirent
dirent name child = record { name = name; is_dir = child.type == node_dir; size = child.size }

-- `luxfs_dir_emit_cb`; the context is the list of entries that the user's callback was given.
unfoldable pub dir_emit_cb : {D : Type 0} → Callback D (List Dirent)
dir_emit_cb entry out = if leb max_inodes entry.inode then pure (true, out) else do
  child ← inode entry.inode
  if child.type == node_free
      then pure (true, out)
      else pure (true, out ++ dirent entry.name child ∷ [])

-- `dir->size += sizeof(*record)`, in 32 bits
unfoldable pub grown : Inode → Inode
grown dir = record dir { size = (dir.size + dir_record_size) % 2 ^ 32 }

module _ {D : Type 0} (dev : Device D) where
  unfoldable pub dir_find : ℕ → List ℕ → M D ℕ
  unfolding dir_iterate dir_find_cb
  dir_find dir_index name = do
    (done, ctx) ← dir_iterate dev (dir_find_cb name) dir_index none
    guard done
    elim ctx [ none ↦ failed | some i ↦ pure i ]

  -- The block that `luxfs_dir_append_record` writes to, allocated and zeroed if there is none.
  unfoldable pub dir_block : ℕ → ℕ → M D ℕ
  dir_block dir_index block_idx = do
    dir ← inode dir_index
    if not (get_or dir.direct block_idx 0 == invalid_block)
        then pure (get_or dir.direct block_idx 0)
        else do
          new_block ← alloc_block dev
          disk_write_data_block dev new_block zeros
          dir ← inode dir_index
          set_inode dir_index (record dir { direct = set dir.direct block_idx new_block })
          pure new_block

  unfoldable pub append_loop : ℕ → ℕ → List ℕ → ℕ → ℕ → ℕ → M D (Unit {0})
  append_loop zero dir_index bytes src offset remaining = faulted
  append_loop (suc fuel) dir_index bytes src offset remaining =
      let block_idx = offset / sector_size in
      let block_offset = offset % sector_size in
      let room = sector_size - block_offset in
      let chunk = if ltb remaining room then remaining else room in
      let next =
        append_loop fuel dir_index bytes (src + chunk) (offset + chunk) (remaining - chunk) in
      if remaining == 0 then pure tt else if leb direct_blocks block_idx then failed else do
        block ← dir_block dir_index block_idx
        buffer ← disk_read_data_block dev block
        disk_write_data_block dev block (memcpy buffer block_offset bytes src chunk)
        next

  -- A record lies in two sectors at most: three rounds.
  unfoldable pub dir_append_record : ℕ → DirRecord → M D (Unit {0})
  unfolding append_loop dir_block
  dir_append_record dir_index entry = if leb max_inodes dir_index then failed else do
    dir ← inode dir_index
    if not (dir.type == node_dir) then failed else do
      append_loop 3 dir_index (record_bytes entry) 0 dir.size dir_record_size
      dir ← inode dir_index
      set_inode dir_index (grown dir)
      flush_inode dev dir_index
