-- ===== src/Fs/Api.antt =====
-- The public functions of src/kernel/fs/fs.c. A path is `none` for a null pointer.
pub mod Rounds
use lux_kernel.Base.{
  ℕ, zero, suc, ◌+◌, ◌-◌, ◌*◌, ◌/◌, ◌%◌, Bool, true, false, Option, none, some, List, [], ◌∷◌, leb,
  ltb, not, ◌==◌, ◌&&◌, ◌||◌, if◌then◌else◌, get_or, set, replicate,
}
use lux_kernel.Strings.{memcpy}
use lux_kernel.Device.{Device, sector_size}
use lux_kernel.Fs.{
  M, ◌>>=◌, ◌>>◌, pure, failed, faulted, guard, get, put, inode, set_inode, attempt, start_lba,
  total_sectors, direct_blocks, invalid_block, node_dir, node_file, ok, fail,
}
use lux_kernel.Fs.Layout.{Inode, DirRecord}
use lux_kernel.Fs.Blocks.{
  zeros, disk_read_data_block, disk_write_data_block, flush_inode, load_metadata, format,
  validate_superblock,
}
use lux_kernel.Fs.Path.{copy_name, basename, name_max, slash, dot}
use lux_kernel.Fs.Alloc.{alloc_inode, alloc_block, release_inode_blocks, mark_inode_free}
use lux_kernel.Fs.Directory.{Dirent, dirent, dir_iterate, dir_find, dir_emit_cb, dir_append_record}
use lux_kernel.Fs.Resolve.{resolve, resolve_parent}

-- `!leaf[0]`, `.` or `..`
unfoldable pub is_reserved : List ℕ → Bool
is_reserved leaf =
    get_or leaf 0 0 == 0
    || get_or leaf 0 0 == dot
      && (get_or leaf 1 0 == 0 || get_or leaf 1 0 == dot && get_or leaf 2 0 == 0)

unfoldable pub new_record : ℕ → List ℕ → DirRecord
new_record inode_index leaf = record {
  inode = inode_index;
  name = copy_name (replicate name_max 0) (some leaf);
}

abbrev pub bytes_or : Option (List ℕ) → List ℕ → List ℕ
bytes_or none d = d
bytes_or (some b) d = b

-- `struct fs_stat`
pub record Stat : Type 0 where
  pub is_dir : Bool
  pub size : ℕ

module _ {D : Type 0} (dev : Device D) where
  -- `if (!ata_pio_ready()) { if (!ata_pio_init()) … }`
  unfoldable pub start_device : M D (Unit {0})
  start_device s =
      if dev.ready s.disk
      then (ok tt, s)
      else let (done, d) = dev.init s.disk in
        ((if done then ok tt else fail), record s { disk = d })

  unfoldable pub check_size : M D (Unit {0})
  check_size s =
      ((if ltb (dev.total_sectors s.disk) (start_lba + total_sectors) then fail else ok tt), s)

  unfoldable pub fs_mount : M D (Unit {0})
  unfolding start_device check_size
  fs_mount = do
    fs ← get
    if fs.mounted then pure tt else do
      start_device
      check_size
      loaded ← attempt (load_metadata dev)
      elim loaded [
        | none ↦ format dev
        | some _ ↦ do
          fs ← get
          if not (validate_superblock fs.super)
              then format dev
              else put (record fs { mounted = true })
      ]

  -- `fs_ready() && path`
  unfoldable pub ready_path : Option (List ℕ) → M D (Unit {0})
  ready_path path = do fs ← get; guard (fs.mounted && elim path [ none ↦ false | some _ ↦ true ])

  -- What `fs_touch` and `fs_mkdir` do with a leaf that is not in its directory.
  unfoldable pub create : ℕ → ℕ → List ℕ → M D (Unit {0})
  create type parent leaf = do
    inode_index ← alloc_inode dev type parent
    appended ← attempt (dir_append_record dev parent (new_record inode_index leaf))
    elim appended [ none ↦ (do mark_inode_free dev inode_index; failed) | some _ ↦ pure tt ]

  unfoldable pub fs_touch : Option (List ℕ) → M D (Unit {0})
  unfolding create ready_path
  fs_touch path = do
    ready_path path
    existing ← attempt (resolve dev path)
    elim existing [
      | some i ↦ (do n ← inode i; guard (n.type == node_file))
      | none ↦ do
        (parent, leaf) ← resolve_parent dev path
        if is_reserved leaf then failed else do
          there ← attempt (dir_find dev parent leaf)
          elim there [ some _ ↦ pure tt | none ↦ create node_file parent leaf ]
    ]

  unfoldable pub fs_mkdir : Option (List ℕ) → M D (Unit {0})
  unfolding create ready_path
  fs_mkdir path = do
    ready_path path
    existing ← attempt (resolve dev path)
    elim existing [
      | some i ↦ failed
      | none ↦ do
        (parent, leaf) ← resolve_parent dev path
        if is_reserved leaf then failed else do
          there ← attempt (dir_find dev parent leaf)
          elim there [ some _ ↦ failed | none ↦ create node_dir parent leaf ]
    ]

  -- The result, and the entries that the callback was given; `cb` says whether there is a callback.
  unfoldable pub fs_list : Option (List ℕ) → Bool → M D (Bool × List Dirent)
  fs_list path cb = do
    fs ← get
    if not fs.mounted then pure (false, []) else do
      let resolved = bytes_or path (slash ∷ [])
      found ← attempt (resolve dev (some resolved))
      elim found [
        | none ↦ pure (false, [])
        | some i ↦ do
          node ← inode i
          if node.type == node_file
              then pure (
                true,
                (if cb
                    then dirent (basename (some resolved) (replicate name_max 0)) node ∷ []
                    else []),
              )
              else if not cb
              then pure (true, [])
              else dir_iterate dev dir_emit_cb i []
      ]

  unfoldable pub fs_stat_path : Option (List ℕ) → M D Stat
  unfolding ready_path
  fs_stat_path path = do
    ready_path path
    i ← resolve dev path
    n ← inode i
    pure (record { is_dir = n.type == node_dir; size = n.size })

  -- The loop of `fs_read`: the buffer, and the number of bytes read, `total`.
  unfoldable pub read_loop : ℕ → Inode → ℕ → List ℕ → ℕ → ℕ → M D (List ℕ × ℕ)
  read_loop zero node offset buffer total remaining = faulted
  read_loop (suc fuel) node offset buffer total remaining =
      let block_idx = offset / sector_size in
      let block_offset = offset % sector_size in
      let data_block = get_or node.direct block_idx 0 in
      let room = sector_size - block_offset in
      let chunk = if ltb remaining room then remaining else room in
      let next = read_loop fuel node (offset + chunk) in
      if remaining == 0
      then pure (buffer, total)
      else if leb direct_blocks block_idx
      then pure (buffer, total)
      else if data_block == invalid_block
      then pure (buffer, total)
      else do
        block ← disk_read_data_block dev data_block
        next (memcpy buffer total block block_offset chunk) (total + chunk) (remaining - chunk)

  -- The buffer and the number of bytes read. Where the result is `false` the buffer is not modelled.
  unfoldable pub fs_read : Option (List ℕ) → ℕ → Option (List ℕ) → ℕ → M D (List ℕ × ℕ)
  unfolding ready_path read_loop
  fs_read path offset none length = failed
  fs_read path offset (some buffer) length = do
    ready_path path
    i ← resolve dev path
    node ← inode i
    if not (node.type == node_file) then failed else do
      let available = node.size - offset
      let remaining = if ltb length available then length else available
      if leb node.size offset
          then pure (buffer, 0)
          else read_loop (direct_blocks + 1) node offset buffer 0 remaining

  -- The block that `fs_write` writes to, and the contents that it starts from.
  unfoldable pub write_block : ℕ → ℕ → M D (ℕ × List ℕ)
  write_block index block_idx = do
    node ← inode index
    if get_or node.direct block_idx 0 == invalid_block
        then (do
          b ← alloc_block dev
          node ← inode index
          set_inode index (record node { direct = set node.direct block_idx b })
          pure (b, zeros))
        else (do
          block ← disk_read_data_block dev (get_or node.direct block_idx 0)
          pure (get_or node.direct block_idx 0, block))

  -- The loop of `fs_write`: `total` bytes of `src` are written, the next goes to `offset`.
  unfoldable pub write_loop : ℕ → ℕ → List ℕ → ℕ → ℕ → ℕ → M D ℕ
  write_loop zero index src length total offset = faulted
  write_loop (suc fuel) index src length total offset =
      let block_idx = offset / sector_size in
      let block_offset = offset % sector_size in
      let room = sector_size - block_offset in
      let remaining = length - total in
      let chunk = if ltb remaining room then remaining else room in
      let next = write_loop fuel index src length (total + chunk) (offset + chunk) in
      if leb length total then pure offset else if leb direct_blocks block_idx then failed else do
        (b, block) ← write_block index block_idx
        disk_write_data_block dev b (memcpy block block_offset src total chunk)
        next

  unfoldable pub truncated : ℕ → Bool → M D (Unit {0})
  truncated index true = do
    release_inode_blocks dev index
    node ← inode index
    set_inode index (record node { size = 0 })
  truncated index false = pure tt

  unfoldable pub fs_write : Option (List ℕ) → ℕ → Option (List ℕ) → ℕ → Bool → M D (Unit {0})
  unfolding ready_path write_loop write_block truncated
  fs_write path offset buffer length truncate = do
    ready_path path
    guard (length == 0 || elim buffer [ none ↦ false | some _ ↦ true ])
    let max_size = direct_blocks * sector_size
    guard (leb offset max_size)
    guard (leb length (max_size - offset))
    index ← resolve dev path
    node ← inode index
    guard (node.type == node_file)
    guard (truncate || leb offset node.size)
    truncated index truncate
    if length == 0 then flush_inode dev index else do
      let src = bytes_or buffer []
      end ← write_loop (direct_blocks + 1) index src length 0 offset
      node ← inode index
      set_inode index (record node { size = if ltb node.size end then end else node.size })
      flush_inode dev index
