-- ===== src/Fs/Resolve.antt =====
-- Path resolution in src/kernel/fs/fs.c.
use lux_kernel.Base.{ℕ, Bool, Option, List, [], ◌∷◌, not, ◌==◌, ◌&&◌, if◌then◌else◌, get_or}
use lux_kernel.Device.{Device}
use lux_kernel.Fs.{Outcome, M, ◌>>=◌, pure, failed, get, inode, node_dir}
use lux_kernel.Fs.Path.{tokenize_path, dot}
use lux_kernel.Fs.Directory.{dir_find}

-- `..`, read byte by byte up to the NUL
unfoldable pub is_parent : List ℕ → Bool
is_parent w = get_or w 0 0 == dot && get_or w 1 0 == dot && get_or w 2 0 == 0

module _ {D : Type 0} (dev : Device D) where
  abbrev pub lift : {A : Type 0} → Outcome A → M D A
  lift r s = (r, s)

  unfoldable pub resolve_loop : List (List ℕ) → ℕ → M D ℕ
  resolve_loop [] current = pure current
  resolve_loop (w ∷ ws) current =
      let rest = resolve_loop ws in
      if is_parent w
      then (do n ← inode current; rest n.parent)
      else do child ← dir_find dev current w; rest child

  unfoldable pub resolve : Option (List ℕ) → M D ℕ
  unfolding resolve_loop
  resolve path = do
    components ← lift (tokenize_path path)
    fs ← get
    resolve_loop components fs.super.root_inode

  -- The parent directory and the last component; each component before it must be a directory.
  unfoldable pub parent_loop : List (List ℕ) → ℕ → M D (ℕ × List ℕ)
  parent_loop [] current = failed
  parent_loop (leaf ∷ []) current = pure (current, leaf)
  parent_loop (w ∷ v ∷ ws) current =
      let rest = parent_loop (v ∷ ws) in
      if is_parent w then (do n ← inode current; rest n.parent) else do
        child ← dir_find dev current w
        n ← inode child
        if not (n.type == node_dir) then failed else rest child

  unfoldable pub resolve_parent : Option (List ℕ) → M D (ℕ × List ℕ)
  unfolding parent_loop
  resolve_parent path = do
    components ← lift (tokenize_path path)
    fs ← get
    parent_loop components fs.super.root_inode
