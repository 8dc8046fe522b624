-- ===== src/Shell/Cwd.antt =====
-- Paths and the working directory of src/kernel/shell/shell.c, over the file system of Fs. A path is an array
-- that ends at its first NUL, `none` for a null pointer; `shell_cwd` is passed along.
use lux_kernel.Base.{
  ℕ, ◌+◌, ◌-◌, Bool, true, false, not, ◌||◌, Option, none, some, List, [], ◌∷◌, ltb, leb, ◌==◌,
  if◌then◌else◌, get_or, set, take,
}
use lux_kernel.Strings.{memcpy, strlen}
use lux_kernel.Device.{Device}
use lux_kernel.Fs.{M, guard, get, pure, failed, attempt, ◌>>=◌, ◌>>◌}
use lux_kernel.Fs.Api.{fs_stat_path}
use lux_kernel.Shell.Text.{shell_path_max, shell_strnlen, shell_normalize_path}

unfoldable pub shell_set_cwd_string : Option (List ℕ) → List ℕ → List ℕ
shell_set_cwd_string none cwd = set (set cwd 0 b'/') 1 0
shell_set_cwd_string (some path) cwd =
    let len = shell_strnlen path (shell_path_max - 1) in
    if get_or path 0 0 == 0
    then set (set cwd 0 b'/') 1 0
    else shell_normalize_path (set (memcpy cwd 0 path 0 len) len 0)

-- A relative path behind the working directory, with a slash between them where there is none.
unfoldable pub join_path : List ℕ → List ℕ → List ℕ → List ℕ
join_path cwd path out =
    let cwd_len = strlen cwd in
    let copied = memcpy out 0 cwd 0 cwd_len in
    let slash = cwd_len == 0 || not (get_or copied (cwd_len - 1) 0 == b'/') in
    let begun = if slash then set copied cwd_len b'/' else copied in
    let pos = if slash then cwd_len + 1 else cwd_len in memcpy begun pos path 0 (strlen path + 1)

-- `out` where the result is true; where it is false, `out` is left as it is.
unfoldable pub shell_resolve_path : List ℕ → Option (List ℕ) → List ℕ → ℕ → Option (List ℕ)
shell_resolve_path cwd path out out_len =
    let cwd_len = shell_strnlen cwd (out_len - 1) in
    let text = elim path as (λ _. List ℕ) [ none ↦ [] | some p ↦ p ] in
    let len = shell_strnlen text (out_len - 1) in
    if ltb out_len 2
    then none
    else if get_or text 0 0 == 0
    then (if leb out_len cwd_len then none else some (memcpy out 0 cwd 0 (cwd_len + 1)))
    else if get_or text 0 0 == b'/'
    then (if not (get_or text len 0 == 0)
        then none
        else some (shell_normalize_path (memcpy out 0 text 0 (len + 1))))
    else if ltb out_len (strlen cwd + strlen text + 2)
    then none
    else some (shell_normalize_path (join_path cwd text out))

-- `"/home"`
abbrev home : List ℕ
home = b'/' ∷ 104 ∷ 111 ∷ 109 ∷ 101 ∷ 0 ∷ []

module _ {D : Type 0} (dev : Device D) where
  -- The resolved path has to be that of a directory.
  unfoldable pub enter : List ℕ → Option (List ℕ) → M D (List ℕ)
  enter cwd none = failed
  enter cwd (some resolved) = do
    stats ← fs_stat_path dev (some (take (strlen resolved) resolved))
    guard stats.is_dir
    pure (shell_set_cwd_string (some resolved) cwd)

  -- `resolved` is what the local array holds at first; the result is the new `shell_cwd`.
  unfoldable pub shell_set_cwd : List ℕ → Option (List ℕ) → List ℕ → M D (List ℕ)
  shell_set_cwd resolved path cwd = do
    fs ← get
    guard fs.mounted
    enter cwd (shell_resolve_path cwd path resolved shell_path_max)

  -- What follows `shell_set_cwd_string("/home")`.
  unfoldable pub enter_home : Bool → List ℕ → List ℕ → M D (List ℕ)
  enter_home false resolved cwd = pure cwd
  enter_home true resolved cwd = do
    there ← attempt (shell_set_cwd resolved (some home) cwd)
    elim there [
      | some moved ↦ pure moved
      | none ↦ pure (shell_set_cwd_string (some (b'/' ∷ 0 ∷ [])) cwd)
    ]

  unfoldable pub shell_initialize_working_directory : List ℕ → List ℕ → M D (List ℕ)
  shell_initialize_working_directory resolved cwd = do
    fs ← get
    enter_home fs.mounted resolved (shell_set_cwd_string (some home) cwd)
