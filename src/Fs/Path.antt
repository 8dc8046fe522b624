-- ===== src/Fs/Path.antt =====
-- The path functions of src/kernel/fs/fs.c. A path is the list of its bytes, without the NUL.
pub mod Split
pub mod Read
pub mod Tokens
use lux_kernel.Base.{
  ℕ, zero, suc, ◌+◌, ◌-◌, Bool, true, false, Option, none, some, List, [], ◌∷◌, ◌++◌, ltb, leb, not,
  ◌==◌, ◌&&◌, ◌||◌, if◌then◌else◌, get_or, take, drop, length,
}
use lux_kernel.Strings.{memcpy, strlen}
use lux_kernel.Fs.{Outcome, ok, fail, fault}

abbrev pub name_max : ℕ
name_max = 32

abbrev pub max_path_depth : ℕ
max_path_depth = 8

abbrev pub slash : ℕ
slash = 47

abbrev pub dot : ℕ
dot = 46

-- `luxfs_copy_name`, with `none` for a null pointer; the destination is not null.
unfoldable pub copy_name : List ℕ → Option (List ℕ) → List ℕ
copy_name dst none = memcpy dst 0 (0 ∷ []) 0 1
copy_name dst (some src) =
    let len = strlen src in
    let n = if leb name_max len then name_max - 1 else len in
    memcpy (memcpy dst 0 src 0 n) n (0 ∷ []) 0 1

-- The two backward loops of `luxfs_basename`; `start` is index 0.
unfoldable pub trim_end : List ℕ → ℕ → ℕ
trim_end path zero = 0
trim_end path (suc e) =
    let rest = trim_end path e in if get_or path e 0 == slash then rest else suc e

unfoldable pub last_slash : List ℕ → ℕ → ℕ
last_slash path zero = 0
last_slash path (suc c) =
    let rest = last_slash path c in if not (get_or path c 0 == slash) then rest else suc c

unfoldable pub basename : Option (List ℕ) → List ℕ → List ℕ
unfolding copy_name trim_end last_slash
basename none out_name = copy_name out_name (some (slash ∷ []))
basename (some path) out_name =
    if get_or path 0 0 == 0
    then copy_name out_name (some (slash ∷ []))
    else let end = trim_end path (strlen path) in
      if end == 0
      then copy_name out_name (some (slash ∷ []))
      else let cursor = last_slash path end in
        let n = if leb name_max (end - cursor) then name_max - 1 else end - cursor in
        memcpy (memcpy out_name 0 path cursor n) n (0 ∷ []) 0 1

-- `while (path[i] == '/') ++i;`
unfoldable pub skip_slashes : List ℕ → List ℕ
skip_slashes [] = []
skip_slashes (c ∷ cs) = let rest = skip_slashes cs in if c == slash then rest else c ∷ cs

-- The inner loop: a component of `len` bytes so far, and the rest of the path behind it; `none`
-- where a component is too long.
unfoldable pub read_component : ℕ → List ℕ → Option (List ℕ × List ℕ)
read_component len [] = some ([], [])
read_component len (c ∷ cs) =
    let more : Option (List ℕ × List ℕ) = elim (read_component (len + 1) cs) [
      | none ↦ none
      | some (w, r) ↦ some (c ∷ w, r)
    ] in
    if c == slash then some ([], c ∷ cs) else if leb (name_max - 1) len then none else more

-- One more component kept, or not, in front of what the rest of the path gives.
unfoldable pub keep : List ℕ → Outcome (List (List ℕ)) → Outcome (List (List ℕ))
keep w (ok ws) = ok (w ∷ ws)
keep w fail = fail
keep w fault = fault

-- A round of the outer loop up to its inner loop: `none` at the end of the path, else a component and
-- the rest of the path.
unfoldable pub next_component : ℕ → List ℕ → Outcome (Option (List ℕ × List ℕ))
next_component depth path = elim (skip_slashes path) [
  | [] ↦ ok none
  | b ∷ bs ↦
      if leb max_path_depth depth
      then fail
      else elim (read_component 0 (b ∷ bs)) [ none ↦ fail | some found ↦ ok (some found) ]
]

-- `token[0] == '.' && token[1] == '\0'`
unfoldable pub is_dot : List ℕ → Bool
is_dot w = length w == 1 && get_or w 0 0 == dot

-- The outer loop, at `depth`; each round takes at least one byte.
unfoldable pub tokenize_loop : ℕ → ℕ → List ℕ → Outcome (List (List ℕ))
tokenize_loop zero depth path = fault
tokenize_loop (suc fuel) depth path = elim (next_component depth path) [
  | fail ↦ fail
  | fault ↦ fault
  | ok none ↦ ok []
  | ok (some (w, rest)) ↦
      let same = tokenize_loop fuel depth rest in
      let fewer = keep w (tokenize_loop fuel (depth + 1) rest) in
      if is_dot w || length w == 0 then same else fewer
]

unfoldable pub tokenize_path : Option (List ℕ) → Outcome (List (List ℕ))
tokenize_path none = fail
tokenize_path (some path) = tokenize_loop (length path + 1) 0 path
