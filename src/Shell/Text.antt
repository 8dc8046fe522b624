-- ===== src/Shell/Text.antt =====
-- The string helpers of src/kernel/shell/shell.c. A string that the shell changes is an array of bytes, and
-- ends at its first NUL.
use lux_kernel.Base.{
  ℕ, zero, suc, ◌+◌, Bool, true, false, not, ◌&&◌, ◌||◌, List, [], ◌∷◌, ltb, ◌==◌, if◌then◌else◌,
  get_or, set,
}
use lux_kernel.Strings.{strlen}

abbrev pub input_buffer_size : ℕ
input_buffer_size = 128

abbrev pub shell_path_max : ℕ
shell_path_max = 256

unfoldable pub shell_strnlen : List ℕ → ℕ → ℕ
shell_strnlen str zero = 0
shell_strnlen [] (suc max_len) = 0
shell_strnlen (c ∷ str) (suc max_len) =
    let rest = shell_strnlen str max_len in if c == 0 then 0 else suc rest

-- `while (len)`, from the end of the text.
unfoldable pub trim_loop : ℕ → List ℕ → List ℕ
trim_loop zero text = text
trim_loop (suc len) text =
    let c = get_or text len 0 in
    let shorter = trim_loop len (set text len 0) in
    if not (c == b' ') && not (c == 9) then text else shorter

unfoldable pub trim_trailing_whitespace : List ℕ → List ℕ
trim_trailing_whitespace text = trim_loop (strlen text) text

unfoldable pub normalize_loop : ℕ → List ℕ → List ℕ
normalize_loop zero path = path
normalize_loop (suc len) path =
    let shorter = normalize_loop len (set path len 0) in
    if ltb 1 (suc len) && get_or path len 0 == b'/' then shorter else path

unfoldable pub shell_normalize_path : List ℕ → List ℕ
shell_normalize_path path = normalize_loop (strlen path) path

unfoldable pub common_prefix_len : List ℕ → List ℕ → ℕ
common_prefix_len [] b = 0
common_prefix_len (x ∷ a) [] = 0
common_prefix_len (x ∷ a) (y ∷ b) =
    let rest = common_prefix_len a b in
    if not (x == 0) && not (y == 0) && x == y then suc rest else 0

-- The characters from index `i` on.
unfoldable pub matches_loop : ℕ → ℕ → List ℕ → List ℕ → Bool
matches_loop zero i name prefix = true
matches_loop (suc rounds) i name prefix =
    let rest = matches_loop rounds (i + 1) name prefix in
    if get_or name i 0 == 0 || not (get_or name i 0 == get_or prefix i 0) then false else rest

unfoldable pub command_matches_prefix : List ℕ → List ℕ → ℕ → Bool
command_matches_prefix name prefix prefix_len =
    if prefix_len == 0 then true else matches_loop prefix_len 0 name prefix

unfoldable pub buffer_has_space : List ℕ → ℕ → Bool
buffer_has_space buffer zero = false
buffer_has_space [] (suc len) = false
buffer_has_space (c ∷ buffer) (suc len) =
    let rest = buffer_has_space buffer len in if c == b' ' then true else rest
