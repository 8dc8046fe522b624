-- ===== src/Shell/Complete.antt =====
-- `handle_tab_completion` of src/kernel/shell/shell.c. A command is its name, without the NUL.
use lux_kernel.Base.{
  ℕ, ◌+◌, ◌-◌, Bool, true, false, not, ◌&&◌, List, [], ◌∷◌, ltb, ◌==◌, if◌then◌else◌, set,
}
use lux_kernel.Strings.{memcpy, strlen}
use lux_kernel.Tty.Draw.{Vga}
use lux_kernel.Tty.{Tty, tty_putc}
use lux_kernel.Shell.Text.{command_matches_prefix, buffer_has_space, common_prefix_len}
use lux_kernel.Shell.Prompt.{put_range, list_matches, bell}

-- `buffer`, `len` and `cursor_pos` of the line that is typed.
pub record Line : Type 0 where
  pub buffer : List ℕ
  pub len : ℕ
  pub cursor_pos : ℕ

-- `match_count`, `first_name` and `shared_len`
pub record Matches : Type 0 where
  pub match_count : ℕ
  pub first_name : List ℕ
  pub shared_len : ℕ

unfoldable pub count_match : List ℕ → Matches → Matches
count_match name m =
    let common = common_prefix_len m.first_name name in
    if m.match_count == 0
    then record { match_count = 1; first_name = name; shared_len = strlen name }
    else record m {
      match_count = m.match_count + 1;
      shared_len = if ltb common m.shared_len then common else m.shared_len;
    }

unfoldable pub matches_of : List (List ℕ) → List ℕ → ℕ → Matches → Matches
unfolding count_match
matches_of [] buffer prefix_len m = m
matches_of (name ∷ names) buffer prefix_len m =
    matches_of names buffer prefix_len
      (if command_matches_prefix name buffer prefix_len then count_match name m else m)

-- `!command_count`
abbrev pub no_commands : List (List ℕ) → Bool
no_commands [] = true
no_commands (name ∷ names) = false

-- How many characters of the shared prefix are added.
unfoldable pub to_add : ℕ → Matches → ℕ → ℕ
to_add capacity m prefix_len =
    let room = capacity - 1 - prefix_len in
    let missing = m.shared_len - prefix_len in
    if ltb prefix_len m.shared_len then (if ltb room missing then room else missing) else 0

unfoldable pub extend_line : ℕ → Matches → Line → Line
unfolding to_add
extend_line capacity m l =
    let added = to_add capacity m l.len in
    let copied = memcpy l.buffer l.len m.first_name l.len added in
    if added == 0
    then l
    else record l { buffer = set copied (l.len + added) 0; len = l.len + added }

-- A space behind the only name that matches.
unfoldable pub finish_name : ℕ → Matches → Line → Line
finish_name capacity m l =
    if l.len == strlen m.first_name && ltb (l.len + 1) capacity
    then record l { buffer = set (set l.buffer l.len b' ') (l.len + 1) 0; len = l.len + 1 }
    else l

module _ {V : Type 0} (font : ℕ → ℕ → ℕ) (vga : Vga V) (shell_cwd : List ℕ) where
  -- The part behind the count of the matches, of which there is one at least.
  unfoldable pub complete : ℕ → List (List ℕ) → Matches → Line × Tty V → Line × Tty V
  unfolding extend_line finish_name
  complete capacity names m (l, t) =
      let longer = extend_line capacity m l in
      let shown = put_range font vga (longer.len - l.len) l.len longer.buffer t in
      let finished = finish_name capacity m longer in
      if m.match_count == 1
      then (finished, if longer.len == finished.len then shown else tty_putc font vga b' ' shown)
      else if ltb 1 m.match_count && longer.len == l.len
      then (longer, list_matches font vga shell_cwd longer.buffer longer.len names shown)
      else (longer, shown)

  unfoldable pub handle_tab_completion : ℕ → List (List ℕ) → Line × Tty V → Line × Tty V
  handle_tab_completion capacity names (l, t) =
      let start : Matches = record { match_count = 0; first_name = []; shared_len = 0 } in
      let m = matches_of names l.buffer l.len start in
      if no_commands names
      then (l, t)
      else if l.len == 0
      then (record l { cursor_pos = l.len }, list_matches font vga shell_cwd l.buffer l.len names t)
      else if buffer_has_space l.buffer l.len
      then (l, tty_putc font vga bell t)
      else if not (l.cursor_pos == l.len)
      then (l, tty_putc font vga bell t)
      else if m.match_count == 0
      then (l, tty_putc font vga bell t)
      else complete capacity names m (l, t)
