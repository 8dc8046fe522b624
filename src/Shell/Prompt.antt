-- ===== src/Shell/Prompt.antt =====
-- What src/kernel/shell/shell.c draws of the line that is typed, on the terminal of Tty.
use lux_kernel.Base.{ℕ, zero, suc, ◌+◌, ◌-◌, List, [], ◌∷◌, ltb, if◌then◌else◌, get_or}
use lux_kernel.Strings.{strlen}
use lux_kernel.Tty.Draw.{Vga}
use lux_kernel.Tty.{Tty, tty_putc, tty_write_string, tty_set_cursor_position}
use lux_kernel.Shell.Text.{command_matches_prefix}

-- `"@lux >"`
abbrev prompt_mark : List ℕ
prompt_mark = 64 ∷ 108 ∷ 117 ∷ 120 ∷ 32 ∷ 62 ∷ []

abbrev pub bell : ℕ
bell = 7

module _ (shell_cwd : List ℕ) where
  unfoldable pub prompt_length : ℕ
  prompt_length = strlen shell_cwd + 6

module _ {V : Type 0} (font : ℕ → ℕ → ℕ) (vga : Vga V) where
  -- `tty_putc` of so many bytes of a buffer, from an index on.
  unfoldable pub put_range : ℕ → ℕ → List ℕ → Tty V → Tty V
  put_range zero i buffer t = t
  put_range (suc rounds) i buffer t =
      put_range rounds (i + 1) buffer (tty_putc font vga (get_or buffer i 0) t)

  unfoldable pub put_spaces : ℕ → Tty V → Tty V
  put_spaces zero t = t
  put_spaces (suc rounds) t = put_spaces rounds (tty_putc font vga b' ' t)

module _ {V : Type 0} (font : ℕ → ℕ → ℕ) (vga : Vga V) (shell_cwd : List ℕ) where
  unfoldable pub prompt : Tty V → Tty V
  prompt t = tty_write_string font vga prompt_mark (tty_write_string font vga shell_cwd t)

  unfoldable pub redraw_prompt_with_buffer : List ℕ → ℕ → Tty V → Tty V
  redraw_prompt_with_buffer buffer len t = put_range font vga len 0 buffer (prompt t)

  unfoldable pub refresh_prompt_line : List ℕ → ℕ → ℕ → ℕ → Tty V → Tty V
  refresh_prompt_line buffer len previous_len cursor_pos t =
      let row = t.cursor_row in
      let drawn = redraw_prompt_with_buffer buffer len (tty_set_cursor_position font vga row 0 t) in
      let wiped =
        if ltb len previous_len then put_spaces font vga (previous_len - len) drawn else drawn in
      tty_set_cursor_position font vga row (prompt_length shell_cwd + cursor_pos) wiped

  -- The names of commands that match, a line each.
  unfoldable pub list_loop : List (List ℕ) → List ℕ → ℕ → Tty V → Tty V
  list_loop [] buffer len t = t
  list_loop (name ∷ names) buffer len t = list_loop names buffer len (
      if command_matches_prefix name buffer len
      then tty_putc font vga 10 (tty_write_string font vga name t)
      else t)

  unfoldable pub list_matches : List ℕ → ℕ → List (List ℕ) → Tty V → Tty V
  list_matches buffer len names t =
      redraw_prompt_with_buffer buffer len (list_loop names buffer len (tty_putc font vga 10 t))
