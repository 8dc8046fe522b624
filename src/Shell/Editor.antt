-- ===== src/Shell/Editor.antt =====
-- `read_line` of src/kernel/shell/shell.c. The characters that `read_char_with_pending` gives are a list; the
-- terminal is that of Tty. `len` and `cursor_pos` do not wrap, since the buffer is small.
use lux_kernel.Base.{
  ℕ, zero, suc, ◌+◌, ◌-◌, Bool, true, false, not, ◌&&◌, Option, none, some, List, [], ◌∷◌, ltb, leb,
  ◌==◌, if◌then◌else◌, set, ℤ, pos, negsuc,
}
use lux_kernel.Strings.{memcpy, memmove}
use lux_kernel.Tty.Draw.{Vga}
use lux_kernel.Tty.{Tty, tty_putc, tty_write_string}
use lux_kernel.Shell.Text.{shell_strnlen}
use lux_kernel.Shell.History.{History, history_get}
use lux_kernel.Shell.Prompt.{refresh_prompt_line, bell}
use lux_kernel.Shell.Complete.{Line, handle_tab_completion}

-- The local variables of `read_line`.
pub record Edit : Type 0 where
  pub line : Line
  pub history_offset : ℤ
  pub saved_current : List ℕ
  pub saved_current_valid : Bool

-- After a character: another one, or the line is done or given up.
pub data Next (V : Type 0) : Type 0 where
  more : Edit → Tty V → Next V
  done : Edit → Tty V → Next V
  cancelled : Edit → Tty V → Next V

-- The line is no longer an entry of the history.
abbrev pub edited : Line → Edit → Edit
edited line e = record e { line = line; history_offset = negsuc 0; saved_current_valid = false }

unfoldable pub insert_char : ℕ → Line → Line
insert_char c l = record {
  buffer =
      set (memmove l.buffer (l.cursor_pos + 1) l.cursor_pos (l.len - l.cursor_pos + 1)) l.cursor_pos
        c;
  len = l.len + 1;
  cursor_pos = l.cursor_pos + 1;
}

unfoldable pub delete_char : Line → Line
delete_char l = record l {
  buffer =
      set (memmove l.buffer l.cursor_pos (l.cursor_pos + 1) (l.len - l.cursor_pos)) (l.len - 1) 0;
  len = l.len - 1;
}

unfoldable pub erase_char : Line → Line
erase_char l = record {
  buffer = memmove l.buffer (l.cursor_pos - 1) l.cursor_pos (l.len - l.cursor_pos + 1);
  len = l.len - 1;
  cursor_pos = l.cursor_pos - 1;
}

-- The line part of `replace_buffer_with_text`.
unfoldable pub replaced : ℕ → Option (List ℕ) → Line → Line
replaced capacity none l = record { buffer = set l.buffer 0 0; len = 0; cursor_pos = 0 }
replaced capacity (some text) l =
    let copy_len = shell_strnlen text (capacity - 1) in
    record {
      buffer = set (memcpy l.buffer 0 text 0 copy_len) copy_len 0;
      len = copy_len;
      cursor_pos = copy_len;
    }

-- The history offset as a number, for the comparisons of the source.
abbrev pub next_offset : ℤ → ℕ
next_offset (pos n) = n + 1
next_offset (negsuc n) = 0

abbrev pub is_fresh : ℤ → Bool
is_fresh (pos n) = false
is_fresh (negsuc n) = true

-- The line that is typed is kept when the history is entered.
unfoldable pub save_current : ℕ → Edit → Edit
save_current capacity e =
    let copy_len = if ltb (capacity - 1) e.line.len then capacity - 1 else e.line.len in
    if is_fresh e.history_offset && not e.saved_current_valid
    then record e {
      saved_current = set (memcpy e.saved_current 0 e.line.buffer 0 copy_len) copy_len 0;
      saved_current_valid = true;
    }
    else e

-- What `read_line` returns: the length, the buffer, the terminal, and the characters that are left.
abbrev pub Read : Type 0 → Type 0
Read V = ℕ × List ℕ × Tty V × List ℕ

module _ {V : Type 0} where
  -- The end of a round: the next one, or the end of `read_line`.
  unfoldable pub after_key : List ℕ → (Edit → Tty V → Option (Read V)) → Next V → Option (Read V)
  after_key cs next (more e t) = next e t
  after_key cs next (done e t) = some (e.line.len, set e.line.buffer e.line.len 0, t, cs)
  after_key cs next (cancelled e t) = some (0, e.line.buffer, t, cs)

module _ {V : Type 0} (font : ℕ → ℕ → ℕ) (vga : Vga V) where
  unfoldable pub beeped : Edit → Tty V → Next V
  beeped e t = more e (tty_putc font vga bell t)

module _ {V : Type 0} (font : ℕ → ℕ → ℕ) (vga : Vga V) (shell_cwd : List ℕ) where
  -- The line changed, and is drawn again over what was there.
  unfoldable pub refreshed : ℕ → Edit → Tty V → Next V
  refreshed previous_len e t = more e (
      refresh_prompt_line font vga shell_cwd e.line.buffer e.line.len previous_len e.line.cursor_pos
        t)

  -- The cursor moves within the line.
  unfoldable pub move_cursor : ℕ → Edit → Tty V → Next V
  move_cursor cursor_pos e t =
      refreshed e.line.len (record e { line = record e.line { cursor_pos = cursor_pos } }) t

  unfoldable pub arrow_key : ℕ → Edit → Tty V → Next V
  arrow_key c e t =
      let l = e.line in
      if c == 0x82
      then (if ltb 0 l.cursor_pos then move_cursor (l.cursor_pos - 1) e t else beeped font vga e t)
      else if c == 0x83
      then (if ltb l.cursor_pos l.len
          then move_cursor (l.cursor_pos + 1) e t
          else beeped font vga e t)
      else if c == 0x84
      then (if ltb l.cursor_pos l.len
          then refreshed l.len (edited (delete_char l) e) t
          else beeped font vga e t)
      else if c == 0x85
      then (if ltb 0 l.cursor_pos then move_cursor 0 e t else more e t)
      else if ltb l.cursor_pos l.len
      then move_cursor l.len e t
      else more e t

  unfoldable pub backspace_key : Edit → Tty V → Next V
  backspace_key e t =
      if not (e.line.cursor_pos == 0)
      then refreshed e.line.len (edited (erase_char e.line) e) t
      else beeped font vga e t

module _ {V : Type 0} (font : ℕ → ℕ → ℕ) (vga : Vga V) (shell_cwd : List ℕ) (capacity : ℕ) where
  unfoldable pub replace_buffer_with_text : Option (List ℕ) → Edit → Tty V → Next V
  replace_buffer_with_text text e t =
      refreshed font vga shell_cwd e.line.len (record e { line = replaced capacity text e.line }) t

  unfoldable pub arrow_up : History → Edit → Tty V → Next V
  arrow_up h e t =
      let offset = next_offset e.history_offset in
      let saved = save_current capacity e in
      if leb h.count offset then beeped font vga e t else elim (history_get offset h) [
        | none ↦ beeped font vga saved t
        | some entry ↦
            replace_buffer_with_text (some entry) (record saved { history_offset = pos offset }) t
      ]

  -- Behind the newest entry, the line that was kept comes back.
  unfoldable pub leave_history : Edit → Tty V → Next V
  leave_history e t =
      replace_buffer_with_text (if e.saved_current_valid then some e.saved_current else none)
        (record e { history_offset = negsuc 0; saved_current_valid = false }) t

  unfoldable pub arrow_down : History → Edit → Tty V → Next V
  arrow_down h e t = elim e.history_offset [
    | negsuc n ↦ beeped font vga e t
    | pos zero ↦ leave_history e t
    | pos (suc n) ↦ elim (history_get n h) [
      | none ↦ leave_history e t
      | some entry ↦ replace_buffer_with_text (some entry) (record e { history_offset = pos n }) t
    ]
  ]

  unfoldable pub tab_key : List (List ℕ) → Edit → Tty V → Next V
  tab_key names e t =
      let (l, t') = handle_tab_completion font vga shell_cwd capacity names (e.line, t) in
      refreshed font vga shell_cwd l.len (edited l e) t'

  unfoldable pub plain_key : ℕ → Edit → Tty V → Next V
  plain_key c e t =
      if leb capacity (e.line.len + 1)
      then beeped font vga e t
      else refreshed font vga shell_cwd e.line.len (edited (insert_char c e.line) e) t

  -- The body of the loop, at a character.
  unfoldable pub edit_step : History → List (List ℕ) → ℕ → Edit → Tty V → Next V
  edit_step h names c e t =
      let l = e.line in
      let empty : Line = record { buffer = set l.buffer 0 0; len = 0; cursor_pos = 0 } in
      if c == 0
      then more e t
      else if c == 3
      then cancelled (edited empty e) (tty_write_string font vga (b'^' ∷ b'C' ∷ 10 ∷ []) t)
      else if c == 0x80
      then arrow_up h e t
      else if c == 0x81
      then arrow_down h e t
      else if leb 0x82 c && leb c 0x86
      then arrow_key font vga shell_cwd c e t
      else if c == 13
      then more e t
      else if c == 10
      then done e (tty_putc font vga 10 t)
      else if c == 8
      then backspace_key font vga shell_cwd e t
      else if c == 9
      then tab_key names e t
      else plain_key c e t

  -- The loop over the characters; `none` when they run out before the line is done.
  unfoldable pub read_loop : History → List (List ℕ) → List ℕ → Edit → Tty V → Option (Read V)
  read_loop h names [] e t = none
  read_loop h names (c ∷ cs) e t = after_key cs (read_loop h names cs) (edit_step h names c e t)

  unfoldable pub read_line :
      History → List (List ℕ) → List ℕ → List ℕ → List ℕ → Tty V → Option (Read V)
  read_line h names buffer saved_current cs t =
      read_loop h names cs
        (record {
          line = record { buffer = buffer; len = 0; cursor_pos = 0 };
          history_offset = negsuc 0;
          saved_current = saved_current;
          saved_current_valid = false;
        })
        t
