-- ===== src/Tty.antt =====
-- src/kernel/drivers/video/tty.c. The static variables are a record; an array is a function of its index,
-- and Tty.Shown proves that the indices are in range. The ports and the memory of the VGA card are
-- the parameter `vga`, with a state of their own, and the glyphs of font_ibm_vga_8x16.h are `font`.
pub mod Draw
pub mod Pixels
pub mod Render
pub mod Redraw
pub mod Screen
pub mod Shown
pub mod Reached
pub mod Tape
pub mod Typing
pub mod Planes
mod Tests
use lux_kernel.Base.{
  ℕ, zero, suc, ◌+◌, ◌-◌, ◌*◌, ◌/◌, ◌%◌, ◌^◌, Bool, true, false, not, ◌&&◌, ◌||◌, List, [], ◌∷◌,
  ltb, leb, ◌==◌, if◌then◌else◌, take,
}
use lux_kernel.Tty.Draw.{
  Vga, Cell, update, cell_width, cell_height, vga_program_palette, vga_clear_screen, vga_flush_cell,
  glyph_lines, cursor_lines, tty_cell_index, tty_rows, tty_cols, screen_width, screen_height,
  cursor_height, cursor_color_of,
}
use lux_kernel.Strings.{strlen}

abbrev pub cursor_invalid : ℕ
cursor_invalid = 2 ^ 32 - 1

pub record Tty (V : Type 0) : Type 0 where
  pub cursor_row : ℕ
  pub cursor_col : ℕ
  pub current_color : ℕ
  pub cells : ℕ → Cell
  pub overlay_row : ℕ
  pub overlay_col : ℕ
  pub framebuffer : ℕ → ℕ
  pub video : V

abbrev pub blank : ℕ → Cell
blank color = record { character = b' '; color = color }

-- `memmove(cells, cells + by, count * sizeof(struct tty_cell))`
unfoldable pub move_cells : ℕ → ℕ → (ℕ → Cell) → ℕ → Cell
move_cells count by cells i = if ltb i count then cells (i + by) else cells i

unfoldable pub blank_loop : ℕ → ℕ → Cell → (ℕ → Cell) → ℕ → Cell
blank_loop zero i cell cells = cells
blank_loop (suc rounds) i cell cells = blank_loop rounds (i + 1) cell (update cells i cell)

-- `memset(framebuffer, 0, sizeof(framebuffer))`
unfoldable pub clear_framebuffer : (ℕ → ℕ) → ℕ → ℕ
clear_framebuffer fb i = if ltb i (screen_width * screen_height) then 0 else fb i

unfoldable pub in_screen : ℕ → ℕ → Bool
in_screen row col = ltb row tty_rows && ltb col tty_cols

module _ {V : Type 0} (font : ℕ → ℕ → ℕ) (vga : Vga V) where
  -- A cell of the framebuffer is drawn, and then copied to the card.
  abbrev pub flushed : ℕ → ℕ → (ℕ → ℕ) → Tty V → Tty V
  flushed base_x base_y fb t = record t {
    framebuffer = fb;
    video = vga_flush_cell vga base_x base_y fb t.video;
  }

  unfoldable pub tty_draw_glyph : ℕ → ℕ → Tty V → Tty V
  tty_draw_glyph row col t =
      let cell = t.cells (tty_cell_index row col) in
      let base_x = col * cell_width in
      let base_y = row * cell_height in
      if leb tty_rows row || leb tty_cols col
      then t
      else flushed base_x base_y (glyph_lines font cell_height 0 base_x base_y cell t.framebuffer) t

  unfoldable pub tty_draw_cursor_block : ℕ → ℕ → Tty V → Tty V
  tty_draw_cursor_block row col t =
      let cell = t.cells (tty_cell_index row col) in
      let base_x = col * cell_width in
      let base_y = row * cell_height in
      let start_y = base_y + cell_height - cursor_height in
      if leb tty_rows row || leb tty_cols col
      then t
      else flushed base_x base_y
          (cursor_lines cursor_height 0 base_x start_y (cursor_color_of cell) t.framebuffer) t

  -- The two halves of `tty_redraw_cursor`: the overlay of before is drawn over, and the cursor is put
  -- where it is now.
  unfoldable pub wipe_overlay : Tty V → Tty V
  wipe_overlay t =
      if in_screen t.overlay_row t.overlay_col
      then tty_draw_glyph t.overlay_row t.overlay_col t
      else t

  unfoldable pub place_cursor : Tty V → Tty V
  place_cursor t =
      let moved : Tty V = record t { overlay_row = t.cursor_row; overlay_col = t.cursor_col } in
      if in_screen moved.overlay_row moved.overlay_col
      then tty_draw_cursor_block moved.overlay_row moved.overlay_col
          (tty_draw_glyph moved.overlay_row moved.overlay_col moved)
      else moved

  unfoldable pub tty_redraw_cursor : Tty V → Tty V
  tty_redraw_cursor t = place_cursor (wipe_overlay t)

  unfoldable pub col_loop : ℕ → ℕ → ℕ → Tty V → Tty V
  col_loop zero row col t = t
  col_loop (suc rounds) row col t = col_loop rounds row (col + 1) (tty_draw_glyph row col t)

  unfoldable pub row_loop : ℕ → ℕ → Tty V → Tty V
  row_loop zero row t = t
  row_loop (suc rounds) row t = row_loop rounds (row + 1) (col_loop tty_cols row 0 t)

  unfoldable pub tty_render_screen : Tty V → Tty V
  tty_render_screen t = tty_redraw_cursor (record (row_loop tty_rows 0 t) {
    overlay_row = cursor_invalid;
    overlay_col = cursor_invalid;
  })

  unfoldable pub tty_scroll : Tty V → Tty V
  tty_scroll t =
      let by = t.cursor_row - (tty_rows - 1) in
      let least = if by == 0 then 1 else by in
      let overflow = if ltb tty_rows least then tty_rows else least in
      let start = (tty_rows - overflow) * tty_cols in
      let kept = move_cells start (overflow * tty_cols) t.cells in
      let blanked = blank_loop (tty_rows * tty_cols - start) start (blank t.current_color) kept in
      if ltb t.cursor_row tty_rows
      then t
      else tty_render_screen (record t { cells = blanked; cursor_row = tty_rows - 1 })

  unfoldable pub tty_init : ℕ → Tty V → Tty V
  tty_init color t = tty_render_screen (record {
    cursor_row = 0;
    cursor_col = 0;
    current_color = color;
    cells = blank_loop (tty_rows * tty_cols) 0 (blank color) t.cells;
    overlay_row = cursor_invalid;
    overlay_col = cursor_invalid;
    framebuffer = clear_framebuffer t.framebuffer;
    video = vga_clear_screen vga (vga_program_palette vga t.video);
  })

  unfoldable pub tty_set_color : ℕ → Tty V → Tty V
  tty_set_color color t = record t { current_color = color }

  unfoldable pub newline : Tty V → Tty V
  newline t =
      tty_redraw_cursor (tty_scroll (record t { cursor_col = 0; cursor_row = t.cursor_row + 1 }))

  -- The cursor goes back by one place, if there is one, and the place is blanked.
  unfoldable pub step_back : Tty V → Tty V
  step_back t =
      if ltb 0 t.cursor_col
      then record t { cursor_col = t.cursor_col - 1 }
      else if ltb 0 t.cursor_row
      then record t { cursor_row = t.cursor_row - 1; cursor_col = tty_cols - 1 }
      else t

  -- A cell is written and drawn.
  unfoldable pub put_cell : ℕ → ℕ → Cell → Tty V → Tty V
  put_cell row col cell t =
      tty_draw_glyph row col (record t { cells = update t.cells (tty_cell_index row col) cell })

  unfoldable pub backspace : Tty V → Tty V
  backspace t =
      let back = step_back t in
      tty_redraw_cursor (put_cell back.cursor_row back.cursor_col (blank back.current_color) back)

  unfoldable pub advance : Tty V → Tty V
  advance t =
      if leb tty_cols (t.cursor_col + 1)
      then record t { cursor_col = 0; cursor_row = t.cursor_row + 1 }
      else record t { cursor_col = t.cursor_col + 1 }

  unfoldable pub put_plain : ℕ → Tty V → Tty V
  put_plain c t =
      let room = if leb tty_rows t.cursor_row then tty_scroll t else t in
      let cell : Cell = record { character = c; color = room.current_color } in
      tty_redraw_cursor (tty_scroll (advance (put_cell room.cursor_row room.cursor_col cell room)))

  unfoldable pub tty_putc : ℕ → Tty V → Tty V
  tty_putc c t =
      if c == 10
      then newline t
      else if c == 13
      then tty_redraw_cursor (record t { cursor_col = 0 })
      else if c == 8
      then backspace t
      else put_plain c t

  unfoldable pub tty_write : List ℕ → Tty V → Tty V
  tty_write [] t = t
  tty_write (c ∷ cs) t = tty_write cs (tty_putc c t)

  -- A string ends at its NUL.
  unfoldable pub tty_write_string : List ℕ → Tty V → Tty V
  tty_write_string str t = tty_write (take (strlen str) str) t

  unfoldable pub tty_clear : Tty V → Tty V
  tty_clear t = tty_render_screen (record t {
    cells = blank_loop (tty_rows * tty_cols) 0 (blank t.current_color) t.cells;
    cursor_row = 0;
    cursor_col = 0;
  })

  unfoldable pub tty_write_cell : ℕ → ℕ → ℕ → ℕ → Tty V → Tty V
  tty_write_cell row col c color t =
      let drawn = put_cell row col (record { character = c; color = color }) t in
      if leb tty_rows row || leb tty_cols col
      then t
      else if row == drawn.cursor_row && col == drawn.cursor_col
      then tty_redraw_cursor drawn
      else drawn

  unfoldable pub tty_set_cursor_position : ℕ → ℕ → Tty V → Tty V
  tty_set_cursor_position row col t = tty_redraw_cursor (record t {
    cursor_row = if leb tty_rows row then tty_rows - 1 else row;
    cursor_col = if leb tty_cols col then tty_cols - 1 else col;
  })

module _ {V : Type 0} where
  unfoldable pub tty_get_cell_character : ℕ → ℕ → Tty V → ℕ
  tty_get_cell_character row col t =
      if leb tty_rows row || leb tty_cols col
      then 0
      else (t.cells (tty_cell_index row col)).character

  unfoldable pub tty_get_cell_color : ℕ → ℕ → Tty V → ℕ
  tty_get_cell_color row col t =
      if leb tty_rows row || leb tty_cols col then 0 else (t.cells (tty_cell_index row col)).color

  unfoldable pub tty_get_cursor_position : Tty V → ℕ × ℕ
  tty_get_cursor_position t = (t.cursor_row, t.cursor_col)
