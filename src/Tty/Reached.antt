-- ===== src/Tty/Reached.antt =====
-- Every state of the terminal of src/kernel/drivers/video/tty.c that calls can reach.
use lux_kernel.Base.{
  ℕ, ◌%◌, ◌<◌, ◌≡◌, refl, sym, ◌∙◌, ap, false, ◌&&◌, ◌||◌, List, leb, ◌==◌, if◌then◌else◌, arith,
  Bool-cases, inl, inr, take,
}
use lux_kernel.Strings.{strlen}
use lux_kernel.Tty.Draw.{Vga, Cell, cursor_color_of}
use lux_kernel.Tty.Pixels.{glyph_pixel}
use lux_kernel.Tty.{
  Tty, put_cell, tty_init, tty_set_color, tty_putc, tty_write, tty_write_string, tty_clear,
  tty_write_cell, tty_set_cursor_position,
}
use lux_kernel.Tty.Render.{in_cell, IsShown}
use lux_kernel.Tty.Redraw.{redraw-IsShown, IsShown-IsDrawn}
use lux_kernel.Tty.Screen.{overlay-put_cell, put_cell-at, put_cell-out, put_cell-IsDrawn}
use lux_kernel.Tty.Shown.{
  put_cell-row, putc-IsShown, write-IsShown, clear-IsShown, init-IsShown, set_color-IsShown,
  set_cursor-IsShown,
}

module _ {V : Type 0} (font : ℕ → ℕ → ℕ) (vga : Vga V) where
  -- A cell that is not under the cursor is written.
  put_elsewhere-IsShown :
      (row col : ℕ) (cell : Cell) (t : Tty V)
      → row < 30
      → col < 80
      → (row == t.cursor_row && col == t.cursor_col) ≡ false
      → IsShown font t
      → IsShown font (put_cell font vga row col cell t)
  put_elsewhere-IsShown row col cell t r c away h =
      let put = put_cell font vga row col cell t in
      let (same_row, same_col) = put_cell-row font vga row col cell t in
      let over = overlay-put_cell font vga row col cell t in
      record {
        row_in = omega (arith, same_row, h.row_in);
        col_in = omega (arith, same_col, h.col_in);
        overlay_row_at = over.0 ∙ h.overlay_row_at ∙ sym same_row;
        overlay_col_at = over.1 ∙ h.overlay_col_at ∙ sym same_col;
        shown = λ Y X y x.
            put_cell-at font vga row col cell t Y X r c x
            ∙ elim (Bool-cases (in_cell row col Y X)) [
              | inl here ↦
                  let off : (in_cell t.cursor_row t.cursor_col Y X && leb 14 (Y % 16)) ≡ false =
                    ground arith in
                  rw (here, same_row, same_col, off) refl
              | inr there ↦ rw there (
                  h.shown Y X y x
                  ∙ ap
                      (λ k.
                        if in_cell t.cursor_row t.cursor_col Y X && leb 14 (Y % 16)
                        then cursor_color_of k
                        else glyph_pixel font k (Y % 16) (X % 8))
                      (sym (put_cell-out font vga row col cell t Y X c x there))
                  ∙ rw (same_row, same_col) refl)
            ];
      }

  write_cell-IsShown :
      (row col c color : ℕ) (t : Tty V)
      → IsShown font t
      → IsShown font (tty_write_cell font vga row col c color t)
  unfolding tty_write_cell
  write_cell-IsShown row col c color t h =
      let cell : Cell = record { character = c; color = color } in
      let put = put_cell font vga row col cell t in
      let (same_row, same_col) = put_cell-row font vga row col cell t in
      elim (Bool-cases (leb 30 row || leb 80 col)) [
        | inl out ↦ rw out h
        | inr inside ↦
            let r : row < 30 = ground arith in
            let k : col < 80 = ground arith in
            rw inside (elim (Bool-cases (row == put.cursor_row && col == put.cursor_col)) [
              | inl at ↦ rw at (
                  redraw-IsShown font vga put (omega (arith, same_row, h.row_in))
                    (omega (arith, same_col, h.col_in))
                    (put_cell-IsDrawn font vga row col cell t r k (IsShown-IsDrawn font vga t h)))
              | inr away ↦
                  let elsewhere : (row == t.cursor_row && col == t.cursor_col) ≡ false =
                    ground (arith, same_row, same_col, away) in
                  rw away (put_elsewhere-IsShown row col cell t r k elsewhere h)
            ])
      ]

  -- One call of a function that changes the state.
  pub data Step : Tty V → Tty V → Type 0 where
    init : (t : Tty V) (color : ℕ) → Step t (tty_init font vga color t)
    set_color : (t : Tty V) (color : ℕ) → Step t (tty_set_color font vga color t)
    putc : (t : Tty V) (c : ℕ) → Step t (tty_putc font vga c t)
    write : (t : Tty V) (cs : List ℕ) → Step t (tty_write font vga cs t)
    write_string : (t : Tty V) (str : List ℕ) → Step t (tty_write_string font vga str t)
    clear : (t : Tty V) → Step t (tty_clear font vga t)
    write_cell :
        (t : Tty V) (row col c color : ℕ) → Step t (tty_write_cell font vga row col c color t)
    set_cursor : (t : Tty V) (row col : ℕ) → Step t (tty_set_cursor_position font vga row col t)

  -- The first call is `tty_init`, on whatever the memory holds.
  pub data Reached : Tty V → Type 0 where
    first : (t : Tty V) (color : ℕ) → Reached (tty_init font vga color t)
    next : (t u : Tty V) → Reached t → Step t u → Reached u

  Step-IsShown : (t u : Tty V) → Step t u → IsShown font t → IsShown font u
  unfolding tty_write_string
  Step-IsShown _ _ (init t color) h = init-IsShown font vga color t
  Step-IsShown _ _ (set_color t color) h = set_color-IsShown font vga color t h
  Step-IsShown _ _ (putc t c) h = putc-IsShown font vga c t h
  Step-IsShown _ _ (write t cs) h = write-IsShown font vga cs t h
  Step-IsShown _ _ (write_string t str) h = write-IsShown font vga (take (strlen str) str) t h
  Step-IsShown _ _ (clear t) h = clear-IsShown font vga t
  Step-IsShown _ _ (write_cell t row col c color) h = write_cell-IsShown row col c color t h
  Step-IsShown _ _ (set_cursor t row col) h = set_cursor-IsShown font vga row col t h

  -- In every state that calls of the public functions can reach from `tty_init`, with any font and any card,
  -- the cursor is within the 30 rows and 80 columns, and each of the 640 by 480 pixels of the framebuffer
  -- is the one that the text asks for: that of the glyph of the cell it lies in, in the cell's colors,
  -- but in the last two lines of the cell under the cursor the color of the cursor.
  pub Reached-IsShown : (t : Tty V) → Reached t → IsShown font t
  Reached-IsShown _ (first t color) = init-IsShown font vga color t
  Reached-IsShown _ (next t u r step) = Step-IsShown t u step (Reached-IsShown t r)
