-- ===== src/Tty/Shown.antt =====
-- The functions of src/kernel/drivers/video/tty.c keep the screen true to the text.
use lux_kernel.Base.{
  ℕ, ◌+◌, ◌<◌, ◌≡◌, ap, false, List, [], ◌∷◌, ltb, leb, ◌==◌, if◌then◌else◌, arith, Bool-cases, inl,
  inr,
}
use lux_kernel.Tty.Draw.{Vga, Cell}
use lux_kernel.Tty.{
  Tty, tty_redraw_cursor, tty_scroll, put_cell, blank, tty_init, tty_set_color, newline, step_back,
  backspace, advance, put_plain, tty_putc, tty_write, tty_clear, tty_set_cursor_position,
}
use lux_kernel.Tty.Render.{Text, IsDrawn, IsShown}
use lux_kernel.Tty.Redraw.{redraw-IsShown, IsShown-IsDrawn}
use lux_kernel.Tty.Screen.{render-IsShown, scroll-IsDrawn, text-put_cell, put_cell-IsDrawn}

module _ {V : Type 0} (font : ℕ → ℕ → ℕ) (vga : Vga V) where
  -- The text was scrolled and the cursor is put back.
  scroll_redraw-IsShown :
      (t : Tty V)
      → t.cursor_col < 80
      → IsDrawn font t
      → IsShown font (tty_redraw_cursor font vga (tty_scroll font vga t))
  scroll_redraw-IsShown t c h =
      let (drawn, row_in, col_in) = scroll-IsDrawn font vga t c h in
      redraw-IsShown font vga (tty_scroll font vga t) row_in col_in drawn

  newline-IsShown : (t : Tty V) → IsShown font t → IsShown font (newline font vga t)
  unfolding newline
  newline-IsShown t h =
      scroll_redraw-IsShown (record t { cursor_col = 0; cursor_row = t.cursor_row + 1 })
        (omega arith) (record { drawn = (IsShown-IsDrawn font vga t h).drawn })

  step_back-fields :
      (t : Tty V)
      → t.cursor_row < 30
      → t.cursor_col < 80
      → ((step_back font vga t).cursor_row < 30) × ((step_back font vga t).cursor_col < 80)
  unfolding step_back
  step_back-fields t r c = ground arith

  step_back-IsDrawn : (t : Tty V) → IsDrawn font t → IsDrawn font (step_back font vga t)
  unfolding step_back
  step_back-IsDrawn t h = elim (Bool-cases (ltb 0 t.cursor_col)) [
    | inl e ↦ rw e (record { drawn = h.drawn })
    | inr e ↦ rw e (elim (Bool-cases (ltb 0 t.cursor_row)) [
      | inl f ↦ rw f (record { drawn = h.drawn })
      | inr f ↦ rw f h
    ])
  ]

  pub put_cell-row :
      (row col : ℕ) (cell : Cell) (t : Tty V)
      → ((put_cell font vga row col cell t).cursor_row ≡ t.cursor_row)
        × ((put_cell font vga row col cell t).cursor_col ≡ t.cursor_col)
  put_cell-row row col cell t =
      let same = text-put_cell font vga row col cell t in
      (ap (λ (s : Text). s.cursor_row) same, ap (λ (s : Text). s.cursor_col) same)

  backspace-IsShown : (t : Tty V) → IsShown font t → IsShown font (backspace font vga t)
  unfolding backspace
  backspace-IsShown t h =
      let back = step_back font vga t in
      let (r, c) = step_back-fields t h.row_in h.col_in in
      let cell = blank back.current_color in
      let (same_row, same_col) = put_cell-row back.cursor_row back.cursor_col cell back in
      redraw-IsShown font vga (put_cell font vga back.cursor_row back.cursor_col cell back)
        (omega (arith, same_row)) (omega (arith, same_col))
        (put_cell-IsDrawn font vga back.cursor_row back.cursor_col cell back r c
          (step_back-IsDrawn t (IsShown-IsDrawn font vga t h)))

  advance-IsDrawn :
      (t : Tty V)
      → t.cursor_col < 80
      → IsDrawn font t
      → IsDrawn font (advance font vga t) × ((advance font vga t).cursor_col < 80)
  unfolding advance
  advance-IsDrawn t c h = elim (Bool-cases (leb 80 (t.cursor_col + 1))) [
    | inl e ↦ rw e (record { drawn = h.drawn }, omega arith)
    | inr e ↦ rw e (record { drawn = h.drawn }, ground arith)
  ]

  put_plain-IsShown : (c : ℕ) (t : Tty V) → IsShown font t → IsShown font (put_plain font vga c t)
  unfolding put_plain
  put_plain-IsShown c t h =
      let inside : leb 30 t.cursor_row ≡ false = ground (arith, h.row_in) in
      let cell : Cell = record { character = c; color = t.current_color } in
      let put = put_cell font vga t.cursor_row t.cursor_col cell t in
      let drawn =
        put_cell-IsDrawn font vga t.cursor_row t.cursor_col cell t h.row_in h.col_in
          (IsShown-IsDrawn font vga t h) in
      let (_, same_col) = put_cell-row t.cursor_row t.cursor_col cell t in
      let (on, c_in) = advance-IsDrawn put (omega (arith, same_col, h.col_in)) drawn in
      rw inside (scroll_redraw-IsShown (advance font vga put) c_in on)

  pub putc-IsShown : (c : ℕ) (t : Tty V) → IsShown font t → IsShown font (tty_putc font vga c t)
  unfolding tty_putc
  putc-IsShown c t h = elim (Bool-cases (c == 10)) [
    | inl e ↦ rw e (newline-IsShown t h)
    | inr e ↦ rw e (elim (Bool-cases (c == 13)) [
      | inl f ↦ rw f (
          redraw-IsShown font vga (record t { cursor_col = 0 }) h.row_in (omega arith)
            (record { drawn = (IsShown-IsDrawn font vga t h).drawn }))
      | inr f ↦ rw f (elim (Bool-cases (c == 8)) [
        | inl g ↦ rw g (backspace-IsShown t h)
        | inr g ↦ rw g (put_plain-IsShown c t h)
      ])
    ])
  ]

  pub write-IsShown :
      (cs : List ℕ) (t : Tty V) → IsShown font t → IsShown font (tty_write font vga cs t)
  unfolding tty_write
  write-IsShown [] t h = h
  write-IsShown (c ∷ cs) t h = write-IsShown cs (tty_putc font vga c t) (putc-IsShown c t h)

  pub clear-IsShown : (t : Tty V) → IsShown font (tty_clear font vga t)
  unfolding tty_clear
  clear-IsShown t = render-IsShown font vga _ (omega arith) (omega arith)

  pub init-IsShown : (color : ℕ) (t : Tty V) → IsShown font (tty_init font vga color t)
  unfolding tty_init
  init-IsShown color t = render-IsShown font vga _ (omega arith) (omega arith)

  pub set_color-IsShown :
      (color : ℕ) (t : Tty V) → IsShown font t → IsShown font (tty_set_color font vga color t)
  unfolding tty_set_color
  set_color-IsShown color t h = record {
    row_in = h.row_in;
    col_in = h.col_in;
    overlay_row_at = h.overlay_row_at;
    overlay_col_at = h.overlay_col_at;
    shown = h.shown;
  }

  pub set_cursor-IsShown :
      (row col : ℕ) (t : Tty V)
      → IsShown font t
      → IsShown font (tty_set_cursor_position font vga row col t)
  unfolding tty_set_cursor_position
  set_cursor-IsShown row col t h =
      redraw-IsShown font vga
        (record t {
          cursor_row = if leb 30 row then 29 else row;
          cursor_col = if leb 80 col then 79 else col;
        })
        (ground arith) (ground arith) (record { drawn = (IsShown-IsDrawn font vga t h).drawn })
