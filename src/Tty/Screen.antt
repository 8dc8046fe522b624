-- ===== src/Tty/Screen.antt =====
-- `tty_render_screen`, `tty_scroll` and the writing of one cell, of src/kernel/drivers/video/tty.c.
use lux_kernel.Base.{
  ℕ, zero, suc, ◌+◌, ◌*◌, ◌/◌, ◌%◌, ◌≤◌, ◌<◌, ◌≡◌, refl, sym, subst, ◌∙◌, ap, ap₂, false, ltb, ◌==◌,
  if◌then◌else◌, arith, Bool-cases, inl, inr,
}
use lux_kernel.Tty.Draw.{Vga, Cell, update, tty_cell_index}
use lux_kernel.Tty.Pixels.{glyph_pixel}
use lux_kernel.Tty.{
  Tty, tty_draw_glyph, col_loop, row_loop, tty_render_screen, cursor_invalid, tty_scroll, put_cell,
}
use lux_kernel.Tty.Render.{
  Text, text, in_cell, pixel, glyph_at, IsDrawn, IsShown, draw_glyph-at, text-draw_glyph,
}
use lux_kernel.Tty.Redraw.{overlay-draw_glyph, text-redraw, redraw-IsShown, IsShown-IsDrawn}

module _ {V : Type 0} (font : ℕ → ℕ → ℕ) (vga : Vga V) where
  -- The cells with an index under `n` are drawn.
  record IsDone (n : ℕ) (t : Tty V) : Type 0 where
    done :
        (Y X : ℕ)
        → Y < 480
        → X < 640
        → Y / 16 * 80 + X / 8 < n
        → pixel t Y X ≡ glyph_at font t.cells Y X

  draw_glyph-IsDone :
      (row col n : ℕ) (t : Tty V)
      → row < 30
      → col < 80
      → n ≡ row * 80 + col
      → IsDone n t
      → IsDone (n + 1) (tty_draw_glyph font vga row col t)
  draw_glyph-IsDone row col n t r c e h = record {
    done = λ Y X y x lt.
        draw_glyph-at font vga row col t Y X r c x
        ∙ elim (Bool-cases (in_cell row col Y X)) [
          | inl here ↦ rw here refl
          | inr there ↦ rw there (h.done Y X y x (ground arith))
        ]
        ∙ ap (λ (s : Text). glyph_at font s.cells Y X) (sym (text-draw_glyph font vga row col t));
  }

  text-col_loop :
      (rounds row col : ℕ) (t : Tty V) → text (col_loop font vga rounds row col t) ≡ text t
  unfolding col_loop
  text-col_loop zero row col t = refl
  text-col_loop (suc rounds) row col t =
      text-col_loop rounds row (col + 1) (tty_draw_glyph font vga row col t)
      ∙ text-draw_glyph font vga row col t

  text-row_loop : (rounds row : ℕ) (t : Tty V) → text (row_loop font vga rounds row t) ≡ text t
  unfolding row_loop
  text-row_loop zero row t = refl
  text-row_loop (suc rounds) row t =
      text-row_loop rounds (row + 1) (col_loop font vga 80 row 0 t) ∙ text-col_loop 80 row 0 t

  col_loop-IsDone :
      (rounds row col n : ℕ) (t : Tty V)
      → row < 30
      → col + rounds ≤ 80
      → n ≡ row * 80 + col
      → IsDone n t
      → IsDone (n + rounds) (col_loop font vga rounds row col t)
  unfolding col_loop
  col_loop-IsDone zero row col n t r c e h = subst (λ k. IsDone k t) (omega arith) h
  col_loop-IsDone (suc rounds) row col n t r c e h =
      subst
        (λ k. IsDone k (col_loop font vga rounds row (col + 1) (tty_draw_glyph font vga row col t)))
        (omega arith)
        (col_loop-IsDone rounds row (col + 1) (n + 1) (tty_draw_glyph font vga row col t) r
          (omega arith) (omega arith) (draw_glyph-IsDone row col n t r (omega arith) e h))

  row_loop-IsDone :
      (rounds row n : ℕ) (t : Tty V)
      → row + rounds ≤ 30
      → n ≡ row * 80
      → IsDone n t
      → IsDone (n + rounds * 80) (row_loop font vga rounds row t)
  unfolding row_loop
  row_loop-IsDone zero row n t r e h = subst (λ k. IsDone k t) (omega arith) h
  row_loop-IsDone (suc rounds) row n t r e h =
      subst (λ k. IsDone k (row_loop font vga rounds (row + 1) (col_loop font vga 80 row 0 t)))
        (omega arith)
        (row_loop-IsDone rounds (row + 1) (n + 80) (col_loop font vga 80 row 0 t) (omega arith)
          (omega arith) (col_loop-IsDone 80 row 0 n t (omega arith) (omega arith) (omega arith) h))

  pub text-render : (t : Tty V) → text (tty_render_screen font vga t) ≡ text t
  unfolding tty_render_screen
  text-render t = text-redraw font vga _ ∙ text-row_loop 30 0 t

  -- Whatever the framebuffer was, the screen is rendered.
  pub render-IsShown :
      (t : Tty V)
      → t.cursor_row < 30
      → t.cursor_col < 80
      → IsShown font (tty_render_screen font vga t)
  unfolding tty_render_screen
  render-IsShown t r c =
      let same = text-row_loop 30 0 t in
      let all =
        row_loop-IsDone 30 0 0 t (omega arith) refl (record { done = λ Y X y x lt. elim lt [ ] }) in
      redraw-IsShown font vga
        (record (row_loop font vga 30 0 t) {
          overlay_row = cursor_invalid;
          overlay_col = cursor_invalid;
        })
        (subst (λ (s : Text). s.cursor_row < 30) (sym same) r)
        (subst (λ (s : Text). s.cursor_col < 80) (sym same) c)
        (record { drawn = λ Y X y x _. all.done Y X y x (omega arith) })

  pub scroll-IsDrawn :
      (t : Tty V)
      → t.cursor_col < 80
      → IsDrawn font t
      → IsDrawn font (tty_scroll font vga t)
        × ((tty_scroll font vga t).cursor_row < 30)
        × ((tty_scroll font vga t).cursor_col < 80)
  unfolding tty_scroll
  scroll-IsDrawn t c h = elim (Bool-cases (ltb t.cursor_row 30)) [
    | inl e ↦ rw e (h, ground arith, c)
    | inr e ↦ rw e (
        let shown = render-IsShown _ (omega arith) c in
        (IsShown-IsDrawn font vga _ shown, shown.row_in, shown.col_in))
  ]

  pub text-put_cell :
      (row col : ℕ) (cell : Cell) (t : Tty V)
      → text (put_cell font vga row col cell t)
        ≡ record (text t) { cells = update t.cells (tty_cell_index row col) cell }
  unfolding put_cell
  text-put_cell row col cell t = text-draw_glyph font vga row col _

  pub overlay-put_cell :
      (row col : ℕ) (cell : Cell) (t : Tty V)
      → ((put_cell font vga row col cell t).overlay_row ≡ t.overlay_row)
        × ((put_cell font vga row col cell t).overlay_col ≡ t.overlay_col)
  unfolding put_cell
  overlay-put_cell row col cell t = overlay-draw_glyph font vga row col _

  -- A pixel after a cell was written.
  pub put_cell-at :
      (row col : ℕ) (cell : Cell) (t : Tty V) (Y X : ℕ)
      → row < 30
      → col < 80
      → X < 640
      → pixel (put_cell font vga row col cell t) Y X ≡ (
          if in_cell row col Y X
          then glyph_at font (put_cell font vga row col cell t).cells Y X
          else pixel t Y X)
  unfolding put_cell
  put_cell-at row col cell t Y X r c x =
      let written : Tty V = record t { cells = update t.cells (tty_cell_index row col) cell } in
      draw_glyph-at font vga row col written Y X r c x
      ∙ ap (λ (s : Text). if in_cell row col Y X then glyph_at font s.cells Y X else pixel t Y X)
          (sym (text-draw_glyph font vga row col written))

  -- The other cells stay.
  pub put_cell-out :
      (row col : ℕ) (cell : Cell) (t : Tty V) (Y X : ℕ)
      → col < 80
      → X < 640
      → in_cell row col Y X ≡ false
      → (put_cell font vga row col cell t).cells (Y / 16 * 80 + X / 8)
        ≡ t.cells (Y / 16 * 80 + X / 8)
  unfolding tty_cell_index
  put_cell-out row col cell t Y X c x out =
      let other : (Y / 16 * 80 + X / 8 == row * 80 + col) ≡ false = ground arith in
      ap (λ (s : Text). s.cells (Y / 16 * 80 + X / 8)) (text-put_cell row col cell t)
      ∙ rw other refl

  pub put_cell-IsDrawn :
      (row col : ℕ) (cell : Cell) (t : Tty V)
      → row < 30
      → col < 80
      → IsDrawn font t
      → IsDrawn font (put_cell font vga row col cell t)
  put_cell-IsDrawn row col cell t r c h = record {
    drawn = λ Y X y x out.
        put_cell-at row col cell t Y X r c x ∙ elim (Bool-cases (in_cell row col Y X)) [
          | inl here ↦ rw here refl
          | inr there ↦
              let over = overlay-put_cell row col cell t in
              let out' : in_cell t.overlay_row t.overlay_col Y X ≡ false =
                ap₂ (λ a b. in_cell a b Y X) (sym over.0) (sym over.1) ∙ out in
              rw there (
                h.drawn Y X y x out'
                ∙ ap (λ k. glyph_pixel font k (Y % 16) (X % 8))
                    (sym (put_cell-out row col cell t Y X c x there)))
        ];
  }
