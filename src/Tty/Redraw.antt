-- ===== src/Tty/Redraw.antt =====
-- The cursor of src/kernel/drivers/video/tty.c: the cell where it was is drawn again, and it is put on top
-- of the cell where it is.
use lux_kernel.Base.{
  ℕ, ◌+◌, ◌*◌, ◌/◌, ◌%◌, ◌<◌, ◌≡◌, refl, sym, subst, ◌∙◌, ap, ap₂, true, false, ◌&&◌, ◌||◌, ltb,
  leb, if◌then◌else◌, arith, Bool-cases, inl, inr,
}
use lux_kernel.Tty.Draw.{Vga, cursor_color_of}
use lux_kernel.Tty.{
  Tty, tty_draw_glyph, tty_draw_cursor_block, in_screen, wipe_overlay, place_cursor,
  tty_redraw_cursor,
}
use lux_kernel.Tty.Render.{
  Text, text, in_cell, pixel, glyph_at, screen_pixel, IsDrawn, IsShown, draw_glyph-at,
  draw_cursor_block-at, text-draw_glyph,
}

module _ {V : Type 0} (font : ℕ → ℕ → ℕ) (vga : Vga V) where
  pub overlay-draw_glyph :
      (row col : ℕ) (t : Tty V)
      → ((tty_draw_glyph font vga row col t).overlay_row ≡ t.overlay_row)
        × ((tty_draw_glyph font vga row col t).overlay_col ≡ t.overlay_col)
  unfolding tty_draw_glyph
  overlay-draw_glyph row col t = elim (Bool-cases (leb 30 row || leb 80 col)) [
    | inl e ↦ rw e (refl, refl)
    | inr e ↦ rw e (refl, refl)
  ]

  cursor_block-text :
      (row col : ℕ) (t : Tty V)
      → (text (tty_draw_cursor_block font vga row col t) ≡ text t)
        × ((tty_draw_cursor_block font vga row col t).overlay_row ≡ t.overlay_row)
        × ((tty_draw_cursor_block font vga row col t).overlay_col ≡ t.overlay_col)
  unfolding tty_draw_cursor_block
  cursor_block-text row col t = elim (Bool-cases (leb 30 row || leb 80 col)) [
    | inl e ↦ rw e (refl, refl, refl)
    | inr e ↦ rw e (refl, refl, refl)
  ]

  text-wipe : (t : Tty V) → text (wipe_overlay font vga t) ≡ text t
  unfolding wipe_overlay
  text-wipe t = elim (Bool-cases (in_screen t.overlay_row t.overlay_col)) [
    | inl e ↦ rw e (text-draw_glyph font vga t.overlay_row t.overlay_col t)
    | inr e ↦ rw e refl
  ]

  text-place : (t : Tty V) → text (place_cursor font vga t) ≡ text t
  unfolding place_cursor
  text-place t =
      let moved : Tty V = record t { overlay_row = t.cursor_row; overlay_col = t.cursor_col } in
      elim (Bool-cases (in_screen t.cursor_row t.cursor_col)) [
        | inl e ↦ rw e (
            (cursor_block-text t.cursor_row t.cursor_col
              (tty_draw_glyph font vga t.cursor_row t.cursor_col moved)).0
            ∙ text-draw_glyph font vga t.cursor_row t.cursor_col moved)
        | inr e ↦ rw e refl
      ]

  pub text-redraw : (t : Tty V) → text (tty_redraw_cursor font vga t) ≡ text t
  unfolding tty_redraw_cursor
  text-redraw t = text-place (wipe_overlay font vga t) ∙ text-wipe t

  wiped-at :
      (t : Tty V) (Y X : ℕ)
      → IsDrawn font t
      → Y < 480
      → X < 640
      → pixel (wipe_overlay font vga t) Y X ≡ glyph_at font t.cells Y X
  unfolding wipe_overlay in_screen
  wiped-at t Y X h y x = elim (Bool-cases (ltb t.overlay_row 30 && ltb t.overlay_col 80)) [
    | inl e ↦ rw e (
        draw_glyph-at font vga t.overlay_row t.overlay_col t Y X (ground arith) (ground arith) x
        ∙ elim (Bool-cases (in_cell t.overlay_row t.overlay_col Y X)) [
          | inl here ↦ rw here refl
          | inr there ↦ rw there (h.drawn Y X y x there)
        ])
    | inr e ↦ rw e (h.drawn Y X y x (ground arith))
  ]

  either :
      (t : Tty V)
      → ((Y X : ℕ) → Y < 480 → X < 640 → pixel t Y X ≡ glyph_at font t.cells Y X)
      → (Y X : ℕ) → Y < 480
      → X < 640
      → (if in_cell t.cursor_row t.cursor_col Y X then glyph_at font t.cells Y X else pixel t Y X)
        ≡ glyph_at font t.cells Y X
  either t h Y X y x = elim (Bool-cases (in_cell t.cursor_row t.cursor_col Y X)) [
    | inl here ↦ rw here refl
    | inr there ↦ rw there (h Y X y x)
  ]

  -- From glyphs that are drawn everywhere, the cursor is put on the screen.
  place-IsShown :
      (t : Tty V)
      → t.cursor_row < 30
      → t.cursor_col < 80
      → ((Y X : ℕ) → Y < 480 → X < 640 → pixel t Y X ≡ glyph_at font t.cells Y X)
      → IsShown font (place_cursor font vga t)
  unfolding place_cursor in_screen
  place-IsShown t r c h =
      let moved : Tty V = record t { overlay_row = t.cursor_row; overlay_col = t.cursor_col } in
      let glyph = tty_draw_glyph font vga t.cursor_row t.cursor_col moved in
      let inside : (ltb t.cursor_row 30 && ltb t.cursor_col 80) ≡ true = ground arith in
      let kept = text-draw_glyph font vga t.cursor_row t.cursor_col moved in
      let last = cursor_block-text t.cursor_row t.cursor_col glyph in
      let same = last.0 ∙ kept in
      let over = overlay-draw_glyph t.cursor_row t.cursor_col moved in
      rw inside (record {
        row_in = subst (λ (s : Text). s.cursor_row < 30) (sym same) r;
        col_in = subst (λ (s : Text). s.cursor_col < 80) (sym same) c;
        overlay_row_at = last.1 ∙ over.0 ∙ ap (λ (s : Text). s.cursor_row) (sym same);
        overlay_col_at = last.2 ∙ over.1 ∙ ap (λ (s : Text). s.cursor_col) (sym same);
        shown = λ Y X y x.
            draw_cursor_block-at font vga t.cursor_row t.cursor_col glyph Y X r c x
            ∙ ap₂
                (λ color p.
                  if in_cell t.cursor_row t.cursor_col Y X && leb 14 (Y % 16) then color else p)
                (ap (λ (s : Text). cursor_color_of (s.cells (Y / 16 * 80 + X / 8))) kept)
                (draw_glyph-at font vga t.cursor_row t.cursor_col moved Y X r c x
                  ∙ either t h Y X y x)
            ∙ ap (λ s. screen_pixel font s Y X) (sym same);
      })

  pub redraw-IsShown :
      (t : Tty V)
      → t.cursor_row < 30
      → t.cursor_col < 80
      → IsDrawn font t
      → IsShown font (tty_redraw_cursor font vga t)
  unfolding tty_redraw_cursor
  redraw-IsShown t r c h =
      let same = text-wipe t in
      place-IsShown (wipe_overlay font vga t) (subst (λ (s : Text). s.cursor_row < 30) (sym same) r)
        (subst (λ (s : Text). s.cursor_col < 80) (sym same) c)
        (λ Y X y x. wiped-at t Y X h y x ∙ ap (λ (s : Text). glyph_at font s.cells Y X) (sym same))

  pub IsShown-IsDrawn : (t : Tty V) → IsShown font t → IsDrawn font t
  IsShown-IsDrawn t h = record {
    drawn = λ Y X y x out.
        let off : (in_cell t.cursor_row t.cursor_col Y X && leb 14 (Y % 16)) ≡ false =
          ground arith in
        h.shown Y X y x ∙ (rw off refl);
  }
