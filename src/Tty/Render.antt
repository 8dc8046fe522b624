-- ===== src/Tty/Render.antt =====
-- The screen that src/kernel/drivers/video/tty.c shows: what each drawing function makes of the framebuffer.
use lux_kernel.Base.{
  ℕ, ◌+◌, ◌-◌, ◌*◌, ◌/◌, ◌%◌, ◌<◌, ◌≡◌, refl, ◌∙◌, Bool, true, false, ◌&&◌, ◌||◌, leb, ◌==◌,
  if◌then◌else◌, arith, Bool-cases, inl, inr,
}
use lux_kernel.Tty.Draw.{Vga, Cell, tty_cell_index, cursor_color_of}
use lux_kernel.Tty.Pixels.{within, glyph_pixel, glyph_lines-at, cursor_lines-at}
use lux_kernel.Tty.{Tty, tty_draw_glyph, tty_draw_cursor_block}

-- Is the pixel of line `Y` and column `X` in the cell?
abbrev pub in_cell : ℕ → ℕ → ℕ → ℕ → Bool
in_cell row col Y X = Y / 16 == row && X / 8 == col

-- What is not pixels.
pub record Text : Type 0 where
  pub cursor_row : ℕ
  pub cursor_col : ℕ
  pub current_color : ℕ
  pub cells : ℕ → Cell

module _ {V : Type 0} where
  abbrev pub text : Tty V → Text
  text t = record {
    cursor_row = t.cursor_row;
    cursor_col = t.cursor_col;
    current_color = t.current_color;
    cells = t.cells;
  }

  abbrev pub cell_at : Tty V → ℕ → ℕ → Cell
  cell_at t Y X = t.cells (Y / 16 * 80 + X / 8)

  abbrev pub pixel : Tty V → ℕ → ℕ → ℕ
  pixel t Y X = t.framebuffer (Y * 640 + X)

module _ (font : ℕ → ℕ → ℕ) where
  abbrev pub glyph_at : (ℕ → Cell) → ℕ → ℕ → ℕ
  glyph_at cells Y X = glyph_pixel font (cells (Y / 16 * 80 + X / 8)) (Y % 16) (X % 8)

  -- A pixel of the screen as the text and the cursor ask for it: the last two lines of the cell
  -- under the cursor have the cursor's color, every other pixel is one of its cell's glyph.
  abbrev pub screen_pixel : Text → ℕ → ℕ → ℕ
  screen_pixel s Y X =
      if in_cell s.cursor_row s.cursor_col Y X && leb 14 (Y % 16)
      then cursor_color_of (s.cells (Y / 16 * 80 + X / 8))
      else glyph_at s.cells Y X

module _ {V : Type 0} (font : ℕ → ℕ → ℕ) where
  -- The glyphs are drawn, but for the cell of the overlay.
  pub record IsDrawn (t : Tty V) : Type 0 where
    pub drawn :
        (Y X : ℕ)
        → Y < 480
        → X < 640
        → in_cell t.overlay_row t.overlay_col Y X ≡ false
        → pixel t Y X ≡ glyph_at font t.cells Y X

  pub record IsShown (t : Tty V) : Type 0 where
    pub row_in : t.cursor_row < 30
    pub col_in : t.cursor_col < 80
    pub overlay_row_at : t.overlay_row ≡ t.cursor_row
    pub overlay_col_at : t.overlay_col ≡ t.cursor_col
    pub shown : (Y X : ℕ) → Y < 480 → X < 640 → pixel t Y X ≡ screen_pixel font (text t) Y X

module _ {V : Type 0} (font : ℕ → ℕ → ℕ) (vga : Vga V) where
  pub draw_glyph-at :
      (row col : ℕ) (t : Tty V) (Y X : ℕ)
      → row < 30
      → col < 80
      → X < 640
      → pixel (tty_draw_glyph font vga row col t) Y X
        ≡ (if in_cell row col Y X then glyph_at font t.cells Y X else pixel t Y X)
  unfolding tty_draw_glyph tty_cell_index
  draw_glyph-at row col t Y X r c lt =
      let out : (leb 30 row || leb 80 col) ≡ false = ground arith in
      rw out (
        glyph_lines-at font 16 0 (col * 8) (row * 16) (t.cells (row * 80 + col)) t.framebuffer Y X
          (omega arith) (omega arith) lt
        ∙ elim (Bool-cases (in_cell row col Y X)) [
          | inl e ↦
              let inside : (within (row * 16 + 0) 16 Y && within (col * 8) 8 X) ≡ true =
                ground arith in
              let y : Y - row * 16 ≡ Y % 16 = ground arith in
              let x : X - col * 8 ≡ X % 8 = ground arith in
              let cell : row * 80 + col ≡ Y / 16 * 80 + X / 8 = ground arith in
              rw (e, inside, y, x, cell) refl
          | inr e ↦
              let outside : (within (row * 16 + 0) 16 Y && within (col * 8) 8 X) ≡ false =
                ground arith in
              rw (e, outside) refl
        ])

  pub draw_cursor_block-at :
      (row col : ℕ) (t : Tty V) (Y X : ℕ)
      → row < 30
      → col < 80
      → X < 640
      → pixel (tty_draw_cursor_block font vga row col t) Y X ≡ (
          if in_cell row col Y X && leb 14 (Y % 16)
          then cursor_color_of (cell_at t Y X)
          else pixel t Y X)
  unfolding tty_draw_cursor_block tty_cell_index
  draw_cursor_block-at row col t Y X r c lt =
      let out : (leb 30 row || leb 80 col) ≡ false = ground arith in
      let color = cursor_color_of (t.cells (row * 80 + col)) in
      rw out (
        cursor_lines-at 2 0 (col * 8) (row * 16 + 16 - 2) color t.framebuffer Y X (omega arith)
          (omega arith) lt
        ∙ elim (Bool-cases (in_cell row col Y X && leb 14 (Y % 16))) [
          | inl e ↦
              let inside : (within (row * 16 + 16 - 2 + 0) 2 Y && within (col * 8) 8 X) ≡ true =
                ground arith in
              let cell : row * 80 + col ≡ Y / 16 * 80 + X / 8 = ground arith in
              rw (e, inside, cell) refl
          | inr e ↦
              let outside : (within (row * 16 + 16 - 2 + 0) 2 Y && within (col * 8) 8 X) ≡ false =
                ground arith in
              rw (e, outside) refl
        ])

  pub text-draw_glyph :
      (row col : ℕ) (t : Tty V) → text (tty_draw_glyph font vga row col t) ≡ text t
  unfolding tty_draw_glyph
  text-draw_glyph row col t = elim (Bool-cases (leb 30 row || leb 80 col)) [
    | inl e ↦ rw e refl
    | inr e ↦ rw e refl
  ]
