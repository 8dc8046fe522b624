-- ===== src/Tty/Pixels.antt =====
-- What the drawing loops of src/kernel/drivers/video/tty.c leave in the framebuffer.
use lux_kernel.Base.{
  ℕ, zero, suc, ◌+◌, ◌-◌, ◌*◌, ◌≤◌, ◌<◌, ◌≡◌, refl, ◌∙◌, ap, Bool, true, false, ◌&&◌, ltb, leb,
  ◌==◌, if◌then◌else◌, arith, Bool-cases, inl, inr, lt→ltb,
}
use lux_kernel.Tty.Draw.{
  Cell, update, lit, fill_loop, glyph_loop, glyph_row_bits, glyph_of, fg_of, bg_of, glyph_lines,
  cursor_lines,
}

-- Is `n` one of the `count` numbers from `first` on?
abbrev pub within : ℕ → ℕ → ℕ → Bool
within first count n = leb first n && ltb n (first + count)

fill_loop-at :
    (rounds x base_x off color : ℕ) (fb : ℕ → ℕ) (j : ℕ)
    → base_x + x + rounds ≤ 640
    → fill_loop rounds x base_x off color fb j ≡ (if within (off + x) rounds j then color else fb j)
unfolding fill_loop
fill_loop-at zero x base_x off color fb j le = ground arith
fill_loop-at (suc rounds) x base_x off color fb j le = rw (lt→ltb (base_x + x) 640 (omega arith)) (
    fill_loop-at rounds (x + 1) base_x off color (update fb (off + x) color) j (omega arith)
    ∙ ground arith)

glyph_loop-at :
    (rounds x base_x off bits fg : ℕ) (fb : ℕ → ℕ) (j : ℕ)
    → base_x + x + rounds ≤ 640
    → glyph_loop rounds x base_x off bits fg fb j
      ≡ (if within (off + x) rounds j && lit bits (j - off) then fg else fb j)
unfolding glyph_loop
glyph_loop-at zero x base_x off bits fg fb j le = ground arith
glyph_loop-at (suc rounds) x base_x off bits fg fb j le =
    rw (lt→ltb (base_x + x) 640 (omega arith)) (
      glyph_loop-at rounds (x + 1) base_x off bits fg
        (if lit bits x then update fb (off + x) fg else fb) j (omega arith)
      ∙ elim (Bool-cases (j == off + x)) [
        | inl here ↦
            let same : lit bits (j - off) ≡ lit bits x = ap (lit bits) (ground arith) in
            rw same (ground arith)
        | inr there ↦ elim (Bool-cases (lit bits x)) [
          | inl on ↦ rw (on, there) (ground arith)
          | inr unlit ↦ rw unlit (ground arith)
        ]
      ])

module _ (font : ℕ → ℕ → ℕ) where
  -- The color of a pixel of a cell.
  unfoldable pub glyph_pixel : Cell → ℕ → ℕ → ℕ
  glyph_pixel cell y x =
      if lit (glyph_row_bits font (glyph_of cell) y) x then fg_of cell else bg_of cell

  -- One line of a cell.
  line-at :
      (y base_x row : ℕ) (cell : Cell) (fb : ℕ → ℕ) (Y X : ℕ)
      → base_x + 8 ≤ 640
      → X < 640
      → glyph_loop 8 0 base_x
          (row * 640 + base_x)
          (glyph_row_bits font (glyph_of cell) y)
          (fg_of cell)
          (fill_loop 8 0 base_x (row * 640 + base_x) (bg_of cell) fb)
          (Y * 640 + X)
        ≡ (if Y == row && within base_x 8 X
            then glyph_pixel cell y (X - base_x)
            else fb (Y * 640 + X))
  unfolding glyph_pixel
  line-at y base_x row cell fb Y X bx lt =
      let off = row * 640 + base_x in
      let bits = glyph_row_bits font (glyph_of cell) y in
      let j = Y * 640 + X in
      glyph_loop-at 8 0 base_x off bits (fg_of cell) (fill_loop 8 0 base_x off (bg_of cell) fb) j
        (omega arith)
      ∙ rw (fill_loop-at 8 0 base_x off (bg_of cell) fb j (omega arith))
          (elim (Bool-cases (Y == row && within base_x 8 X)) [
            | inl e ↦
                let inside : within (off + 0) 8 j ≡ true = ground arith in
                let at : j - off ≡ X - base_x = ground arith in rw (e, inside, at) refl
            | inr e ↦
                let outside : within (off + 0) 8 j ≡ false = ground arith in rw (e, outside) refl
          ])

  pub glyph_lines-at :
      (rounds y base_x base_y : ℕ) (cell : Cell) (fb : ℕ → ℕ) (Y X : ℕ)
      → base_x + 8 ≤ 640
      → base_y + y + rounds ≤ 480
      → X < 640
      → glyph_lines font rounds y base_x base_y cell fb (Y * 640 + X) ≡ (
          if within (base_y + y) rounds Y && within base_x 8 X
          then glyph_pixel cell (Y - base_y) (X - base_x)
          else fb (Y * 640 + X))
  unfolding glyph_lines
  glyph_lines-at zero y base_x base_y cell fb Y X bx by lt = ground arith
  glyph_lines-at (suc rounds) y base_x base_y cell fb Y X bx by lt =
      let off = (base_y + y) * 640 + base_x in
      let filled = fill_loop 8 0 base_x off (bg_of cell) fb in
      let bits = glyph_row_bits font (glyph_of cell) y in
      let drawn = glyph_loop 8 0 base_x off bits (fg_of cell) filled in
      rw (lt→ltb (base_y + y) 480 (omega arith)) (
        glyph_lines-at rounds (y + 1) base_x base_y cell drawn Y X bx (omega arith) lt
        ∙ ap
            (λ p.
              if within (base_y + (y + 1)) rounds Y && within base_x 8 X
              then glyph_pixel cell (Y - base_y) (X - base_x)
              else p)
            (line-at y base_x (base_y + y) cell fb Y X bx lt)
        ∙ elim (Bool-cases (Y == base_y + y)) [
          | inl e ↦ let at : Y - base_y ≡ y = ground arith in rw (e, at) (ground arith)
          | inr e ↦ rw e (ground arith)
        ])

-- A line filled with one color, at the pixels of the screen.
fill_line-at :
    (base_x row color : ℕ) (fb : ℕ → ℕ) (Y X : ℕ)
    → base_x + 8 ≤ 640
    → X < 640
    → fill_loop 8 0 base_x (row * 640 + base_x) color fb (Y * 640 + X)
      ≡ (if Y == row && within base_x 8 X then color else fb (Y * 640 + X))
fill_line-at base_x row color fb Y X bx lt =
    fill_loop-at 8 0 base_x (row * 640 + base_x) color fb (Y * 640 + X) (omega arith) ∙ ground arith

pub cursor_lines-at :
    (rounds y base_x start_y color : ℕ) (fb : ℕ → ℕ) (Y X : ℕ)
    → base_x + 8 ≤ 640
    → start_y + y + rounds ≤ 480
    → X < 640
    → cursor_lines rounds y base_x start_y color fb (Y * 640 + X)
      ≡ (if within (start_y + y) rounds Y && within base_x 8 X then color else fb (Y * 640 + X))
unfolding cursor_lines
cursor_lines-at zero y base_x start_y color fb Y X bx by lt = ground arith
cursor_lines-at (suc rounds) y base_x start_y color fb Y X bx by lt =
    let filled = fill_loop 8 0 base_x ((start_y + y) * 640 + base_x) color fb in
    rw (lt→ltb (start_y + y) 480 (omega arith)) (
      cursor_lines-at rounds (y + 1) base_x start_y color filled Y X bx (omega arith) lt
      ∙ ap (λ p. if within (start_y + (y + 1)) rounds Y && within base_x 8 X then color else p)
          (fill_line-at base_x (start_y + y) color fb Y X bx lt)
      ∙ ground arith)
