-- ===== src/Tty/Planes.antt =====
-- What `vga_flush_cell` of src/kernel/drivers/video/tty.c sends to the card for a cell that was drawn: the
-- glyph's own bytes, although the drawing reverses their bits and the copying reverses them again.
use lux_kernel.Base.{
  ℕ, zero, suc, ◌+◌, ◌-◌, ◌*◌, ◌/◌, ◌%◌, ◌^◌, ◌<◌, ◌≡◌, refl, ◌∙◌, ap, bit_and, bit_or, bit_and-one,
  Bool, true, false, leb, ◌==◌, if◌then◌else◌, arith, Bool-cases, inl, inr, tested, tested-at,
  ==_iff,
}
use lux_kernel.Tty.Draw.{
  Vga, Cell, lit, bit_reverse, glyph_row_bits, glyph_of, fg_of, bg_of, plane_byte,
}
use lux_kernel.Tty.Pixels.{glyph_pixel}
use lux_kernel.Tty.{Tty, tty_draw_glyph}
use lux_kernel.Tty.Render.{in_cell, draw_glyph-at}

-- The bit of a color in a plane.
abbrev pub color_bit : ℕ → ℕ → ℕ
color_bit plane color = bit_and (color / 2 ^ plane) 1

-- The byte of a plane, from the glyph's byte and from the bits of its two colors.
unfoldable pub spread : ℕ → ℕ → ℕ → ℕ
spread fg bg byte =
    if fg == 0 then (if bg == 0 then 0 else 255 - byte) else if bg == 0 then byte else 255

gather : ℕ → ℕ → (ℕ → ℕ) → ℕ → ℕ
gather zero bit g acc = acc
gather (suc rounds) bit g acc = gather rounds (bit + 1) g (bit_or acc (g bit * 2 ^ bit % 256))

plane_byte-gather :
    (rounds bit plane off : ℕ) (fb : ℕ → ℕ) (acc : ℕ) (g : ℕ → ℕ)
    → ((i : ℕ) → i < bit + rounds → color_bit plane (bit_and (fb (off + i)) 0x0F) ≡ g i)
    → plane_byte rounds bit plane off fb acc ≡ gather rounds bit g acc
unfolding plane_byte gather
plane_byte-gather zero bit plane off fb acc g h = refl
plane_byte-gather (suc rounds) bit plane off fb acc g h =
    rw (h bit (omega arith))
      (plane_byte-gather rounds (bit + 1) plane off fb _ g (λ i lt. h i (omega arith)))

table : ℕ → ℕ → ℕ → Bool
table fg bg byte =
    gather 8 0 (λ i. if lit (bit_reverse byte) i then fg else bg) 0 == spread fg bg byte

tables :
    (tested (table 0 0) 256 ≡ true)
    × (tested (table 0 1) 256 ≡ true)
    × (tested (table 1 0) 256 ≡ true)
    × (tested (table 1 1) 256 ≡ true)
unfolding tested table gather lit bit_reverse spread
tables = (refl, refl, refl, refl)

gather-spread :
    (fg bg byte : ℕ)
    → fg < 2
    → bg < 2
    → byte < 256
    → gather 8 0 (λ i. if lit (bit_reverse byte) i then fg else bg) 0 ≡ spread fg bg byte
unfolding table
gather-spread zero zero byte f b lt = (==_iff _ _).0 (tested-at (table 0 0) 256 byte lt tables.0)
gather-spread zero (suc zero) byte f b lt =
    (==_iff _ _).0 (tested-at (table 0 1) 256 byte lt tables.1)
gather-spread (suc zero) zero byte f b lt =
    (==_iff _ _).0 (tested-at (table 1 0) 256 byte lt tables.2)
gather-spread (suc zero) (suc zero) byte f b lt =
    (==_iff _ _).0 (tested-at (table 1 1) 256 byte lt tables.3)
gather-spread fg (suc (suc bg)) byte f b lt = absurd (omega arith)
gather-spread (suc (suc fg)) bg byte f b lt = absurd (omega arith)

nibbles :
    (tested (λ c. bit_and (bit_and c 0x0F) 0x0F == bit_and c 0x0F) 256 ≡ true)
    × (tested (λ c. bit_and (bit_and (c / 16) 0x0F) 0x0F == bit_and (c / 16) 0x0F) 256 ≡ true)
unfolding tested
nibbles = (refl, refl)

module _ {V : Type 0} (font : ℕ → ℕ → ℕ) (vga : Vga V) where
  color_of-pixel :
      (cell : Cell) (plane y i : ℕ)
      → cell.color < 256
      → y < 16
      → color_bit plane (bit_and (glyph_pixel font cell y i) 0x0F) ≡ (
          if lit (bit_reverse (font (glyph_of cell) y)) i
          then color_bit plane (fg_of cell)
          else color_bit plane (bg_of cell))
  unfolding glyph_pixel glyph_row_bits
  color_of-pixel cell plane y i small under =
      let inside : leb 16 y ≡ false = ground (arith, under) in
      let front = (==_iff _ _).0 (tested-at _ 256 cell.color small nibbles.0) in
      let back = (==_iff _ _).0 (tested-at _ 256 cell.color small nibbles.1) in
      rw inside (elim (Bool-cases (lit (bit_reverse (font (glyph_of cell) y)) i)) [
        | inl on ↦ rw on (ap (λ k. color_bit plane k) front)
        | inr unlit ↦ rw unlit (ap (λ k. color_bit plane k) back)
      ])

  -- For a cell on the screen whose color is a byte, and a font of bytes: after `tty_draw_glyph`, the byte
  -- that `vga_flush_cell` makes of one of the cell's 16 lines for a plane is the font's byte for the
  -- character and the line where the plane's bit is in the foreground only, its complement where
  -- it is in the background only, all ones where it is in both, and 0 where it is in neither.
  pub plane_byte-draw_glyph :
      (row col plane Y : ℕ) (t : Tty V)
      → row < 30
      → col < 80
      → Y / 16 ≡ row
      → (t.cells (row * 80 + col)).color < 256
      → font (glyph_of (t.cells (row * 80 + col))) (Y % 16) < 256
      → let cell = t.cells (row * 80 + col) in
        plane_byte 8 0 plane (Y * 640 + col * 8) (tty_draw_glyph font vga row col t).framebuffer 0
        ≡ spread
            (color_bit plane (fg_of cell))
            (color_bit plane (bg_of cell))
            (font (glyph_of cell) (Y % 16))
  plane_byte-draw_glyph row col plane Y t r c e small byte =
      let cell = t.cells (row * 80 + col) in
      let bits = λ (i : ℕ).
        if lit (bit_reverse (font (glyph_of cell) (Y % 16))) i
        then color_bit plane (fg_of cell)
        else color_bit plane (bg_of cell) in
      plane_byte-gather 8 0 plane (Y * 640 + col * 8)
        (tty_draw_glyph font vga row col t).framebuffer 0 bits
        (λ i lt.
          ap (λ k. color_bit plane (bit_and k 0x0F)) (pixel-drawn i lt)
          ∙ color_of-pixel cell plane (Y % 16) i small (omega arith))
      ∙ gather-spread (color_bit plane (fg_of cell)) (color_bit plane (bg_of cell))
          (font (glyph_of cell) (Y % 16)) (omega (arith, bit_and-one (fg_of cell / 2 ^ plane)))
          (omega (arith, bit_and-one (bg_of cell / 2 ^ plane))) byte
    where
      pixel-drawn :
          (i : ℕ)
          → i < 8
          → (tty_draw_glyph font vga row col t).framebuffer (Y * 640 + col * 8 + i)
            ≡ glyph_pixel font (t.cells (row * 80 + col)) (Y % 16) i
      pixel-drawn i lt =
          let X = col * 8 + i in
          let here : in_cell row col Y X ≡ true = ground arith in
          let x : X % 8 ≡ i = omega arith in
          let at : Y / 16 * 80 + X / 8 ≡ row * 80 + col = omega arith in
          ap (tty_draw_glyph font vga row col t).framebuffer {y = Y * 640 + X} (omega arith)
          ∙ draw_glyph-at font vga row col t Y X r c (omega arith)
          ∙ rw (here, at, x) refl
