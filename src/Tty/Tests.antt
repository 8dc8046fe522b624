-- ===== src/Tty/Tests.antt =====
-- Runs of src/kernel/drivers/video/tty.c, and the theorems at them.
use lux_kernel.Base.{ℕ, ◌+◌, ◌*◌, ◌≡◌, refl, List, [], ◌∷◌, arith}
use lux_kernel.Tty.Draw.{
  Vga, plane_byte, glyph_lines, fill_loop, glyph_loop, lit, bit_reverse, glyph_row_bits,
  tty_cell_index,
}
use lux_kernel.Tty.{
  Tty, blank, tty_init, tty_putc, tty_write, tty_set_cursor_position, tty_draw_glyph,
}
use lux_kernel.Tty.Render.{IsShown, text}
use lux_kernel.Tty.Reached
use lux_kernel.Tty.Reached.{Reached, Step, first, next, putc, set_cursor}
use lux_kernel.Tty.Tape.{Tape, Shows, type_text, type_char, reveal}
use lux_kernel.Tty.Typing
use lux_kernel.Tty.Planes
use lux_kernel.Tty.Planes.{spread}

-- A card that notes the last byte that was written to its memory.
abbrev card : Vga ℕ
card = record { outb = λ port b v. v; poke = λ i b v. b }

-- Each line of a glyph is the character itself.
abbrev font : ℕ → ℕ → ℕ
font ch y = ch

abbrev empty : Tty ℕ
empty = record {
  cursor_row = 29;
  cursor_col = 78;
  current_color = 0x1F;
  cells = λ i. blank 0x1F;
  overlay_row = 29;
  overlay_col = 78;
  framebuffer = λ i. 0;
  video = 0;
}

-- "AB" at the end of the last row, which scrolls, and "C".
abbrev abc : List ℕ
abc = 65 ∷ 66 ∷ 67 ∷ []

abbrev tape : Tape
tape = record { cell = λ i. blank 0x1F; top = 0; place = 29 * 80 + 78; color = 0x1F }

typed_top : (type_text abc tape).top ≡ 1
unfolding type_text type_char reveal
typed_top = refl

typed_last : (type_text abc tape).cell 2400 ≡ record { character = 67; color = 0x1F }
unfolding type_text type_char reveal
typed_last = refl

-- The glyph of "A" in white on blue, in line 3: all pixels have the blue bit.
blue_plane : plane_byte 8 0 0 (3 * 640) (tty_draw_glyph font card 0 0 empty).framebuffer 0 ≡ 255
unfolding plane_byte tty_draw_glyph glyph_lines fill_loop glyph_loop lit bit_reverse glyph_row_bits
    tty_cell_index
blue_plane = refl

Reached-IsShown_example : IsShown font (
    tty_putc font card 65 (tty_set_cursor_position font card 29 79 (tty_init font card 0x1F empty)))
Reached-IsShown_example =
    Reached.Reached-IsShown font card
      (tty_putc font card 65
        (tty_set_cursor_position font card 29 79 (tty_init font card 0x1F empty)))
      (next _ _ (next _ _ (first empty 0x1F) (set_cursor (tty_init font card 0x1F empty) 29 79))
        (putc (tty_set_cursor_position font card 29 79 (tty_init font card 0x1F empty)) 65))

empty-Shows : Shows tape (text empty)
empty-Shows = record {
  same_cells = λ i lt. refl;
  same_place = refl;
  same_color = refl;
  col_in = omega arith;
  row_in = omega arith;
}

write-Shows_example : Shows (type_text abc tape) (text (tty_write font card abc empty))
write-Shows_example = Typing.write-Shows font card abc tape empty empty-Shows

plane_byte-draw_glyph_example :
    plane_byte 8 0 1 (3 * 640 + 2 * 8) (tty_draw_glyph font card 0 2 empty).framebuffer 0 ≡ 32
unfolding spread
plane_byte-draw_glyph_example =
    Planes.plane_byte-draw_glyph font card 0 2 1 3 empty (omega arith) (omega arith) refl
      (omega arith) (omega arith)
