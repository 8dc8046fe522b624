-- ===== src/Tty/Draw.antt =====
-- The pixels of src/kernel/drivers/video/tty.c: how a cell of text gets into the framebuffer and from there
-- into the memory of the card.
use lux_kernel.Base.{
  ℕ, zero, suc, ◌+◌, ◌-◌, ◌*◌, ◌/◌, ◌%◌, ◌^◌, bit_and, bit_or, Bool, not, List, [], ◌∷◌, ltb, leb,
  ◌==◌, if◌then◌else◌,
}
use Prim.Native.Nat.{bit_xor}

abbrev pub screen_width : ℕ
screen_width = 640

abbrev pub screen_height : ℕ
screen_height = 480

abbrev pub cell_width : ℕ
cell_width = 8

abbrev pub cell_height : ℕ
cell_height = 16

abbrev pub cursor_height : ℕ
cursor_height = 2

abbrev pub vga_bytes_per_scanline : ℕ
vga_bytes_per_scanline = screen_width / 8

abbrev pub tty_cols : ℕ
tty_cols = screen_width / cell_width

abbrev pub tty_rows : ℕ
tty_rows = screen_height / cell_height

-- `struct tty_cell`
pub record Cell : Type 0 where
  pub character : ℕ
  pub color : ℕ

-- The VGA card: a byte written to a port, and one written to its memory from 0xA0000 on.
pub record Vga (V : Type 0) : Type 0 where
  pub outb : ℕ → ℕ → V → V
  pub poke : ℕ → ℕ → V → V

abbrev pub update : {A : Type 0} → (ℕ → A) → ℕ → A → ℕ → A
update f i v j = if j == i then v else f j

unfoldable pub tty_cell_index : ℕ → ℕ → ℕ
tty_cell_index row col = row * tty_cols + col

unfoldable pub bit_reverse : ℕ → ℕ
bit_reverse value =
    let pairs = bit_or (bit_and value 0x55 * 2) (bit_and value 0xAA / 2) % 256 in
    let fours = bit_or (bit_and pairs 0x33 * 4) (bit_and pairs 0xCC / 4) % 256 in
    bit_or (fours * 16) (fours / 16) % 256

-- Does pixel `x` of a line of a glyph have the foreground?
unfoldable pub lit : ℕ → ℕ → Bool
lit bits x = not (bit_and bits (0x80 / 2 ^ x) == 0)

module _ (font : ℕ → ℕ → ℕ) where
  unfoldable pub glyph_row_bits : ℕ → ℕ → ℕ
  glyph_row_bits ch scanline =
      if leb cell_height scanline then 0 else bit_reverse (font ch scanline)

-- The three loops over the pixels of one line of a cell, with so many rounds left.
unfoldable pub fill_loop : ℕ → ℕ → ℕ → ℕ → ℕ → (ℕ → ℕ) → ℕ → ℕ
fill_loop zero x base_x fb_offset color fb = fb
fill_loop (suc rounds) x base_x fb_offset color fb =
    let rest = fill_loop rounds (x + 1) base_x fb_offset color (update fb (fb_offset + x) color) in
    if ltb (base_x + x) screen_width then rest else fb

unfoldable pub glyph_loop : ℕ → ℕ → ℕ → ℕ → ℕ → ℕ → (ℕ → ℕ) → ℕ → ℕ
glyph_loop zero x base_x fb_offset bits fg fb = fb
glyph_loop (suc rounds) x base_x fb_offset bits fg fb =
    let drawn = if lit bits x then update fb (fb_offset + x) fg else fb in
    let rest = glyph_loop rounds (x + 1) base_x fb_offset bits fg drawn in
    if ltb (base_x + x) screen_width then rest else fb

abbrev pub fg_of : Cell → ℕ
fg_of cell = bit_and cell.color 0x0F

abbrev pub bg_of : Cell → ℕ
bg_of cell = bit_and (cell.color / 16) 0x0F

abbrev pub glyph_of : Cell → ℕ
glyph_of cell = if cell.character == 0 then b' ' else cell.character

abbrev pub cursor_color_of : Cell → ℕ
cursor_color_of cell =
    bit_and (if fg_of cell == bg_of cell then bit_xor (fg_of cell) 0x0F else fg_of cell) 0x0F

module _ (font : ℕ → ℕ → ℕ) where
  -- The lines of a cell from `y` on.
  unfoldable pub glyph_lines : ℕ → ℕ → ℕ → ℕ → Cell → (ℕ → ℕ) → ℕ → ℕ
  glyph_lines zero y base_x base_y cell fb = fb
  glyph_lines (suc rounds) y base_x base_y cell fb =
      let fb_offset = (base_y + y) * screen_width + base_x in
      let filled = fill_loop cell_width 0 base_x fb_offset (bg_of cell) fb in
      let bits = glyph_row_bits font (glyph_of cell) y in
      let drawn = glyph_loop cell_width 0 base_x fb_offset bits (fg_of cell) filled in
      let rest = glyph_lines rounds (y + 1) base_x base_y cell drawn in
      if ltb (base_y + y) screen_height then rest else fb

unfoldable pub cursor_lines : ℕ → ℕ → ℕ → ℕ → ℕ → (ℕ → ℕ) → ℕ → ℕ
cursor_lines zero y base_x start_y color fb = fb
cursor_lines (suc rounds) y base_x start_y color fb =
    let fb_offset = (start_y + y) * screen_width + base_x in
    let filled = fill_loop cell_width 0 base_x fb_offset color fb in
    let rest = cursor_lines rounds (y + 1) base_x start_y color filled in
    if ltb (start_y + y) screen_height then rest else fb

-- `plane_bytes[plane]`: bit `bit` is bit `plane` of the color of the pixel.
unfoldable pub plane_byte : ℕ → ℕ → ℕ → ℕ → (ℕ → ℕ) → ℕ → ℕ
plane_byte zero bit plane fb_offset fb acc = acc
plane_byte (suc rounds) bit plane fb_offset fb acc =
    let color = bit_and (fb (fb_offset + bit)) 0x0F in
    plane_byte rounds (bit + 1) plane fb_offset fb
      (bit_or acc (bit_and (color / 2 ^ plane) 1 * 2 ^ bit % 256))

abbrev palette : List ℕ
palette =
    0 ∷ 0 ∷ 0 ∷ 0 ∷ 0 ∷ 42 ∷ 0 ∷ 42 ∷ 0 ∷ 0 ∷ 42 ∷ 42 ∷ 42 ∷ 0 ∷ 0 ∷ 42 ∷ 0 ∷ 42 ∷ 42 ∷ 21 ∷ 0 ∷ 42
    ∷ 42 ∷ 42 ∷ 21 ∷ 21 ∷ 21 ∷ 21 ∷ 21 ∷ 63 ∷ 21 ∷ 63 ∷ 21 ∷ 21 ∷ 63 ∷ 63 ∷ 63 ∷ 21 ∷ 21 ∷ 63 ∷ 21
    ∷ 63 ∷ 63 ∷ 63 ∷ 21 ∷ 63 ∷ 63 ∷ 63 ∷ []

abbrev vga_memory_size : ℕ
vga_memory_size = 0x10000

module _ {V : Type 0} (vga : Vga V) where
  unfoldable pub vga_set_map_mask : ℕ → V → V
  vga_set_map_mask mask v = vga.outb 0x3C5 mask (vga.outb 0x3C4 0x02 v)

  unfoldable pub plane_loop : ℕ → ℕ → ℕ → ℕ → (ℕ → ℕ) → V → V
  plane_loop zero plane vga_byte fb_offset fb v = v
  plane_loop (suc rounds) plane vga_byte fb_offset fb v =
      plane_loop rounds (plane + 1) vga_byte fb_offset fb (
        vga.poke vga_byte (plane_byte cell_width 0 plane fb_offset fb 0)
          (vga_set_map_mask (2 ^ plane % 256) v))

  -- The rows of pixels from `row` on.
  unfoldable pub flush_loop : ℕ → ℕ → ℕ → ℕ → (ℕ → ℕ) → V → V
  flush_loop zero row base_x byte_col fb v = v
  flush_loop (suc rounds) row base_x byte_col fb v =
      flush_loop rounds (row + 1) base_x byte_col fb (
        plane_loop 4 0 (row * vga_bytes_per_scanline + byte_col) (row * screen_width + base_x) fb v)

  unfoldable pub vga_flush_cell : ℕ → ℕ → (ℕ → ℕ) → V → V
  vga_flush_cell base_x base_y fb v =
      let max_row =
        if ltb screen_height (base_y + cell_height) then screen_height else base_y + cell_height in
      vga_set_map_mask 0x0F (flush_loop (max_row - base_y) base_y base_x (base_x / 8) fb v)

  unfoldable pub out_all : ℕ → List ℕ → V → V
  out_all port [] v = v
  out_all port (b ∷ bs) v = out_all port bs (vga.outb port b v)

  unfoldable pub vga_program_palette : V → V
  vga_program_palette v = out_all 0x3C9 palette (vga.outb 0x3C8 0x00 v)

  unfoldable pub clear_loop : ℕ → ℕ → V → V
  clear_loop zero i v = v
  clear_loop (suc rounds) i v = clear_loop rounds (i + 1) (vga.poke i 0 v)

  unfoldable pub vga_clear_screen : V → V
  vga_clear_screen v = clear_loop vga_memory_size 0 (vga_set_map_mask 0x0F v)
