-- ===== src/Tty/Tape.antt =====
-- The terminal of src/kernel/drivers/video/tty.c as a window on an endless tape of rows of 80 cells.
use lux_kernel.Base.{
  ℕ, zero, suc, ◌+◌, ◌-◌, ◌*◌, ◌/◌, ◌≤◌, ◌<◌, ◌≡◌, sym, subst, ◌∙◌, ap, true, false, List, [], ◌∷◌,
  ltb, ◌==◌, if◌then◌else◌, arith, Bool-cases, inl, inr,
}
use lux_kernel.Tty.Draw.{Vga, Cell, update}
use lux_kernel.Tty.Pixels.{within}
use lux_kernel.Tty.{Tty, tty_redraw_cursor, tty_scroll, blank, blank_loop, move_cells}
use lux_kernel.Tty.Render.{Text, text}
use lux_kernel.Tty.Redraw.{text-redraw}
use lux_kernel.Tty.Screen.{text-render}

-- The cells of the tape, the number of rows above the screen, and the place of the cursor.
pub record Tape : Type 0 where
  pub cell : ℕ → Cell
  pub top : ℕ
  pub place : ℕ
  pub color : ℕ

-- Where the place is below the 30 rows of the screen, the screen goes down by a row, and what comes
-- to light is blank.
unfoldable pub reveal : Tape → Tape
reveal p = if ltb (p.place / 80) (p.top + 30) then p else record p {
  top = p.top + 1;
  cell = λ i. if ltb i ((p.top + 30) * 80) then p.cell i else blank p.color;
}

-- A backspace stops at the top of the screen.
unfoldable pub type_char : ℕ → Tape → Tape
type_char c p =
    let back = if p.place == p.top * 80 then p.place else p.place - 1 in
    if c == 10
    then reveal (record p { place = (p.place / 80 + 1) * 80 })
    else if c == 13
    then record p { place = p.place / 80 * 80 }
    else if c == 8
    then record p { place = back; cell = update p.cell back (blank p.color) }
    else reveal (record p {
      place = p.place + 1;
      cell = update p.cell p.place (record { character = c; color = p.color });
    })

unfoldable pub type_text : List ℕ → Tape → Tape
type_text [] p = p
type_text (c ∷ cs) p = type_text cs (type_char c p)

-- The terminal shows 30 rows of the tape. The row may be just below them.
pub record Fits (p : Tape) (s : Text) : Type 0 where
  pub cells_at : (i : ℕ) → i < 2400 → s.cells i ≡ p.cell (i + p.top * 80)
  pub place_at : (s.cursor_row + p.top) * 80 + s.cursor_col ≡ p.place
  pub color_at : s.current_color ≡ p.color
  pub col_in : s.cursor_col < 80
  pub row_near : s.cursor_row ≤ 30

pub record Shows (p : Tape) (s : Text) : Type 0 where
  pub same_cells : (i : ℕ) → i < 2400 → s.cells i ≡ p.cell (i + p.top * 80)
  pub same_place : (s.cursor_row + p.top) * 80 + s.cursor_col ≡ p.place
  pub same_color : s.current_color ≡ p.color
  pub col_in : s.cursor_col < 80
  pub row_in : s.cursor_row < 30

blank_loop-at :
    (rounds i : ℕ) (cell : Cell) (cells : ℕ → Cell) (j : ℕ)
    → blank_loop rounds i cell cells j ≡ (if within i rounds j then cell else cells j)
unfolding blank_loop
blank_loop-at zero i cell cells j = ground arith
blank_loop-at (suc rounds) i cell cells j =
    blank_loop-at rounds (i + 1) cell (update cells i cell) j ∙ ground arith

module _ {V : Type 0} (font : ℕ → ℕ → ℕ) (vga : Vga V) where
  scroll-Shows :
      (p : Tape) (t : Tty V) → Fits p (text t) → Shows (reveal p) (text (tty_scroll font vga t))
  unfolding tty_scroll reveal move_cells
  scroll-Shows p t h = elim (Bool-cases (ltb t.cursor_row 30)) [
    | inl e ↦
        let stays : ltb (p.place / 80) (p.top + 30) ≡ true = ground (arith, h.place_at, h.col_in) in
        rw (e, stays)
          (record {
            same_cells = h.cells_at;
            same_place = h.place_at;
            same_color = h.color_at;
            col_in = h.col_in;
            row_in = ground arith;
          })
    | inr e ↦
        let goes : ltb (p.place / 80) (p.top + 30) ≡ false = ground (arith, h.place_at, h.col_in) in
        let row : t.cursor_row ≡ 30 = ground (arith, h.row_near) in
        let one : t.cursor_row - 29 ≡ 1 = omega (arith, row) in
        rw (e, goes)
          (subst (Shows _) (sym (text-render font vga _)) (
            rw one (record {
              same_cells = λ i lt.
                  blank_loop-at 80 2320 (blank t.current_color) (move_cells 2320 80 t.cells) i
                  ∙ lower i lt;
              same_place = omega (arith, row, h.place_at);
              same_color = h.color_at;
              col_in = h.col_in;
              row_in = omega arith;
            })))
  ]
    where
      lower :
          (i : ℕ)
          → i < 2400
          → (if within 2320 80 i then blank t.current_color else move_cells 2320 80 t.cells i) ≡ (
              if ltb (i + (p.top + 1) * 80) ((p.top + 30) * 80)
              then p.cell (i + (p.top + 1) * 80)
              else blank p.color)
      lower i lt = elim (Bool-cases (ltb i 2320)) [
        | inl f ↦
            let above : within 2320 80 i ≡ false = ground arith in
            let old : ltb (i + (p.top + 1) * 80) ((p.top + 30) * 80) ≡ true = ground arith in
            rw (above, f, old) (h.cells_at (i + 80) (ground arith) ∙ ap p.cell (omega arith))
        | inr f ↦
            let below : within 2320 80 i ≡ true = ground arith in
            let new : ltb (i + (p.top + 1) * 80) ((p.top + 30) * 80) ≡ false = ground arith in
            rw (below, new) (ap blank h.color_at)
      ]

  pub scroll_redraw-Shows :
      (p : Tape) (t : Tty V)
      → Fits p (text t)
      → Shows (reveal p) (text (tty_redraw_cursor font vga (tty_scroll font vga t)))
  scroll_redraw-Shows p t h =
      subst (Shows (reveal p)) (sym (text-redraw font vga (tty_scroll font vga t)))
        (scroll-Shows p t h)
