-- ===== src/Tty/Typing.antt =====
-- `tty_write` of src/kernel/drivers/video/tty.c types on the tape.
use lux_kernel.Base.{
  ℕ, ◌+◌, ◌-◌, ◌*◌, ◌/◌, ◌≡◌, refl, sym, subst, true, false, List, [], ◌∷◌, ltb, leb, ◌==◌,
  if◌then◌else◌, arith, Bool-cases, inl, inr,
}
use lux_kernel.Tty.Draw.{Vga, Cell, update, tty_cell_index}
use lux_kernel.Tty.{
  Tty, tty_redraw_cursor, put_cell, blank, newline, step_back, backspace, advance, put_plain,
  tty_putc, tty_write,
}
use lux_kernel.Tty.Render.{text}
use lux_kernel.Tty.Redraw.{text-redraw}
use lux_kernel.Tty.Screen.{text-put_cell}
use lux_kernel.Tty.Tape.{Tape, reveal, type_char, type_text, Fits, Shows, scroll_redraw-Shows}

module _ {V : Type 0} (font : ℕ → ℕ → ℕ) (vga : Vga V) where
  -- A cell is written on the screen and on the tape.
  put_cell-Shows :
      (p : Tape) (t : Tty V) (cell : Cell)
      → Shows p (text t)
      → Shows
          (record p { cell = update p.cell p.place cell })
          (text (put_cell font vga t.cursor_row t.cursor_col cell t))
  unfolding tty_cell_index
  put_cell-Shows p t cell h =
      subst (Shows (record p { cell = update p.cell p.place cell }))
        (sym (text-put_cell font vga t.cursor_row t.cursor_col cell t))
        (record {
          same_cells = λ i lt. elim (Bool-cases (i == t.cursor_row * 80 + t.cursor_col)) [
            | inl e ↦
                let at : (i + p.top * 80 == p.place) ≡ true = ground (arith, h.same_place) in
                rw (e, at) refl
            | inr e ↦
                let away : (i + p.top * 80 == p.place) ≡ false = ground (arith, h.same_place) in
                rw (e, away) (h.same_cells i lt)
          ];
          same_place = h.same_place;
          same_color = h.same_color;
          col_in = h.col_in;
          row_in = h.row_in;
        })

  newline-Shows :
      (p : Tape) (t : Tty V)
      → Shows p (text t)
      → Shows (reveal (record p { place = (p.place / 80 + 1) * 80 })) (text (newline font vga t))
  unfolding newline
  newline-Shows p t h =
      scroll_redraw-Shows font vga (record p { place = (p.place / 80 + 1) * 80 })
        (record t { cursor_col = 0; cursor_row = t.cursor_row + 1 })
        (record {
          cells_at = h.same_cells;
          place_at = omega (arith, h.same_place, h.col_in);
          color_at = h.same_color;
          col_in = omega arith;
          row_near = omega (arith, h.row_in);
        })

  return-Shows :
      (p : Tape) (t : Tty V)
      → Shows p (text t)
      → Shows
          (record p { place = p.place / 80 * 80 })
          (text (tty_redraw_cursor font vga (record t { cursor_col = 0 })))
  return-Shows p t h =
      subst (Shows (record p { place = p.place / 80 * 80 }))
        (sym (text-redraw font vga (record t { cursor_col = 0 })))
        (record {
          same_cells = h.same_cells;
          same_place = omega (arith, h.same_place, h.col_in);
          same_color = h.same_color;
          col_in = omega arith;
          row_in = h.row_in;
        })

  step_back-Shows :
      (p : Tape) (t : Tty V)
      → Shows p (text t)
      → Shows
          (record p { place = if p.place == p.top * 80 then p.place else p.place - 1 })
          (text (step_back font vga t))
  unfolding step_back
  step_back-Shows p t h = elim (Bool-cases (ltb 0 t.cursor_col)) [
    | inl e ↦
        let on : (p.place == p.top * 80) ≡ false = ground (arith, h.same_place) in
        rw (e, on)
          (record {
            same_cells = h.same_cells;
            same_place = ground (arith, h.same_place, e);
            same_color = h.same_color;
            col_in = omega (arith, h.col_in);
            row_in = h.row_in;
          })
    | inr e ↦ rw e (elim (Bool-cases (ltb 0 t.cursor_row)) [
      | inl f ↦
          let on : (p.place == p.top * 80) ≡ false = ground (arith, h.same_place) in
          rw (f, on)
            (record {
              same_cells = h.same_cells;
              same_place = ground (arith, h.same_place, e, f);
              same_color = h.same_color;
              col_in = omega arith;
              row_in = omega (arith, h.row_in);
            })
      | inr f ↦
          let at_top : (p.place == p.top * 80) ≡ true = ground (arith, h.same_place) in
          rw (f, at_top)
            (record {
              same_cells = h.same_cells;
              same_place = h.same_place;
              same_color = h.same_color;
              col_in = h.col_in;
              row_in = h.row_in;
            })
    ])
  ]

  advance-Fits :
      (p : Tape) (t : Tty V)
      → Shows p (text t)
      → Fits (record p { place = p.place + 1 }) (text (advance font vga t))
  unfolding advance
  advance-Fits p t h = elim (Bool-cases (leb 80 (t.cursor_col + 1))) [
    | inl e ↦ rw e (record {
      cells_at = h.same_cells;
      place_at = ground (arith, h.same_place, h.col_in, e);
      color_at = h.same_color;
      col_in = omega arith;
      row_near = omega (arith, h.row_in);
    })
    | inr e ↦ rw e (record {
      cells_at = h.same_cells;
      place_at = omega (arith, h.same_place);
      color_at = h.same_color;
      col_in = ground (arith, e);
      row_near = omega (arith, h.row_in);
    })
  ]

  backspace-Shows :
      (p : Tape) (t : Tty V)
      → Shows p (text t)
      → let back = if p.place == p.top * 80 then p.place else p.place - 1 in
        Shows
          (record p { place = back; cell = update p.cell back (blank p.color) })
          (text (backspace font vga t))
  unfolding backspace
  backspace-Shows p t h =
      let back = step_back font vga t in
      let stepped = step_back-Shows p t h in
      let cell = blank back.current_color in
      let p' : Tape = record p { place = if p.place == p.top * 80 then p.place else p.place - 1 } in
      subst (Shows _)
        (sym (text-redraw font vga (put_cell font vga back.cursor_row back.cursor_col cell back)))
        (subst
          (λ k.
            Shows (record p' { cell = update p.cell p'.place (blank k) })
              (text (put_cell font vga back.cursor_row back.cursor_col cell back)))
          stepped.same_color (put_cell-Shows p' back cell stepped))

  put_plain-Shows :
      (c : ℕ) (p : Tape) (t : Tty V)
      → Shows p (text t)
      → Shows
          (reveal (record p {
            place = p.place + 1;
            cell = update p.cell p.place (record { character = c; color = p.color });
          }))
          (text (put_plain font vga c t))
  unfolding put_plain
  put_plain-Shows c p t h =
      let inside : leb 30 t.cursor_row ≡ false = ground (arith, h.row_in) in
      let cell : Cell = record { character = c; color = t.current_color } in
      let put = put_cell font vga t.cursor_row t.cursor_col cell t in
      let typed = λ (k : ℕ). update p.cell p.place (record { character = c; color = k }) in
      let p' : Tape = record p { cell = typed p.color } in
      let there : Shows p' (text put) =
        subst (λ k. Shows (record p { cell = typed k }) (text put)) h.same_color
          (put_cell-Shows p t cell h) in
      rw inside (
        scroll_redraw-Shows font vga (record p' { place = p.place + 1 }) (advance font vga put)
          (advance-Fits p' put there))

  putc-Shows :
      (c : ℕ) (p : Tape) (t : Tty V)
      → Shows p (text t)
      → Shows (type_char c p) (text (tty_putc font vga c t))
  unfolding tty_putc type_char
  putc-Shows c p t h = elim (Bool-cases (c == 10)) [
    | inl e ↦ rw e (newline-Shows p t h)
    | inr e ↦ rw e (elim (Bool-cases (c == 13)) [
      | inl f ↦ rw f (return-Shows p t h)
      | inr f ↦ rw f (elim (Bool-cases (c == 8)) [
        | inl g ↦ rw g (backspace-Shows p t h)
        | inr g ↦ rw g (put_plain-Shows c p t h)
      ])
    ])
  ]

  -- Where the terminal shows 30 rows of a tape, its cursor at the tape's place, it does so after
  -- `tty_write` of any bytes, with the tape on which they were typed: a plain byte is put at the place with
  -- the current color, and the place goes on by one; a newline goes to the start of the next row, a
  -- return to the start of the row, a backspace to the place before, which it blanks, but not above
  -- the screen. Only when the place leaves the screen do its rows move, by one, and a blank row comes up.
  pub write-Shows :
      (cs : List ℕ) (p : Tape) (t : Tty V)
      → Shows p (text t)
      → Shows (type_text cs p) (text (tty_write font vga cs t))
  unfolding tty_write type_text
  write-Shows [] p t h = h
  write-Shows (c ∷ cs) p t h =
      write-Shows cs (type_char c p) (tty_putc font vga c t) (putc-Shows c p t h)
