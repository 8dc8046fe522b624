-- ===== src/Shell/Typed.antt =====
-- `read_line` of src/kernel/shell/shell.c reads what the keys typed.
use lux_kernel.Base.{
  ℕ, ◌<◌, ◌≡◌, refl, ◌∙◌, ap, false, Option, none, some, List, [], ◌∷◌, ◌++◌, get_or, set, take,
  length, length-set, arith, negsuc,
}
use lux_kernel.Strings.Copy.{get_or-set}
use lux_kernel.Tty.Draw.{Vga}
use lux_kernel.Tty.{Tty}
use lux_kernel.Shell.History.{History}
use lux_kernel.Shell.Editor.{
  Edit, Next, more, done, cancelled, edit_step, after_key, Read, read_loop, read_line,
}
use lux_kernel.Bytes.{take-bytes}
use lux_kernel.Shell.Keys.{Typing, type_key, type_keys, AllEdit, HeldAs, GoesOn, step-GoesOn}

module _ {V : Type 0} where
  -- A line was read: its length, its bytes with a NUL behind them within the buffer, and what is left.
  abbrev pub Reads : ℕ → List ℕ → List ℕ → Option (Read V) → Type 0
  Reads capacity text rest none = ⊥
  Reads capacity text rest (some (n, buffer, t, left)) =
      (n ≡ length text)
      × (n < capacity)
      × (take n buffer ≡ text)
      × (get_or buffer n 0 ≡ 0)
      × (left ≡ rest)

  GoesOn-Reads :
      (capacity : ℕ) (p : Typing) (text rest cs : List ℕ) (next : Edit → Tty V → Option (Read V))
      (n : Next V)
      → GoesOn capacity p n
      → ((e : Edit) (t : Tty V) → HeldAs capacity e.line p → Reads capacity text rest (next e t))
      → Reads capacity text rest (after_key cs next n)
  unfolding after_key
  GoesOn-Reads capacity p text rest cs next (more e t) h k = k e t h
  GoesOn-Reads capacity p text rest cs next (done e t) h k = absurd h
  GoesOn-Reads capacity p text rest cs next (cancelled e t) h k = absurd h

  done-Reads :
      (capacity : ℕ) (p : Typing) (rest : List ℕ) (next : Edit → Tty V → Option (Read V)) (e : Edit)
      (t : Tty V)
      → HeldAs capacity e.line p
      → Reads capacity p.text rest (after_key rest next (done e t))
  unfolding after_key
  done-Reads capacity p rest next e t h =
      let l = e.line in
      let size = length-set l.buffer l.len 0 in
      let read =
        λ (i : ℕ). get_or-set l.buffer l.len i 0 (omega (arith, h.size, h.len_is, h.fits)) in
      (
        h.len_is,
        omega (arith, h.len_is, h.fits),
        ap (λ k. take k (set l.buffer l.len 0)) h.len_is
            ∙ take-bytes p.text (set l.buffer l.len 0) (omega (arith, size, h.size, h.fits))
                (λ i lt. ground (arith, read i, h.len_is, h.bytes i)),
        ground (arith, read l.len),
        refl,
      )

module _ {V : Type 0} (font : ℕ → ℕ → ℕ) (vga : Vga V) (shell_cwd : List ℕ) (capacity : ℕ)
    (h : History) (names : List (List ℕ)) where
  read_loop-Reads :
      (cs rest : List ℕ) (p : Typing) (e : Edit) (t : Tty V)
      → AllEdit cs
      → HeldAs capacity e.line p
      → Reads capacity
          (type_keys capacity cs p).text
          rest
          (read_loop font vga shell_cwd capacity h names (cs ++ 10 ∷ rest) e t)
  unfolding read_loop type_keys
  read_loop-Reads [] rest p e t keys held =
      unfold edit_step in done-Reads capacity p rest _ e _ held
  read_loop-Reads (c ∷ cs) rest p e t keys held =
      GoesOn-Reads capacity (type_key capacity c p)
        (type_keys capacity cs (type_key capacity c p)).text rest _ _ _
        (step-GoesOn font vga shell_cwd capacity e t p held h names c keys.0)
        (λ e' t' held'. read_loop-Reads cs rest (type_key capacity c p) e' t' keys.1 held')

  -- For any keys but an interrupt, a newline, a tab and the arrows into the history, and then a newline:
  -- from a buffer of `capacity` bytes, which is at least one, `read_line` ends, and leaves the characters
  -- behind the newline; the bytes in the buffer are the text that the keys typed, with a NUL behind them,
  -- and the result is its length. A character is put in at the cursor as long as there is room for it and
  -- the NUL; backspace and delete take out the character before and at it; the arrows to the sides,
  -- home and end move it within the text.
  pub read_line-types :
      (cs rest buffer saved : List ℕ) (t : Tty V)
      → length buffer ≡ capacity
      → 0 < capacity
      → AllEdit cs
      → Reads capacity
          (type_keys capacity cs (record { text = []; at = 0 })).text
          rest
          (read_line font vga shell_cwd capacity h names buffer saved (cs ++ 10 ∷ rest) t)
  unfolding read_line
  read_line-types cs rest buffer saved t size some_room keys =
      read_loop-Reads cs rest (record { text = []; at = 0 })
        (record {
          line = record { buffer = buffer; len = 0; cursor_pos = 0 };
          history_offset = negsuc 0;
          saved_current = saved;
          saved_current_valid = false;
        })
        t keys
        (record {
          size = size;
          len_is = refl;
          fits = some_room;
          bytes = λ i lt. elim lt [ ];
          at_is = refl;
          at_in = omega arith;
        })
