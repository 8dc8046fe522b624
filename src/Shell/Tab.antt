-- ===== src/Shell/Tab.antt =====
-- What `handle_tab_completion` of src/kernel/shell/shell.c does to the line that is typed.
use lux_kernel.Base.{
  ℕ, ◌+◌, ◌≤◌, ◌<◌, ◌≡◌, ◌≢◌, refl, ◌∙◌, Bool, true, false, not, ◌&&◌, List, [], ltb, ◌==◌,
  if◌then◌else◌, get_or, set, length, length-set, arith, Bool-cases, inl, inr,
}
use lux_kernel.Strings.{memcpy, strlen}
use lux_kernel.Strings.Copy.{get_or-set, get_or-memcpy, length-memcpy}
use lux_kernel.Tty.Draw.{Vga}
use lux_kernel.Tty.{Tty, tty_putc}
use lux_kernel.Shell.Text.{buffer_has_space}
use lux_kernel.Shell.Prompt.{bell}
use lux_kernel.Shell.Complete.{
  Line, Matches, matches_of, no_commands, to_add, extend_line, finish_name, complete,
  handle_tab_completion,
}

-- What was typed stays; the line may be longer, and fits into the buffer.
pub record Extends (capacity : ℕ) (l l' : Line) : Type 0 where
  size : length l'.buffer ≡ capacity
  longer : l.len ≤ l'.len
  fits : l'.len < capacity
  kept : (i : ℕ) → i < l.len → get_or l'.buffer i 0 ≡ get_or l.buffer i 0
  ends : l'.len ≢ l.len → get_or l'.buffer l'.len 0 ≡ 0
  cursor_stays : l'.cursor_pos ≡ l.cursor_pos

same-Extends :
    (capacity : ℕ) (l : Line) → length l.buffer ≡ capacity → l.len < capacity → Extends capacity l l
same-Extends capacity l size room = record {
  size = size;
  longer = omega arith;
  fits = room;
  kept = λ i lt. refl;
  ends = λ ne. absurd (ne refl);
  cursor_stays = refl;
}

to_add-room :
    (capacity : ℕ) (m : Matches) (n : ℕ) → n < capacity → n + to_add capacity m n < capacity
unfolding to_add
to_add-room capacity m n lt = ground arith

extend_line-Extends :
    (capacity : ℕ) (m : Matches) (l : Line)
    → length l.buffer ≡ capacity
    → l.len < capacity
    → Extends capacity l (extend_line capacity m l)
unfolding extend_line
extend_line-Extends capacity m l size room =
    let added = to_add capacity m l.len in
    let fits = to_add-room capacity m l.len room in
    let copied = memcpy l.buffer l.len m.first_name l.len added in
    let copied_size = length-memcpy l.buffer l.len m.first_name l.len added in
    let at =
      λ (i : ℕ). get_or-set copied (l.len + added) i 0 (omega (arith, copied_size, size, fits)) in
    elim (Bool-cases (added == 0)) [
      | inl e ↦ rw e (same-Extends capacity l size room)
      | inr e ↦ rw e record {
        size = length-set copied (l.len + added) 0 ∙ copied_size ∙ size;
        longer = omega arith;
        fits = fits;
        kept = λ i lt. ground (
          arith,
          at i,
          get_or-memcpy l.buffer l.len m.first_name l.len added i (omega (arith, size, fits)),
        );
        ends = λ ne. ground (arith, at (l.len + added));
        cursor_stays = refl;
      }
    ]

finish_name-Extends :
    (capacity : ℕ) (m : Matches) (l l' : Line)
    → Extends capacity l l'
    → Extends capacity l (finish_name capacity m l')
unfolding finish_name
finish_name-Extends capacity m l l' e =
    let spaced = set l'.buffer l'.len b' ' in
    let spaced_size = length-set l'.buffer l'.len b' ' ∙ e.size in
    let test = l'.len == strlen m.first_name && ltb (l'.len + 1) capacity in
    elim (Bool-cases test) [
      | inr f ↦ rw f e
      | inl f ↦
          let room : l'.len + 1 < capacity = ground (arith, f) in
          let at =
            λ (i : ℕ). get_or-set spaced (l'.len + 1) i 0 (omega (arith, spaced_size, room)) in
          rw f record {
            size = length-set spaced (l'.len + 1) 0 ∙ spaced_size;
            longer = omega (arith, e.longer);
            fits = room;
            kept = λ i lt. ground (
              arith,
              at i,
              get_or-set l'.buffer l'.len i b' ' (omega (arith, e.size, room)),
              e.kept i lt,
              e.longer,
            );
            ends = λ ne. ground (arith, at (l'.len + 1));
            cursor_stays = e.cursor_stays;
          }
    ]

module _ {V : Type 0} (font : ℕ → ℕ → ℕ) (vga : Vga V) (shell_cwd : List ℕ) (capacity : ℕ)
    (names : List (List ℕ)) where
  complete-Extends :
      (m : Matches) (l : Line) (t : Tty V)
      → length l.buffer ≡ capacity
      → l.len < capacity
      → Extends capacity l (complete font vga shell_cwd capacity names m (l, t)).0
  unfolding complete
  complete-Extends m l t size room =
      let e = extend_line-Extends capacity m l size room in
      elim (Bool-cases (m.match_count == 1)) [
        | inl f ↦ rw f (finish_name-Extends capacity m l (extend_line capacity m l) e)
        | inr f ↦
            rw f
              (elim (Bool-cases (ltb 1 m.match_count && (extend_line capacity m l).len == l.len)) [
                | inl g ↦ rw g e
                | inr g ↦ rw g e
              ])
      ]

  -- The line behind `handle_tab_completion`.
  abbrev pub Completes : Line → Line × Tty V → Type 0
  Completes l (l', t) =
      Extends capacity l l' × (l'.len ≢ l.len → (l'.cursor_pos ≡ l.len) × (l'.cursor_pos < l'.len))

  if-Completes :
      (l : Line) (p q : Line × Tty V) (b : Bool)
      → (b ≡ true → Completes l p)
      → (b ≡ false → Completes l q)
      → Completes l (if b then p else q)
  if-Completes l p q true h k = h refl
  if-Completes l p q false h k = k refl

  stays :
      (l : Line) (t : Tty V) → length l.buffer ≡ capacity → l.len < capacity → Completes l (l, t)
  stays l t size room = (same-Extends capacity l size room, λ ne. absurd (ne refl))

  -- The tab key at a line that is not empty, in a buffer of `capacity` bytes that has room for it and its
  -- NUL: what was typed stays, the line gets longer only, and still fits with its NUL, which is put
  -- behind what is added. The line gets longer only if the cursor is at its end; the cursor does not
  -- move, so that it is then within the line, at the place where the added characters begin.
  pub handle_tab_completion-Extends :
      (l : Line) (t : Tty V)
      → length l.buffer ≡ capacity
      → l.len < capacity
      → 0 < l.len
      → let l' = (handle_tab_completion font vga shell_cwd capacity names (l, t)).0 in
        Extends capacity l l'
        × (l'.len ≢ l.len → (l'.cursor_pos ≡ l.len) × (l'.cursor_pos < l'.len))
  unfolding handle_tab_completion
  handle_tab_completion-Extends l t size room typed =
      let m =
        matches_of names l.buffer l.len
          (record { match_count = 0; first_name = []; shared_len = 0 }) in
      let same = λ (t' : Tty V). stays l t' size room in
      let c = complete-Extends m l t size room in
      let beep = tty_putc font vga bell t in
      if-Completes l _ _ (no_commands names) (λ e. same t)
        (λ e.
          if-Completes l _ _ (l.len == 0) (λ f. absurd (ground (arith, f, typed)))
            (λ f.
              if-Completes l _ _ (buffer_has_space l.buffer l.len) (λ g. same beep)
                (λ g.
                  if-Completes l _ _ (not (l.cursor_pos == l.len)) (λ h. same beep)
                    (λ h.
                      if-Completes l _ _ (m.match_count == 0) (λ k. same beep)
                        (λ k. (
                          c,
                          let at_end : l.cursor_pos ≡ l.len = ground (arith, h) in
                              λ ne. (
                                c.cursor_stays ∙ at_end,
                                omega (arith, c.cursor_stays, at_end, c.longer, ne),
                              ),
                        ))))))
