-- ===== src/Shell/Keys.antt =====
-- What each key does to the line of src/kernel/shell/shell.c: the text that it holds, and its place.
use lux_kernel.Base.{
  ℕ, suc, ◌+◌, ◌-◌, ◌≤◌, ◌≡◌, refl, subst, ◌∙◌, Bool, true, false, not, ◌&&◌, List, [], ◌∷◌, ltb,
  leb, ◌==◌, if◌then◌else◌, length, arith, Bool-cases, inl, inr,
}
use lux_kernel.Tty.Draw.{Vga}
use lux_kernel.Tty.{Tty}
use lux_kernel.Shell.History.{History}
use lux_kernel.Shell.Complete.{Line}
use lux_kernel.Shell.Editor.{
  Edit, Next, more, done, cancelled, edited, edit_step, arrow_key, move_cursor, backspace_key,
  plain_key, refreshed, beeped, delete_char,
}
use lux_kernel.Shell.Edits.{
  Held, insert_at, delete_at, insert_char-Held, erase_char-Held, delete_char-Held,
}

-- A text, and the place in it where the next character goes.
pub record Typing : Type 0 where
  pub text : List ℕ
  pub at : ℕ

-- What a key does: the arrows to the left and right, delete, home, end and backspace, two that do
-- nothing, and the characters, for which there may be no room.
unfoldable pub type_key : ℕ → ℕ → Typing → Typing
type_key capacity c p =
    if c == 0
    then p
    else if c == 0x82
    then record p { at = p.at - 1 }
    else if c == 0x83
    then (if ltb p.at (length p.text) then record p { at = p.at + 1 } else p)
    else if c == 0x84
    then (if ltb p.at (length p.text) then record p { text = delete_at p.at p.text } else p)
    else if c == 0x85
    then record p { at = 0 }
    else if c == 0x86
    then record p { at = length p.text }
    else if c == 13
    then p
    else if c == 8
    then (if p.at == 0 then p else record { text = delete_at (p.at - 1) p.text; at = p.at - 1 })
    else if leb capacity (length p.text + 1)
    then p
    else record { text = insert_at p.at c p.text; at = p.at + 1 }

unfoldable pub type_keys : ℕ → List ℕ → Typing → Typing
type_keys capacity [] p = p
type_keys capacity (c ∷ cs) p = type_keys capacity cs (type_key capacity c p)

-- No interrupt, newline, tab, or arrow into the history.
abbrev pub is_edit : ℕ → Bool
is_edit c = not (c == 3) && not (c == 10) && not (c == 9) && not (c == 0x80) && not (c == 0x81)

abbrev pub AllEdit : List ℕ → Type 0
AllEdit [] = Unit
AllEdit (c ∷ cs) = (is_edit c ≡ true) × AllEdit cs

abbrev pub HeldAs : ℕ → Line → Typing → Type 0
HeldAs capacity l p = Held capacity l p.text p.at

module _ {V : Type 0} where
  -- Another character is read, with the text in the line.
  abbrev pub GoesOn : ℕ → Typing → Next V → Type 0
  GoesOn capacity p (more e t) = HeldAs capacity e.line p
  GoesOn capacity p (done e t) = ⊥
  GoesOn capacity p (cancelled e t) = ⊥

moved-Held :
    (capacity k at : ℕ) (l : Line) (p : Typing)
    → HeldAs capacity l p
    → k ≡ at
    → at ≤ length p.text
    → HeldAs capacity (record l { cursor_pos = k }) (record p { at = at })
moved-Held capacity k at l p h same le = record {
  size = h.size;
  len_is = h.len_is;
  fits = h.fits;
  bytes = h.bytes;
  at_is = same;
  at_in = le;
}

stayed-Held :
    (capacity at : ℕ) (l : Line) (p : Typing)
    → HeldAs capacity l p
    → p.at ≡ at
    → HeldAs capacity l (record p { at = at })
stayed-Held capacity at l p h same = record {
  size = h.size;
  len_is = h.len_is;
  fits = h.fits;
  bytes = h.bytes;
  at_is = h.at_is ∙ same;
  at_in = omega (arith, h.at_in, same);
}

module _ {V : Type 0} (font : ℕ → ℕ → ℕ) (vga : Vga V) (shell_cwd : List ℕ) (capacity : ℕ)
    (e : Edit) (t : Tty V) (p : Typing) (held : HeldAs capacity e.line p) where
  left-GoesOn :
      GoesOn capacity
        (record p { at = p.at - 1 })
        (if ltb 0 e.line.cursor_pos
          then move_cursor font vga shell_cwd (e.line.cursor_pos - 1) e t
          else beeped font vga e t)
  unfolding move_cursor refreshed beeped
  left-GoesOn = elim (Bool-cases (ltb 0 e.line.cursor_pos)) [
    | inl f ↦ rw f (
        moved-Held capacity (e.line.cursor_pos - 1) (p.at - 1) e.line p held
          (omega (arith, held.at_is)) (omega (arith, held.at_in)))
    | inr f ↦ rw f (stayed-Held capacity (p.at - 1) e.line p held (ground (arith, held.at_is)))
  ]

  right-GoesOn :
      GoesOn capacity (if ltb p.at (length p.text) then record p { at = p.at + 1 } else p) (
        if ltb e.line.cursor_pos e.line.len
        then move_cursor font vga shell_cwd (e.line.cursor_pos + 1) e t
        else beeped font vga e t)
  unfolding move_cursor refreshed beeped
  right-GoesOn = elim (Bool-cases (ltb p.at (length p.text))) [
    | inl f ↦
        let g : ltb e.line.cursor_pos e.line.len ≡ true = ground (arith, held.at_is, held.len_is) in
        rw (f, g)
          (moved-Held capacity (e.line.cursor_pos + 1) (p.at + 1) e.line p held
            (omega (arith, held.at_is)) (ground (arith, f)))
    | inr f ↦
        let g : ltb e.line.cursor_pos e.line.len ≡ false =
          ground (arith, held.at_is, held.len_is) in
        rw (f, g) held
  ]

  delete-GoesOn :
      GoesOn capacity
        (if ltb p.at (length p.text) then record p { text = delete_at p.at p.text } else p)
        (if ltb e.line.cursor_pos e.line.len
          then refreshed font vga shell_cwd e.line.len (edited (delete_char e.line) e) t
          else beeped font vga e t)
  unfolding refreshed beeped
  delete-GoesOn = elim (Bool-cases (ltb p.at (length p.text))) [
    | inl f ↦
        let g : ltb e.line.cursor_pos e.line.len ≡ true = ground (arith, held.at_is, held.len_is) in
        rw (f, g) (delete_char-Held capacity e.line p.text p.at held (ground (arith, f)))
    | inr f ↦
        let g : ltb e.line.cursor_pos e.line.len ≡ false =
          ground (arith, held.at_is, held.len_is) in
        rw (f, g) held
  ]

  home-GoesOn :
      GoesOn capacity
        (record p { at = 0 })
        (if ltb 0 e.line.cursor_pos then move_cursor font vga shell_cwd 0 e t else more e t)
  unfolding move_cursor refreshed
  home-GoesOn = elim (Bool-cases (ltb 0 e.line.cursor_pos)) [
    | inl f ↦ rw f (moved-Held capacity 0 0 e.line p held refl (omega arith))
    | inr f ↦ rw f (stayed-Held capacity 0 e.line p held (ground (arith, held.at_is)))
  ]

  end-GoesOn :
      GoesOn capacity
        (record p { at = length p.text })
        (if ltb e.line.cursor_pos e.line.len
          then move_cursor font vga shell_cwd e.line.len e t
          else more e t)
  unfolding move_cursor refreshed
  end-GoesOn = elim (Bool-cases (ltb e.line.cursor_pos e.line.len)) [
    | inl f ↦
        rw f
          (moved-Held capacity e.line.len (length p.text) e.line p held held.len_is (omega arith))
    | inr f ↦ rw f (
        stayed-Held capacity (length p.text) e.line p held
          (ground (arith, held.at_is, held.len_is, held.at_in)))
  ]

  back-GoesOn :
      GoesOn capacity
        (if p.at == 0 then p else record { text = delete_at (p.at - 1) p.text; at = p.at - 1 })
        (backspace_key font vga shell_cwd e t)
  unfolding backspace_key refreshed beeped
  back-GoesOn = elim (Bool-cases (p.at == 0)) [
    | inl f ↦ let g : (e.line.cursor_pos == 0) ≡ true = ground (arith, held.at_is) in rw (f, g) held
    | inr f ↦
        let g : (e.line.cursor_pos == 0) ≡ false = ground (arith, held.at_is) in
        let one : p.at ≡ suc (p.at - 1) = ground (arith, f) in
        rw (f, g)
          (erase_char-Held capacity e.line p.text (p.at - 1)
            (subst (Held capacity e.line p.text) one held))
  ]

  plain-GoesOn :
      (c : ℕ)
      → GoesOn capacity
          (if leb capacity (length p.text + 1)
            then p
            else record { text = insert_at p.at c p.text; at = p.at + 1 })
          (plain_key font vga shell_cwd capacity c e t)
  unfolding plain_key refreshed beeped
  plain-GoesOn c = elim (Bool-cases (leb capacity (length p.text + 1))) [
    | inl f ↦
        let g : leb capacity (e.line.len + 1) ≡ true = ground (arith, held.len_is) in rw (f, g) held
    | inr f ↦
        let g : leb capacity (e.line.len + 1) ≡ false = ground (arith, held.len_is) in
        rw (f, g) (insert_char-Held capacity c e.line p.text p.at held (ground (arith, f)))
  ]

  arrow_key-GoesOn :
      (c : ℕ)
      → (leb 0x82 c && leb c 0x86) ≡ true
      → GoesOn capacity (type_key capacity c p) (arrow_key font vga shell_cwd c e t)
  unfolding arrow_key type_key
  arrow_key-GoesOn c range =
      let z : (c == 0) ≡ false = ground arith in
      rw z (elim (Bool-cases (c == 0x82)) [
        | inl f ↦ rw f left-GoesOn
        | inr f ↦ rw f (elim (Bool-cases (c == 0x83)) [
          | inl g ↦ rw g right-GoesOn
          | inr g ↦ rw g (elim (Bool-cases (c == 0x84)) [
            | inl i ↦ rw i delete-GoesOn
            | inr i ↦ rw i (elim (Bool-cases (c == 0x85)) [
              | inl j ↦ rw j home-GoesOn
              | inr j ↦ let last : (c == 0x86) ≡ true = ground arith in rw (j, last) end-GoesOn
            ])
          ])
        ])
      ])

  other_key-GoesOn :
      (h : History) (names : List (List ℕ)) (c : ℕ)
      → is_edit c ≡ true
      → (leb 0x82 c && leb c 0x86) ≡ false
      → GoesOn capacity
          (type_key capacity c p)
          (edit_step font vga shell_cwd capacity h names c e t)
  unfolding edit_step type_key
  other_key-GoesOn h names c ok range =
      let int : (c == 3) ≡ false = ground arith in
      let up : (c == 0x80) ≡ false = ground arith in
      let down : (c == 0x81) ≡ false = ground arith in
      let tab : (c == 9) ≡ false = ground arith in
      let newline : (c == 10) ≡ false = ground arith in
      let left : (c == 0x82) ≡ false = ground arith in
      let right : (c == 0x83) ≡ false = ground arith in
      let del : (c == 0x84) ≡ false = ground arith in
      let home : (c == 0x85) ≡ false = ground arith in
      let end : (c == 0x86) ≡ false = ground arith in
      rw (int, up, down, tab, newline, left, right, del, home, end, range)
        (elim (Bool-cases (c == 0)) [
          | inl f ↦ rw f held
          | inr f ↦ rw f (elim (Bool-cases (c == 13)) [
            | inl g ↦ rw g held
            | inr g ↦ rw g (elim (Bool-cases (c == 8)) [
              | inl i ↦ rw i back-GoesOn
              | inr i ↦ rw i (plain-GoesOn c)
            ])
          ])
        ])

  pub step-GoesOn :
      (h : History) (names : List (List ℕ)) (c : ℕ)
      → is_edit c ≡ true
      → GoesOn capacity
          (type_key capacity c p)
          (edit_step font vga shell_cwd capacity h names c e t)
  unfolding edit_step
  step-GoesOn h names c ok = elim (Bool-cases (leb 0x82 c && leb c 0x86)) [
    | inl arrow ↦
        let z : (c == 0) ≡ false = ground arith in
        let int : (c == 3) ≡ false = ground arith in
        let up : (c == 0x80) ≡ false = ground arith in
        let down : (c == 0x81) ≡ false = ground arith in
        rw (z, int, up, down, arrow) (arrow_key-GoesOn c arrow)
    | inr other ↦ other_key-GoesOn h names c ok other
  ]
