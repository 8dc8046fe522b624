-- ===== src/Keyboard/Modifiers.antt =====
-- What a sequence of scan codes does to the modifier keys of src/kernel/drivers/input/keyboard.c.
use lux_kernel.Base.{
  ◌≤◌, ℕ, ◌+◌, ◌%◌, ◌<◌, ◌≡◌, refl, ◌∙◌, ap, ap₂, bit_and, Bool, true, false, not, ◌&&◌, ◌||◌,
  Option, none, some, List, [], ◌∷◌, ◌++◌, ltb, ltb→lt, ◌==◌, if◌then◌else◌, arith, Bool-cases, inl,
  inr, tested, tested-at, ==_iff,
}
use lux_kernel.Keyboard.{
  Keyboard, Event, store_event, make_room, keyboard_queue_event, produce, press_extended, press_key,
  release_key, keyboard_process_scancode, process_pending, keyboard_process_scancode_irq,
  keyboard_modifiers, keyboard_current_modifiers, translate_extended_scancode, translate_scancode,
  apply_control_mapping,
}

-- A scan code behind its prefix, if it had one.
pub record Stroke : Type 0 where
  pub extended : Bool
  pub code : ℕ

-- The strokes of a sequence of bytes, where a prefix may have come before it.
unfoldable pub strokes : Bool → List ℕ → List Stroke
strokes prefixed [] = []
strokes prefixed (c ∷ cs) =
    let rest = strokes true cs in
    let next = strokes false cs in
    if c == 0xE0 then rest else record { extended = prefixed; code = c } ∷ next

-- A key is held from a stroke that presses it to one that releases it.
unfoldable pub held : (Stroke → Bool) → (Stroke → Bool) → Bool → List Stroke → Bool
held presses releases before [] = before
held presses releases before (x ∷ xs) =
    held presses releases (if releases x then false else if presses x then true else before) xs

unfoldable pub toggled : (Stroke → Bool) → Bool → List Stroke → Bool
toggled presses before [] = before
toggled presses before (x ∷ xs) = toggled presses (if presses x then not before else before) xs

abbrev pub plain : ℕ → Stroke → Bool
plain c x = not x.extended && x.code == c

abbrev pub prefixed : ℕ → Stroke → Bool
prefixed c x = x.extended && x.code == c

abbrev pub either : ℕ → Stroke → Bool
either c x = x.code == c

pub record Keys : Type 0 where
  pub left_shift : Bool
  pub right_shift : Bool
  pub left_ctrl : Bool
  pub right_ctrl : Bool
  pub alt_gr : Bool
  pub caps_lock : Bool

abbrev pub keys : Keyboard → Keys
keys k = record {
  left_shift = k.left_shift_pressed;
  right_shift = k.right_shift_pressed;
  left_ctrl = k.left_ctrl_pressed;
  right_ctrl = k.right_ctrl_pressed;
  alt_gr = k.alt_gr_active;
  caps_lock = k.caps_lock_active;
}

-- The keys behind some strokes. The shift keys are released by a code with a prefix too.
abbrev pub keys_behind : Keys → List Stroke → Keys
keys_behind h xs = record {
  left_shift = held (plain 0x2A) (either 0xAA) h.left_shift xs;
  right_shift = held (plain 0x36) (either 0xB6) h.right_shift xs;
  left_ctrl = held (plain 0x1D) (plain 0x9D) h.left_ctrl xs;
  right_ctrl = held (prefixed 0x1D) (prefixed 0x9D) h.right_ctrl xs;
  alt_gr = held (prefixed 0x38) (prefixed 0xB8) h.alt_gr xs;
  caps_lock = toggled (plain 0x3A) h.caps_lock xs;
}

abbrev pub one : Bool → ℕ → ℕ
one b n = if b then n else 0

abbrev pub AllBytes : List ℕ → Type 0
AllBytes [] = Unit
AllBytes (c ∷ cs) = (c < 256) × AllBytes cs

high_table : tested (λ c. if bit_and c 0x80 == 0 then ltb c 128 else not (ltb c 128)) 256 ≡ true
unfolding tested
high_table = refl

low_table : tested (λ c. bit_and c 0x7F == c % 128) 256 ≡ true
unfolding tested
low_table = refl

high : (c : ℕ) → c < 256 → (bit_and c 0x80 == 0) ≡ ltb c 128
high c lt = ground (arith, tested-at _ 256 c lt high_table)

low : (c : ℕ) → c < 256 → bit_and c 0x7F ≡ c % 128
low c lt = (==_iff _ _).0 (tested-at _ 256 c lt low_table)

keys-store : (e : Event) (k : Keyboard) → keys (store_event e (make_room k)) ≡ keys k
unfolding store_event make_room
keys-store e k = ground arith

keys-release :
    (c : ℕ) (x : Bool) (k : Keyboard)
    → c < 256
    → 128 ≤ c
    → keys (release_key (c % 128) x k)
      ≡ keys_behind (keys k) (record { extended = x; code = c } ∷ [])
unfolding release_key held toggled
keys-release c x k lt h = ground arith

modifiers-sum :
    (k : Keyboard)
    → keyboard_modifiers k
      ≡ one (k.left_shift_pressed || k.right_shift_pressed) 1
        + one (k.left_ctrl_pressed || k.right_ctrl_pressed) 2
        + one k.alt_gr_active 4
        + one k.caps_lock_active 8
unfolding keyboard_modifiers keyboard_current_modifiers
modifiers-sum k = ground arith

abbrev pub given : Option ℕ → List ℕ
given none = []
given (some c) = c ∷ []

module _ {S : Type 0} (interrupt_raise : ℕ → S → S) where
  keys-queue :
      (c : ℕ) (k : Keyboard) (s : S)
      → keys (keyboard_queue_event interrupt_raise c (k, s)).0 ≡ keys k
  unfolding keyboard_queue_event
  keys-queue c k s = elim (Bool-cases (c == 0)) [
    | inl e ↦ rw e refl
    | inr e ↦ rw e (keys-store _ k)
  ]

  keys-extended :
      (c : ℕ) (k : Keyboard) (s : S)
      → c < 128
      → keys (press_extended interrupt_raise c (k, s)).1.0
        ≡ keys_behind (keys k) (record { extended = true; code = c } ∷ [])
  unfolding press_extended produce held toggled
  keys-extended c k s lt = ground (arith, keys-queue (translate_extended_scancode c) k s)

  keys-press :
      (c : ℕ) (k : Keyboard) (s : S)
      → c < 128
      → keys (press_key interrupt_raise c (k, s)).1.0
        ≡ keys_behind (keys k) (record { extended = false; code = c } ∷ [])
  unfolding press_key produce held toggled
  keys-press c k s lt = ground (
    arith,
    keys-queue (translate_scancode c k) k s,
    keys-queue (apply_control_mapping (translate_scancode c k)) k s,
  )

  keys-process :
      (c : ℕ) (x : Bool) (k : Keyboard) (s : S)
      → c < 256
      → keys (keyboard_process_scancode interrupt_raise c x (k, s)).1.0
        ≡ keys_behind (keys k) (record { extended = x; code = c } ∷ [])
  unfolding keyboard_process_scancode
  keys-process c true k s lt = elim (Bool-cases (ltb c 128)) [
    | inl makes ↦ rw (high c lt, makes) (keys-extended c k s (ltb→lt c 128 makes))
    | inr breaks ↦ rw (high c lt, breaks, low c lt) (keys-release c true k lt (ground arith))
  ]
  keys-process c false k s lt = elim (Bool-cases (ltb c 128)) [
    | inl makes ↦ rw (high c lt, makes) (keys-press c k s (ltb→lt c 128 makes))
    | inr breaks ↦ rw (high c lt, breaks, low c lt) (keys-release c false k lt (ground arith))
  ]

  pending-queue :
      (c : ℕ) (k : Keyboard) (s : S)
      → (keyboard_queue_event interrupt_raise c (k, s)).0.extended_scancode_pending
        ≡ k.extended_scancode_pending
  unfolding keyboard_queue_event store_event make_room
  pending-queue c k s = ground arith

  pending-process :
      (c : ℕ) (x : Bool) (k : Keyboard) (s : S)
      → (keyboard_process_scancode interrupt_raise c x (k, s)).1.0.extended_scancode_pending
        ≡ k.extended_scancode_pending
  unfolding keyboard_process_scancode press_extended press_key release_key produce
  pending-process c x k s = ground (
    arith,
    pending-queue (translate_extended_scancode c) k s,
    pending-queue (translate_scancode c k) k s,
    pending-queue (apply_control_mapping (translate_scancode c k)) k s,
  )

  -- Scan codes as the interrupts bring them: the characters that come out, and the state behind them.
  unfoldable pub feed : List ℕ → Keyboard × S → List ℕ × (Keyboard × S)
  feed [] m = ([], m)
  feed (c ∷ cs) m =
      let (o, m') = keyboard_process_scancode_irq interrupt_raise c m in
      let (os, m'') = feed cs m' in (given o ++ os, m'')

  keys-pending :
      (c : ℕ) (k : Keyboard) (s : S)
      → c < 256
      → (keys (process_pending interrupt_raise c (k, s)).1.0
          ≡ keys_behind (keys k) (record { extended = k.extended_scancode_pending; code = c } ∷ []))
        × ((process_pending interrupt_raise c (k, s)).1.0.extended_scancode_pending ≡ false)
  unfolding process_pending
  keys-pending c k s lt =
      let off : Keyboard = record k { extended_scancode_pending = false } in
      ground (
        arith,
        keys-process c true off s lt,
        keys-process c false k s lt,
        pending-process c true off s,
        pending-process c false k s,
      )

  keys-feed :
      (cs : List ℕ) (k : Keyboard) (s : S)
      → AllBytes cs
      → keys (feed cs (k, s)).1.0 ≡ keys_behind (keys k) (strokes k.extended_scancode_pending cs)
  unfolding feed strokes held toggled keyboard_process_scancode_irq
  keys-feed [] k s bytes = refl
  keys-feed (c ∷ cs) k s bytes = elim (Bool-cases (c == 0xE0)) [
    | inl e ↦ rw e (keys-feed cs (record k { extended_scancode_pending = true }) s bytes.1)
    | inr e ↦ rw e (
        let m = (process_pending interrupt_raise c (k, s)).1 in
        let step = keys-pending c k s bytes.0 in
        keys-feed cs m.0 m.1 bytes.1
        ∙ ap₂ (λ h xs. keys_behind h xs) step.0 (ap (λ b. strokes b cs) step.1))
  ]

  -- Behind any sequence of bytes that the interrupts bring, from any state, `keyboard_modifiers` is 1 for a
  -- shift key, plus 2 for a control key, 4 for AltGr and 8 for caps lock, where each of the five keys is
  -- held exactly if its last stroke pressed it (a key with no stroke is as before), and caps lock
  -- changes with each of its presses; no other stroke matters. Prefixed codes are AltGr and the right
  -- control key; a shift key is released with a prefix too.
  pub modifiers-feed :
      (cs : List ℕ) (k : Keyboard) (s : S)
      → AllBytes cs
      → let h = keys_behind (keys k) (strokes k.extended_scancode_pending cs) in
        keyboard_modifiers (feed cs (k, s)).1.0
        ≡ one (h.left_shift || h.right_shift) 1
          + one (h.left_ctrl || h.right_ctrl) 2
          + one h.alt_gr 4
          + one h.caps_lock 8
  modifiers-feed cs k s bytes =
      modifiers-sum (feed cs (k, s)).1.0
      ∙ ap
          (λ (h : Keys).
            one (h.left_shift || h.right_shift) 1
            + one (h.left_ctrl || h.right_ctrl) 2
            + one h.alt_gr 4
            + one h.caps_lock 8)
          (keys-feed cs k s bytes)
