-- ===== src/Keyboard/Tests.antt =====
-- Runs of src/kernel/drivers/input/keyboard.c, and the theorems at them.
use lux_kernel.Base.{ℕ, ◌+◌, ◌≡◌, refl, true, none, some, List, [], ◌∷◌, ◌==◌, if◌then◌else◌, arith}
use lux_kernel.Keyboard.{
  Keyboard, boot_keyboard, Inb, keyboard_poll_char, process_pending, keyboard_process_scancode_irq,
  keyboard_process_scancode, press_key, press_extended, release_key, produce, keyboard_queue_event,
  store_event, make_room, translate_scancode, translate_extended_scancode, control_modifier_active,
  is_control_mappable, apply_control_mapping, is_letter_char, keyboard_current_modifiers,
  keyboard_modifiers,
}
use lux_kernel.Keyboard.Queue.{IsRing, put, get, run, run-serve, serve, push, pop}
use lux_kernel.Keyboard.Modifiers.{feed, modifiers-feed, strokes, held, toggled}
use lux_kernel.Keyboard.Polling.{IsController, Scans, keyboard_poll_char-Scans}

-- A signal is counted.
abbrev count_signal : ℕ → ℕ → ℕ
count_signal signal n = n + 1

abbrev booted : Keyboard × ℕ
booted = (boot_keyboard, 0)

-- Shift, a, shift up, a, control, c: "A", "a" and the byte 3, which raises the signal.
abbrev typed : List ℕ
typed = 0x2A ∷ 0x1E ∷ 0xAA ∷ 0x1E ∷ 0x1D ∷ 0x2E ∷ []

typed_text : (feed count_signal typed booted).0 ≡ 65 ∷ 97 ∷ 3 ∷ []
unfolding feed keyboard_process_scancode_irq process_pending keyboard_process_scancode press_key
    press_extended release_key produce keyboard_queue_event store_event make_room translate_scancode
    translate_extended_scancode control_modifier_active is_control_mappable apply_control_mapping
    is_letter_char keyboard_current_modifiers
typed_text = refl

typed_signals : (feed count_signal typed booted).1.1 ≡ 1
unfolding feed keyboard_process_scancode_irq process_pending keyboard_process_scancode press_key
    press_extended release_key produce keyboard_queue_event store_event make_room translate_scancode
    translate_extended_scancode control_modifier_active is_control_mappable apply_control_mapping
    is_letter_char keyboard_current_modifiers
typed_signals = refl

modifiers-feed_example : keyboard_modifiers (feed count_signal typed booted).1.0 ≡ 2
unfolding strokes held toggled
modifiers-feed_example = modifiers-feed count_signal typed boot_keyboard 0 (omega arith)

boot_keyboard-IsRing : IsRing boot_keyboard
boot_keyboard-IsRing = record { room = refl; tail = omega arith; count = omega arith; head = refl }

run-serve_example :
    run count_signal (put 120 ∷ get ∷ put 0 ∷ get ∷ []) booted
    ≡ some (record { symbol = 120; modifiers = 0; pressed = true }) ∷ none ∷ []
unfolding keyboard_current_modifiers serve push pop
run-serve_example =
    run-serve count_signal (put 120 ∷ get ∷ put 0 ∷ get ∷ []) boot_keyboard 0 boot_keyboard-IsRing

-- A controller that is the list of the bytes that wait in it.
abbrev rest : List ℕ → List ℕ
rest [] = []
rest (c ∷ cs) = cs

abbrev first : List ℕ → ℕ
first [] = 0
first (c ∷ cs) = c

abbrev full : List ℕ → ℕ
full [] = 0
full (c ∷ cs) = 1

abbrev list_inb : Inb (List ℕ)
list_inb port p = if port == 0x64 then (full p, p) else (first p, rest p)

list-IsController : IsController list_inb (λ p. p)
list-IsController = record {
  status_keeps = λ p. refl;
  status_empty = λ p e. rw e refl;
  status_full = λ p c cs e. rw e refl;
  data_first = λ p c cs e. rw e refl;
  data_rest = λ p c cs e. rw e refl;
}

keyboard_poll_char-Scans_example :
    Scans count_signal list_inb
      (λ p. p)
      typed
      booted
      (keyboard_poll_char count_signal list_inb 7 true booted typed)
keyboard_poll_char-Scans_example =
    keyboard_poll_char-Scans count_signal list_inb (λ p. p) list-IsController 7 booted typed
      (omega arith)
