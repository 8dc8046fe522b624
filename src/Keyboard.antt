-- ===== src/Keyboard.antt =====
-- src/kernel/drivers/input/keyboard.c and src/kernel/core/idt.c. A `char` is the byte that stands for
-- it, 0 to 255; the comparisons of the source give the same on a signed `char`. `interrupt_raise` of
-- src/kernel/core/interrupt.c, with what it acts on, and the port reads are parameters; a character that
-- goes through `out_char` is an option, `none` where the function returns false.
mod Layout
pub use Layout.{LayoutMap, layout_en_us, layout_de_de, keyboard_map_size}
pub mod Queue
pub mod Modifiers
pub mod Polling
mod Tests
use lux_kernel.Base.{
  ℕ, zero, suc, ◌+◌, ◌-◌, ◌%◌, bit_and, bit_or, Bool, true, false, not, ◌&&◌, ◌||◌, Option, none,
  some, List, leb, ◌==◌, if◌then◌else◌, get_or, set, replicate,
}
use lux_kernel.Interrupt.{signal_ctrl_c}

abbrev pub event_capacity : ℕ
event_capacity = 64

-- `struct keyboard_event`
pub record Event : Type 0 where
  pub symbol : ℕ
  pub modifiers : ℕ
  pub pressed : Bool

abbrev pub no_event : Event
no_event = record { symbol = 0; modifiers = 0; pressed = false }

-- The static variables of the file.
pub record Keyboard : Type 0 where
  pub current_layout : LayoutMap
  pub left_shift_pressed : Bool
  pub right_shift_pressed : Bool
  pub left_ctrl_pressed : Bool
  pub right_ctrl_pressed : Bool
  pub caps_lock_active : Bool
  pub extended_scancode_pending : Bool
  pub alt_gr_active : Bool
  pub event_queue : List Event
  pub event_head : ℕ
  pub event_tail : ℕ
  pub event_count : ℕ

-- The variables as they start.
abbrev pub boot_keyboard : Keyboard
boot_keyboard = record {
  current_layout = layout_de_de;
  left_shift_pressed = false;
  right_shift_pressed = false;
  left_ctrl_pressed = false;
  right_ctrl_pressed = false;
  caps_lock_active = false;
  extended_scancode_pending = false;
  alt_gr_active = false;
  event_queue = replicate event_capacity no_event;
  event_head = 0;
  event_tail = 0;
  event_count = 0;
}

unfoldable pub is_control_mappable : ℕ → Bool
is_control_mappable c = (leb b'a' c && leb c b'z') || (leb b'A' c && leb c b'Z')

unfoldable pub is_letter_char : ℕ → Bool
is_letter_char c =
    if (leb b'a' c && leb c b'z') || (leb b'A' c && leb c b'Z')
    then true
    else c == 0xE4 || c == 0xC4 || c == 0xF6 || c == 0xD6 || c == 0xFC || c == 0xDC

unfoldable pub translate_scancode : ℕ → Keyboard → ℕ
translate_scancode scancode k =
    let normal = get_or k.current_layout.normal scancode 0 in
    let shifted = get_or k.current_layout.shifted scancode 0 in
    let altgr = get_or k.current_layout.altgr scancode 0 in
    let shift_active = k.left_shift_pressed || k.right_shift_pressed in
    let use_shifted =
      if k.caps_lock_active && is_letter_char normal then not shift_active else shift_active in
    if leb keyboard_map_size scancode
    then 0
    else if k.alt_gr_active && not (altgr == 0)
    then altgr
    else if use_shifted && not (shifted == 0)
    then shifted
    else normal

unfoldable pub translate_extended_scancode : ℕ → ℕ
translate_extended_scancode scancode =
    if scancode == 0x48
    then 0x80
    else if scancode == 0x50
    then 0x81
    else if scancode == 0x4B
    then 0x82
    else if scancode == 0x4D
    then 0x83
    else if scancode == 0x53
    then 0x84
    else if scancode == 0x47
    then 0x85
    else if scancode == 0x4F
    then 0x86
    else 0

unfoldable pub control_modifier_active : Keyboard → Bool
control_modifier_active k = k.left_ctrl_pressed || k.right_ctrl_pressed

unfoldable pub apply_control_mapping : ℕ → ℕ
apply_control_mapping c =
    if leb b'a' c && leb c b'z'
    then c - b'a' + 1
    else if leb b'A' c && leb c b'Z'
    then c - b'A' + 1
    else c

unfoldable pub keyboard_current_modifiers : Keyboard → ℕ
keyboard_current_modifiers k =
    let shift : ℕ = if k.left_shift_pressed || k.right_shift_pressed then bit_or 0 0x01 else 0 in
    let ctrl : ℕ =
      if k.left_ctrl_pressed || k.right_ctrl_pressed then bit_or shift 0x02 else shift in
    let altgr : ℕ = if k.alt_gr_active then bit_or ctrl 0x04 else ctrl in
    if k.caps_lock_active then bit_or altgr 0x08 else altgr

unfoldable pub keyboard_modifiers : Keyboard → ℕ
keyboard_modifiers k = keyboard_current_modifiers k

-- The oldest event is given up when there is no room.
unfoldable pub make_room : Keyboard → Keyboard
make_room k =
    if leb event_capacity k.event_count
    then record k {
      event_tail = (k.event_tail + 1) % event_capacity;
      event_count = k.event_count - 1;
    }
    else k

unfoldable pub store_event : Event → Keyboard → Keyboard
store_event event k = record k {
  event_queue = set k.event_queue k.event_head event;
  event_head = (k.event_head + 1) % event_capacity;
  event_count = k.event_count + 1;
}

unfoldable pub keyboard_dequeue_event : Keyboard → Option Event × Keyboard
keyboard_dequeue_event k = if k.event_count == 0 then (none, k) else (
  some (get_or k.event_queue k.event_tail no_event),
  record k { event_tail = (k.event_tail + 1) % event_capacity; event_count = k.event_count - 1 },
)

-- `enum keyboard_layout`; `other` is any value that names no layout.
pub data LayoutName : Type 0 where
  en_us de_de other : LayoutName

unfoldable pub keyboard_set_layout : LayoutName → Keyboard → Keyboard
keyboard_set_layout de_de k = record k { current_layout = layout_de_de }
keyboard_set_layout en_us k = record k { current_layout = layout_en_us }
keyboard_set_layout other k = record k { current_layout = layout_en_us }

-- The part of `keyboard_process_scancode` for a key that is let go.
unfoldable pub release_key : ℕ → Bool → Keyboard → Keyboard
release_key make_code is_extended k =
    if make_code == 0x2A
    then record k { left_shift_pressed = false }
    else if make_code == 0x36
    then record k { right_shift_pressed = false }
    else if make_code == 0x38 && is_extended
    then record k { alt_gr_active = false }
    else if make_code == 0x1D
    then (if is_extended
        then record k { right_ctrl_pressed = false }
        else record k { left_ctrl_pressed = false })
    else k

module _ {S : Type 0} (interrupt_raise : ℕ → S → S) where
  unfoldable pub keyboard_queue_event : ℕ → Keyboard × S → Keyboard × S
  keyboard_queue_event symbol (k, s) =
      let event : Event = record {
        symbol = symbol;
        modifiers = keyboard_current_modifiers k;
        pressed = true;
      } in
      if symbol == 0 then (k, s) else (
        store_event event (make_room k),
        if symbol == 0x03 then interrupt_raise signal_ctrl_c s else s,
      )

  -- The character goes out and into the queue.
  unfoldable pub produce : ℕ → Keyboard × S → Option ℕ × (Keyboard × S)
  produce c m = (some c, keyboard_queue_event c m)

  unfoldable pub press_extended : ℕ → Keyboard × S → Option ℕ × (Keyboard × S)
  press_extended scancode (k, s) =
      let extended = translate_extended_scancode scancode in
      if scancode == 0x38
      then (none, (record k { alt_gr_active = true }, s))
      else if scancode == 0x1D
      then (none, (record k { right_ctrl_pressed = true }, s))
      else if not (extended == 0)
      then produce extended (k, s)
      else (none, (k, s))

  unfoldable pub press_key : ℕ → Keyboard × S → Option ℕ × (Keyboard × S)
  press_key scancode (k, s) =
      let translated = translate_scancode scancode k in
      if scancode == 0x2A
      then (none, (record k { left_shift_pressed = true }, s))
      else if scancode == 0x36
      then (none, (record k { right_shift_pressed = true }, s))
      else if scancode == 0x1D
      then (none, (record k { left_ctrl_pressed = true }, s))
      else if scancode == 0x38
      then (none, (k, s))
      else if scancode == 0x3A
      then (none, (record k { caps_lock_active = not k.caps_lock_active }, s))
      else if translated == 0
      then (none, (k, s))
      else if control_modifier_active k && is_control_mappable translated
      then produce (apply_control_mapping translated) (k, s)
      else produce translated (k, s)

  unfoldable pub keyboard_process_scancode : ℕ → Bool → Keyboard × S → Option ℕ × (Keyboard × S)
  keyboard_process_scancode scancode is_extended (k, s) =
      if not (bit_and scancode 0x80 == 0)
      then (none, (release_key (bit_and scancode 0x7F) is_extended k, s))
      else if is_extended
      then press_extended scancode (k, s)
      else press_key scancode (k, s)

  -- `is_extended` takes the mark of a prefix away.
  unfoldable pub process_pending : ℕ → Keyboard × S → Option ℕ × (Keyboard × S)
  process_pending scancode (k, s) =
      if k.extended_scancode_pending
      then keyboard_process_scancode scancode true
          (record k { extended_scancode_pending = false }, s)
      else keyboard_process_scancode scancode false (k, s)

  unfoldable pub keyboard_process_scancode_irq : ℕ → Keyboard × S → Option ℕ × (Keyboard × S)
  keyboard_process_scancode_irq scancode (k, s) =
      if scancode == 0xE0
      then (none, (record k { extended_scancode_pending = true }, s))
      else process_pending scancode (k, s)

-- `inb`: the value of a port, and what the read does to the controller.
abbrev pub Inb : Type 0 → Type 0
Inb P = ℕ → P → ℕ × P

abbrev pub status_port : ℕ
status_port = 0x64

abbrev pub data_port : ℕ
data_port = 0x60

abbrev pub status_out_buffer : ℕ
status_out_buffer = 0x01

-- `if (keyboard_process_scancode(...)) return true;` in the loop
abbrev pub stop_at : {R : Type 0} → Option ℕ → R → (ℕ → R) → R
stop_at none rest stop = rest
stop_at (some c) rest stop = stop c

module _ {S P : Type 0} (interrupt_raise : ℕ → S → S) (inb : Inb P) where
  -- The loop over the scan codes that wait; `none` means that the rounds ran out.
  unfoldable pub scan_loop : ℕ → Keyboard × S → P → Option (Option ℕ × (Keyboard × S) × P)
  scan_loop zero m p = none
  scan_loop (suc fuel) (k, s) p =
      let (status, p₁) = inb status_port p in
      let (scancode, p₂) = inb data_port p₁ in
      let marked = scan_loop fuel (record k { extended_scancode_pending = true }, s) p₂ in
      let (c, m) = process_pending interrupt_raise scancode (k, s) in
      let rest = scan_loop fuel m p₂ in
      if bit_and status status_out_buffer == 0
      then some (none, (k, s), p₁)
      else if scancode == 0xE0
      then marked
      else stop_at c rest (λ c. some (some c, m, p₂))

  unfoldable pub keyboard_scan_symbol :
      ℕ → Bool → Keyboard × S → P → Option (Option ℕ × (Keyboard × S) × P)
  keyboard_scan_symbol fuel has_out m p =
      if not has_out then some (none, m, p) else scan_loop fuel m p

  unfoldable pub keyboard_poll_char :
      ℕ → Bool → Keyboard × S → P → Option (Option ℕ × (Keyboard × S) × P)
  keyboard_poll_char fuel has_out m p = keyboard_scan_symbol fuel has_out m p

  -- `keyboard_poll_event` takes an event out of the queue, whatever the scan gave.
  unfoldable pub dequeued :
      Option (Option ℕ × (Keyboard × S) × P) → Option (Option Event × (Keyboard × S) × P)
  dequeued none = none
  dequeued (some (c, (k, s), p)) = let (e, k') = keyboard_dequeue_event k in some (e, (k', s), p)

  unfoldable pub keyboard_poll_event :
      ℕ → Bool → Keyboard × S → P → Option (Option Event × (Keyboard × S) × P)
  unfolding dequeued
  keyboard_poll_event fuel has_event m p =
      if not has_event then some (none, m, p) else dequeued (keyboard_scan_symbol fuel true m p)

  -- The two that wait: each round is a poll, and `none` means that the rounds ran out.
  unfoldable pub keyboard_read_char : ℕ → ℕ → Keyboard × S → P → Option (ℕ × (Keyboard × S) × P)
  keyboard_read_char fuel zero m p = none
  keyboard_read_char fuel (suc rounds) m p = elim (keyboard_poll_char fuel true m p) [
    | none ↦ none
    | some (none, m', p') ↦ keyboard_read_char fuel rounds m' p'
    | some (some c, m', p') ↦ some (c, m', p')
  ]

  unfoldable pub keyboard_read_event :
      ℕ → ℕ → Bool → Keyboard × S → P → Option (Option Event × (Keyboard × S) × P)
  keyboard_read_event fuel zero has_event m p = none
  keyboard_read_event fuel (suc rounds) has_event m p =
      let rest = λ (n : Keyboard × S) (q : P). keyboard_read_event fuel rounds has_event n q in
      if not has_event then some (none, m, p) else elim (keyboard_poll_event fuel true m p) [
        | none ↦ none
        | some (none, m', p') ↦ rest m' p'
        | some (some e, m', p') ↦ some (some e, m', p')
      ]

  unfoldable pub keyboard_irq_handler_c : Keyboard × S → P → (Keyboard × S) × P
  keyboard_irq_handler_c m p =
      let (scancode, p') = inb data_port p in
      ((keyboard_process_scancode_irq interrupt_raise scancode m).1, p')
