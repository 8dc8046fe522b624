-- ===== src/Keyboard/Queue.antt =====
-- The ring of events of src/kernel/drivers/input/keyboard.c holds a queue of at most 64 events.
use lux_kernel.Base.{
  ℕ, zero, suc, ◌+◌, ◌-◌, ◌%◌, ◌≤◌, ◌<◌, ◌≡◌, ◌≢◌, refl, ◌∙◌, ap, ap₂, true, Option, none, some,
  List, [], ◌∷◌, ◌++◌, leb, ◌==◌, if◌then◌else◌, get_or, set, length, drop, length-set,
  get_or-set_self, get_or-set_ne, arith, Bool-cases, inl, inr, leb→le,
}
use lux_kernel.Keyboard.{
  Keyboard, Event, no_event, make_room, store_event, keyboard_dequeue_event, keyboard_queue_event,
  keyboard_current_modifiers,
}

-- The events from index `tail` on.
abbrev pub window : List Event → ℕ → ℕ → List Event
window queue tail zero = []
window queue tail (suc n) = get_or queue tail no_event ∷ window queue ((tail + 1) % 64) n

abbrev pub waiting : Keyboard → List Event
waiting k = window k.event_queue k.event_tail k.event_count

pub record IsRing (k : Keyboard) : Type 0 where
  pub room : length k.event_queue ≡ 64
  pub tail : k.event_tail < 64
  pub count : k.event_count ≤ 64
  pub head : k.event_head ≡ (k.event_tail + k.event_count) % 64

-- A queue that gives up its oldest element for a new one when 64 wait.
unfoldable pub push : List Event → Event → List Event
push q e = drop (length q - 63) q ++ e ∷ []

unfoldable pub pop : List Event → Option Event × List Event
pop [] = (none, [])
pop (e ∷ q) = (some e, q)

length-window : (queue : List Event) (tail n : ℕ) → length (window queue tail n) ≡ n
length-window queue tail zero = refl
length-window queue tail (suc n) = ap suc (length-window queue ((tail + 1) % 64) n)

-- A write behind a window of fewer than 64 events adds one at its end.
window-set :
    (queue : List Event) (tail n i : ℕ) (e : Event)
    → length queue ≡ 64
    → tail < 64
    → n < 64
    → i ≡ (tail + n) % 64
    → window (set queue i e) tail (suc n) ≡ window queue tail n ++ e ∷ []
window-set queue tail zero i e room lt small at =
    let here : i ≡ tail = omega arith in
    rw (here, get_or-set_self queue tail e no_event (omega arith))
window-set queue tail (suc n) i e room lt small at =
    ap₂ ◌∷◌ (get_or-set_ne queue i tail e no_event (λ same. omega arith))
      (window-set queue ((tail + 1) % 64) n i e room (omega arith) (omega arith) (omega arith))

make_room-IsRing :
    (k : Keyboard) → IsRing k → IsRing (make_room k) × ((make_room k).event_count < 64)
unfolding make_room
make_room-IsRing k r = ground arith

-- Only a full window gives up its first event.
drop-window :
    (queue : List Event) (tail n : ℕ)
    → n ≤ 64
    → drop (n - 63) (window queue tail n)
      ≡ (if leb 64 n then window queue ((tail + 1) % 64) (n - 1) else window queue tail n)
drop-window queue tail zero small = refl
drop-window queue tail (suc n) small = elim (Bool-cases (leb 64 (suc n))) [
  | inl full ↦ let last : n ≡ 63 = omega (arith, leb→le 64 (suc n) full) in rw last refl
  | inr free ↦ let none_dropped : suc n - 63 ≡ 0 = ground arith in rw (free, none_dropped) refl
]

make_room-waiting :
    (k : Keyboard) → IsRing k → waiting (make_room k) ≡ drop (length (waiting k) - 63) (waiting k)
unfolding make_room
make_room-waiting k r =
    rw (length-window, drop-window k.event_queue k.event_tail k.event_count r.count) (ground arith)

store_event-IsRing :
    (e : Event) (k : Keyboard) → IsRing k → k.event_count < 64 → IsRing (store_event e k)
unfolding store_event
store_event-IsRing e k r small = ground (arith, length-set k.event_queue k.event_head e)

store_event-waiting :
    (e : Event) (k : Keyboard)
    → IsRing k
    → k.event_count < 64
    → waiting (store_event e k) ≡ waiting k ++ e ∷ []
unfolding store_event
store_event-waiting e k r small =
    ap (window (set k.event_queue k.event_head e) k.event_tail) {y = suc k.event_count}
      (omega arith)
    ∙ window-set k.event_queue k.event_tail k.event_count k.event_head e r.room r.tail small r.head

pub data Op : Type 0 where
  put : ℕ → Op
  get : Op

abbrev pub event_of : ℕ → ℕ → Event
event_of held c = record { symbol = c; modifiers = held; pressed = true }

-- What the takers get from a queue.
unfoldable pub serve : ℕ → List Op → List Event → List (Option Event)
serve held [] q = []
serve held (put c ∷ ops) q = serve held ops (if c == 0 then q else push q (event_of held c))
serve held (get ∷ ops) q = (pop q).0 ∷ serve held ops (pop q).1

-- The queue operations leave the keys alone.
modifiers-store_event :
    (e : Event) (k : Keyboard)
    → keyboard_current_modifiers (store_event e (make_room k)) ≡ keyboard_current_modifiers k
unfolding store_event make_room keyboard_current_modifiers
modifiers-store_event e k = ground arith

modifiers-dequeue :
    (k : Keyboard)
    → keyboard_current_modifiers (keyboard_dequeue_event k).1 ≡ keyboard_current_modifiers k
unfolding keyboard_dequeue_event keyboard_current_modifiers
modifiers-dequeue k = ground arith

pub dequeue-IsRing : (k : Keyboard) → IsRing k → IsRing (keyboard_dequeue_event k).1
unfolding keyboard_dequeue_event
dequeue-IsRing k r = ground arith

window_cons :
    (queue : List Event) (tail n : ℕ)
    → n ≢ 0
    → window queue tail n ≡ get_or queue tail no_event ∷ window queue ((tail + 1) % 64) (n - 1)
window_cons queue tail zero some_wait = absurd (some_wait refl)
window_cons queue tail (suc n) some_wait =
    ap (λ rest. get_or queue tail no_event ∷ window queue ((tail + 1) % 64) rest) (omega arith)

dequeue-pop :
    (k : Keyboard)
    → IsRing k
    → ((keyboard_dequeue_event k).0, waiting (keyboard_dequeue_event k).1) ≡ pop (waiting k)
unfolding keyboard_dequeue_event pop
dequeue-pop k r = ground (arith, window_cons k.event_queue k.event_tail k.event_count)

module _ {S : Type 0} (interrupt_raise : ℕ → S → S) where
  pub queue-IsRing :
      (symbol : ℕ) (k : Keyboard) (s : S)
      → IsRing k
      → IsRing (keyboard_queue_event interrupt_raise symbol (k, s)).0
  unfolding keyboard_queue_event
  queue-IsRing symbol k s r = elim (Bool-cases (symbol == 0)) [
    | inl e ↦ rw e r
    | inr e ↦
        rw e (store_event-IsRing _ (make_room k) (make_room-IsRing k r).0 (make_room-IsRing k r).1)
  ]

  queue-push :
      (symbol : ℕ) (k : Keyboard) (s : S)
      → IsRing k
      → waiting (keyboard_queue_event interrupt_raise symbol (k, s)).0 ≡ (
          if symbol == 0
          then waiting k
          else push (waiting k) (event_of (keyboard_current_modifiers k) symbol))
  unfolding keyboard_queue_event push
  queue-push symbol k s r = elim (Bool-cases (symbol == 0)) [
    | inl e ↦ rw e refl
    | inr e ↦ rw e (
        store_event-waiting (event_of (keyboard_current_modifiers k) symbol) (make_room k)
          (make_room-IsRing k r).0 (make_room-IsRing k r).1
        ∙ ap (λ q. q ++ event_of (keyboard_current_modifiers k) symbol ∷ [])
            (make_room-waiting k r))
  ]

  modifiers-queue :
      (symbol : ℕ) (k : Keyboard) (s : S)
      → keyboard_current_modifiers (keyboard_queue_event interrupt_raise symbol (k, s)).0
        ≡ keyboard_current_modifiers k
  unfolding keyboard_queue_event
  modifiers-queue symbol k s = elim (Bool-cases (symbol == 0)) [
    | inl e ↦ rw e refl
    | inr e ↦ rw e (modifiers-store_event (event_of (keyboard_current_modifiers k) symbol) k)
  ]

  -- Symbols put into the ring and events taken out of it, and what the takers get.
  unfoldable pub run : List Op → Keyboard × S → List (Option Event)
  run [] m = []
  run (put c ∷ ops) m = run ops (keyboard_queue_event interrupt_raise c m)
  run (get ∷ ops) (k, s) = (keyboard_dequeue_event k).0 ∷ run ops ((keyboard_dequeue_event k).1, s)

  -- From a valid ring, any sequence of symbols put in and events taken out gives the takers what the queue
  -- of the waiting events gives, where a symbol of 0 is not put in, and the oldest event makes room
  -- for a new one when 64 wait; each event carries the modifiers that are held.
  pub run-serve :
      (ops : List Op) (k : Keyboard) (s : S)
      → IsRing k
      → run ops (k, s) ≡ serve (keyboard_current_modifiers k) ops (waiting k)
  unfolding run serve
  run-serve [] k s r = refl
  run-serve (put c ∷ ops) k s r =
      let m = keyboard_queue_event interrupt_raise c (k, s) in
      run-serve ops m.0 m.1 (queue-IsRing c k s r)
      ∙ ap₂ (λ held q. serve held ops q) (modifiers-queue c k s) (queue-push c k s r)
  run-serve (get ∷ ops) k s r =
      let same = dequeue-pop k r in
      ap₂ ◌∷◌ (ap (λ t. t.0) same) (
        run-serve ops (keyboard_dequeue_event k).1 s (dequeue-IsRing k r)
        ∙ ap₂ (λ held q. serve held ops q) (modifiers-dequeue k) (ap (λ t. t.1) same))
