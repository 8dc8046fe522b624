-- ===== src/Interrupt.antt =====
-- src/kernel/core/interrupt.c. A handler is the address of a function, 0 for a null pointer, and so is a
-- context. What the function at an address does is the parameter `call`; it may change the table too.
pub mod Delivery
mod Tests
use lux_kernel.Base.{
  ℕ, zero, suc, ◌+◌, Bool, true, false, not, ◌||◌, List, leb, ◌==◌, if◌then◌else◌, get_or, set, ℤ,
  pos, negsuc,
}

abbrev pub max_handlers : ℕ
max_handlers = 16

abbrev pub signal_ctrl_c : ℕ
signal_ctrl_c = 0

abbrev pub signal_max : ℕ
signal_max = 1

pub record Subscription : Type 0 where
  pub signal : ℕ
  pub handler : ℕ
  pub context : ℕ
  pub active : Bool

-- `subscriptions` and `dispatcher_ready`
pub record Interrupts : Type 0 where
  pub subscriptions : List Subscription
  pub dispatcher_ready : Bool

abbrev pub cleared : Subscription
cleared = record { signal = signal_ctrl_c; handler = 0; context = 0; active = false }

-- The loop of `interrupt_dispatcher_init`, which sets every field of each slot.
unfoldable pub clear_loop : ℕ → ℕ → List Subscription → List Subscription
clear_loop zero i slots = slots
clear_loop (suc rounds) i slots = clear_loop rounds (i + 1) (set slots i cleared)

unfoldable pub interrupt_dispatcher_init : Interrupts → Interrupts
unfolding clear_loop
interrupt_dispatcher_init t = if t.dispatcher_ready then t else record {
  subscriptions = clear_loop max_handlers 0 t.subscriptions;
  dispatcher_ready = true;
}

unfoldable pub subscribe_loop : ℕ → ℕ → ℕ → ℕ → ℕ → Interrupts → ℤ × Interrupts
subscribe_loop zero i signal handler context t = (negsuc 0, t)
subscribe_loop (suc rounds) i signal handler context t =
    let rest = subscribe_loop rounds (i + 1) signal handler context t in
    let taken : Subscription = record {
      signal = signal;
      handler = handler;
      context = context;
      active = true;
    } in
    if not (get_or t.subscriptions i cleared).active
    then (pos i, record t { subscriptions = set t.subscriptions i taken })
    else rest

unfoldable pub interrupt_subscribe : ℕ → ℕ → ℕ → Interrupts → ℤ × Interrupts
interrupt_subscribe signal handler context t =
    if handler == 0 || leb signal_max signal
    then (negsuc 0, t)
    else subscribe_loop max_handlers 0 signal handler context t

unfoldable pub interrupt_unsubscribe : ℤ → Interrupts → Bool × Interrupts
interrupt_unsubscribe (negsuc n) t = (false, t)
interrupt_unsubscribe (pos id) t =
    let slot = get_or t.subscriptions id cleared in
    let freed : Subscription = record slot { active = false; handler = 0; context = 0 } in
    if leb max_handlers id
    then (false, t)
    else (true, record t { subscriptions = set t.subscriptions id freed })

-- The arguments are the address, the signal and the context.
abbrev pub Call : Type 0 → Type 0
Call W = ℕ → ℕ → ℕ → Interrupts × W → Interrupts × W

module _ {W : Type 0} (call : Call W) where
  -- One round: what the slot asks for.
  unfoldable pub notify : ℕ → Subscription → Interrupts × W → Interrupts × W
  notify signal slot s =
      if not slot.active
      then s
      else if not (slot.signal == signal)
      then s
      else call slot.handler signal slot.context s

  unfoldable pub raise_loop : ℕ → ℕ → ℕ → Interrupts × W → Interrupts × W
  raise_loop zero i signal s = s
  raise_loop (suc rounds) i signal s =
      raise_loop rounds (i + 1) signal (notify signal (get_or s.0.subscriptions i cleared) s)

  unfoldable pub interrupt_raise : ℕ → Interrupts × W → Interrupts × W
  interrupt_raise signal (t, w) =
      let ready = if not t.dispatcher_ready then interrupt_dispatcher_init t else t in
      if leb signal_max signal then (t, w) else raise_loop max_handlers 0 signal (ready, w)
