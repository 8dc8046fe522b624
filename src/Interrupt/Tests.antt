-- ===== src/Interrupt/Tests.antt =====
-- Runs of src/kernel/core/interrupt.c, and the theorems at them.
use lux_kernel.Base.{ℕ, ◌≡◌, refl, Bool, true, false, List, [], ◌∷◌, ◌++◌, pos, replicate, arith}
use lux_kernel.Interrupt.{
  Interrupts, cleared, Call, interrupt_raise, interrupt_subscribe, subscribe_loop,
  interrupt_unsubscribe, interrupt_dispatcher_init, raise_loop, notify,
}
use lux_kernel.Interrupt.Delivery.{tell, subscribe-raise, subscribe_early-lost}

-- A handler notes its address and its context.
abbrev noted : Call (List (ℕ × ℕ))
noted handler signal context (t, w) = (t, w ++ (handler, context) ∷ [])

abbrev fresh : Bool → Interrupts
fresh ready = record { subscriptions = replicate 16 cleared; dispatcher_ready = ready }

abbrev first_taken : Bool → Interrupts
first_taken ready = record {
  subscriptions =
      record { signal = 0; handler = 7; context = 9; active = true } ∷ replicate 15 cleared;
  dispatcher_ready = ready;
}

takes_first : (ready : Bool) → interrupt_subscribe 0 7 9 (fresh ready) ≡ (pos 0, first_taken ready)
unfolding interrupt_subscribe subscribe_loop
takes_first ready = refl

calls_once : (interrupt_raise noted 0 (first_taken true, [])).1 ≡ (7, 9) ∷ []
unfolding interrupt_raise raise_loop notify
calls_once = refl

subscribe-raise_example :
    let (done, t'') = interrupt_unsubscribe (pos 0) (first_taken true) in
    (before after : List (ℕ × ℕ)) × (interrupt_raise noted 0 (fresh true, [])
      ≡ tell noted 0 (before ++ after) (fresh true, []))
    × (interrupt_raise noted 0 (first_taken true, [])
        ≡ tell noted 0 (before ++ (7, 9) ∷ after) (first_taken true, []))
    × (done ≡ true)
    × (interrupt_raise noted 0 (t'', []) ≡ tell noted 0 (before ++ after) (t'', []))
subscribe-raise_example =
    subscribe-raise noted (λ h g c s. refl) 0 7 9 0 (fresh true) (first_taken true) [] (omega arith)
      refl refl (takes_first true)

subscribe_early-lost_example :
    interrupt_raise noted 0 (first_taken false, [])
    ≡ (interrupt_dispatcher_init (first_taken false), [])
subscribe_early-lost_example =
    subscribe_early-lost noted 0 7 9 0 (fresh false) (first_taken false) [] (omega arith) refl refl
      (takes_first false)
