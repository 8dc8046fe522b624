-- ===== src/Interrupt/Delivery.antt =====
-- Which handlers `interrupt_raise` of src/kernel/core/interrupt.c calls, and in which order.
use lux_kernel.Base.{
  ℕ, zero, suc, ◌+◌, ◌<◌, ◌≡◌, refl, sym, ◌∙◌, ap, Bool, true, false, ◌&&◌, ◌||◌, ◌⊎◌, inl, inr,
  List, [], ◌∷◌, ◌++◌, leb, ◌==◌, if◌then◌else◌, get_or, set, take, drop, length, pos, negsuc,
  arith, Bool-cases, length-set, get_or-set_self,
}
use lux_kernel.Interrupt.{
  Subscription, Interrupts, cleared, max_handlers, signal_max, subscribe_loop, interrupt_subscribe,
  interrupt_unsubscribe, interrupt_dispatcher_init, clear_loop, Call, notify, raise_loop,
  interrupt_raise,
}

-- The handlers with their contexts that some slots hold for a signal, in the order of the slots.
unfoldable pub heard : ℕ → List Subscription → List (ℕ × ℕ)
heard signal [] = []
heard signal (x ∷ xs) =
    if x.active && x.signal == signal
    then (x.handler, x.context) ∷ heard signal xs
    else heard signal xs

module _ {W : Type 0} (call : Call W) where
  unfoldable pub tell : ℕ → List (ℕ × ℕ) → Interrupts × W → Interrupts × W
  tell signal [] s = s
  tell signal ((handler, context) ∷ xs) s = tell signal xs (call handler signal context s)

  -- The handlers leave the table alone.
  abbrev pub IsQuiet : Type 0
  IsQuiet =
      (handler signal context : ℕ) (s : Interrupts × W) → (call handler signal context s).0 ≡ s.0

drop-cons :
    (xs : List Subscription) (i : ℕ)
    → i < length xs
    → drop i xs ≡ get_or xs i cleared ∷ drop (suc i) xs
drop-cons [] i lt = elim lt [ ]
drop-cons (x ∷ xs) zero lt = refl
drop-cons (x ∷ xs) (suc i) lt = drop-cons xs i (omega arith)

drop-all : (xs : List Subscription) (i : ℕ) → i ≡ length xs → drop i xs ≡ []
drop-all [] zero e = refl
drop-all [] (suc i) e = refl
drop-all (x ∷ xs) zero e = absurd (omega arith)
drop-all (x ∷ xs) (suc i) e = drop-all xs i (omega arith)

module _ {W : Type 0} (call : Call W) (quiet : IsQuiet call) where
  notify-quiet :
      (signal : ℕ) (x : Subscription) (s : Interrupts × W) → (notify call signal x s).0 ≡ s.0
  unfolding notify
  notify-quiet signal x s = ground (arith, quiet x.handler signal x.context s)

  notify-tell :
      (signal : ℕ) (x : Subscription) (xs : List Subscription) (s : Interrupts × W)
      → tell call signal (heard signal xs) (notify call signal x s)
        ≡ tell call signal (heard signal (x ∷ xs)) s
  unfolding notify heard tell
  notify-tell signal x xs s = elim (Bool-cases x.active) [
    | inl on ↦ elim (Bool-cases (x.signal == signal)) [
      | inl same ↦ rw (on, same) refl
      | inr other ↦ rw (on, other) refl
    ]
    | inr off ↦ rw off refl
  ]

  raise_loop-tell :
      (rounds i signal : ℕ) (slots : List Subscription) (s : Interrupts × W)
      → s.0.subscriptions ≡ slots
      → i + rounds ≡ length slots
      → raise_loop call rounds i signal s ≡ tell call signal (heard signal (drop i slots)) s
  unfolding raise_loop
  raise_loop-tell zero i signal slots s e n =
      rw (drop-all slots i (omega arith)) (unfold heard tell in refl)
  raise_loop-tell (suc rounds) i signal slots s e n =
      let x = get_or slots i cleared in
      ap
        (λ (sl : List Subscription).
          raise_loop call rounds (i + 1) signal (notify call signal (get_or sl i cleared) s))
        e
      ∙ raise_loop-tell rounds (i + 1) signal slots (notify call signal x s)
          (ap (λ (t : Interrupts). t.subscriptions) (notify-quiet signal x s) ∙ e) (omega arith)
      ∙ ap (λ j. tell call signal (heard signal (drop j slots)) (notify call signal x s))
          {y = suc i} (omega arith)
      ∙ notify-tell signal x (drop (suc i) slots) s
      ∙ ap (λ d. tell call signal (heard signal d) s) (sym (drop-cons slots i (omega arith)))

  raise-tell :
      (signal : ℕ) (t : Interrupts) (w : W)
      → signal < signal_max
      → t.dispatcher_ready ≡ true
      → length t.subscriptions ≡ max_handlers
      → interrupt_raise call signal (t, w) ≡ tell call signal (heard signal t.subscriptions) (t, w)
  unfolding interrupt_raise
  raise-tell signal t w known ready n =
      let inside : leb signal_max signal ≡ false = ground arith in
      simp (inside, ready)
        (raise_loop-tell max_handlers 0 signal t.subscriptions (t, w) refl (sym n))

-- What a slot that takes a subscription adds to what is heard.
heard-set :
    (signal i : ℕ) (x : Subscription) (slots : List Subscription)
    → i < length slots
    → (get_or slots i cleared).active ≡ false
    → x.active ≡ true
    → x.signal ≡ signal
    → (heard signal slots ≡ heard signal (take i slots) ++ heard signal (drop (suc i) slots))
      × (heard signal (set slots i x)
          ≡ heard signal (take i slots)
            ++ (x.handler, x.context) ∷ heard signal (drop (suc i) slots))
unfolding heard
heard-set signal i x [] lt free on same = elim lt [ ]
heard-set signal zero x (y ∷ ys) lt free on same = ground arith
heard-set signal (suc i) x (y ∷ ys) lt free on same = ground (arith, heard-set signal i x ys)

-- `interrupt_subscribe` takes the first slot that is free.
subscribe_loop-first :
    (rounds i signal handler context : ℕ) (t : Interrupts)
    → i + rounds ≡ length t.subscriptions
    → let taken : Subscription = record {
      signal = signal;
      handler = handler;
      context = context;
      active = true;
    } in
      let r = subscribe_loop rounds i signal handler context t in
      (r ≡ (negsuc 0, t))
      ⊎ ((j : ℕ) × (r ≡ (pos j, record t { subscriptions = set t.subscriptions j taken }))
          × (j < length t.subscriptions)
          × ((get_or t.subscriptions j cleared).active ≡ false))
unfolding subscribe_loop
subscribe_loop-first zero i signal handler context t n = inl refl
subscribe_loop-first (suc rounds) i signal handler context t n =
    elim (Bool-cases (get_or t.subscriptions i cleared).active) [
      | inl busy ↦
          rw busy (subscribe_loop-first rounds (i + 1) signal handler context t (omega arith))
      | inr free ↦ rw free (inr (i, refl, omega arith, free))
    ]

heard-free :
    (signal i : ℕ) (x : Subscription) (slots : List Subscription)
    → i < length slots
    → x.active ≡ false
    → heard signal (set slots i x)
      ≡ heard signal (take i slots) ++ heard signal (drop (suc i) slots)
unfolding heard
heard-free signal i x [] lt off = elim lt [ ]
heard-free signal zero x (y ∷ ys) lt off = ground arith
heard-free signal (suc i) x (y ∷ ys) lt off = ground (arith, heard-free signal i x ys)

set-set :
    (slots : List Subscription) (i : ℕ) (x y : Subscription)
    → set (set slots i x) i y ≡ set slots i y
set-set [] i x y = refl
set-set (z ∷ zs) zero x y = refl
set-set (z ∷ zs) (suc i) x y = ap (λ t. z ∷ t) (set-set zs i x y)

heard-take_clear :
    (signal j : ℕ) (xs : List Subscription)
    → heard signal (take (j + 1) (set xs j cleared)) ≡ heard signal (take j xs)
unfolding heard
heard-take_clear signal j xs =
    ap (λ i. heard signal (take i (set xs j cleared))) {y = suc j} (omega arith) ∙ go j xs
  where
    go :
        (i : ℕ) (ys : List Subscription)
        → heard signal (take (suc i) (set ys i cleared)) ≡ heard signal (take i ys)
    go zero [] = refl
    go (suc i) [] = refl
    go zero (y ∷ ys) = refl
    go (suc i) (y ∷ ys) = ground (arith, go i ys)

-- Rounds of clearing leave what the slots before them hold.
heard-clear_loop :
    (rounds i signal : ℕ) (slots : List Subscription)
    → i + rounds ≡ length slots
    → (heard signal (clear_loop rounds i slots) ≡ heard signal (take i slots))
      × (length (clear_loop rounds i slots) ≡ length slots)
unfolding clear_loop
heard-clear_loop zero i signal slots n =
    (ap (heard signal) (sym (take-all slots i (omega arith))), refl)
  where
    take-all : (xs : List Subscription) (j : ℕ) → j ≡ length xs → take j xs ≡ xs
    take-all [] zero e = refl
    take-all [] (suc j) e = refl
    take-all (x ∷ xs) zero e = absurd (omega arith)
    take-all (x ∷ xs) (suc j) e = ap (λ t. x ∷ t) (take-all xs j (omega arith))
heard-clear_loop (suc rounds) i signal slots n =
    let same = length-set slots i cleared in
    let rest = heard-clear_loop rounds (i + 1) signal (set slots i cleared) (omega (arith, same)) in
    (rest.0 ∙ heard-take_clear signal i slots, rest.1 ∙ same)

abbrev taken_slot : ℕ → ℕ → ℕ → Subscription
taken_slot signal handler context = record {
  signal = signal;
  handler = handler;
  context = context;
  active = true;
}

pos-inj : (a b : ℕ) → pos a ≡ pos b → a ≡ b
pos-inj a b e = cc

-- What a subscription that succeeds did.
subscribed_lem :
    (signal handler context id : ℕ) (t t' : Interrupts)
    → length t.subscriptions ≡ max_handlers
    → interrupt_subscribe signal handler context t ≡ (pos id, t')
    → (t' ≡ record t { subscriptions = set t.subscriptions id (taken_slot signal handler context) })
      × (id < length t.subscriptions)
      × ((get_or t.subscriptions id cleared).active ≡ false)
unfolding interrupt_subscribe
subscribed_lem signal handler context id t t' n e =
    elim (Bool-cases (handler == 0 || leb signal_max signal)) [
      | inl bad ↦ absurd (failed bad)
      | inr good ↦ elim (subscribe_loop-first max_handlers 0 signal handler context t (sym n)) [
        | inl full ↦ absurd (failed_loop good full)
        | inr (j, r, lt, free) ↦ ground arith
      ]
    ]
  where
    failed : (handler == 0 || leb signal_max signal) ≡ true → ⊥
    failed bad = ground arith

    failed_loop :
        (handler == 0 || leb signal_max signal) ≡ false
        → subscribe_loop max_handlers 0 signal handler context t ≡ (negsuc 0, t)
        → ⊥
    failed_loop good full = ground arith

module _ {W : Type 0} (call : Call W) (quiet : IsQuiet call) where
  -- On a table of 16 slots that is ready, where the handlers leave the table alone: a subscription that
  -- succeeds puts its handler with its context at one place of the sequence of calls that a later
  -- raise of the signal makes, all other calls staying as they were and in their order, and
  -- cancelling it by the number returned succeeds and gives the sequence of before.
  pub subscribe-raise :
      (signal handler context id : ℕ) (t t' : Interrupts) (w : W)
      → signal < signal_max
      → t.dispatcher_ready ≡ true
      → length t.subscriptions ≡ max_handlers
      → interrupt_subscribe signal handler context t ≡ (pos id, t')
      → let (done, t'') = interrupt_unsubscribe (pos id) t' in
        (before after : List (ℕ × ℕ)) × (interrupt_raise call signal (t, w)
          ≡ tell call signal (before ++ after) (t, w))
        × (interrupt_raise call signal (t', w)
            ≡ tell call signal (before ++ (handler, context) ∷ after) (t', w))
        × (done ≡ true)
        × (interrupt_raise call signal (t'', w) ≡ tell call signal (before ++ after) (t'', w))
  unfolding interrupt_unsubscribe
  subscribe-raise signal handler context id t t' w known ready n e =
      let slots = t.subscriptions in
      let x = taken_slot signal handler context in
      let (same, lt, free) = subscribed_lem signal handler context id t t' n e in
      let y : Subscription = record x { active = false; handler = 0; context = 0 } in
      let t₁ : Interrupts = record t { subscriptions = set slots id x } in
      let t₂ : Interrupts = record t { subscriptions = set (set slots id x) id y } in
      let parts = heard-set signal id x slots lt free refl refl in
      let inside : leb max_handlers id ≡ false = ground (arith, n, lt) in
      rw same (
        rw (inside, get_or-set_self slots id x cleared lt)
          (
            heard signal (take id slots),
            heard signal (drop (suc id) slots),
            raise-tell call quiet signal t w known ready n
                ∙ ap (λ h. tell call signal h (t, w)) parts.0,
            raise-tell call quiet signal t₁ w known ready (length-set slots id x ∙ n)
                ∙ ap (λ h. tell call signal h (t₁, w)) parts.1,
            refl,
            raise-tell call quiet signal t₂ w known ready
                  (length-set (set slots id x) id y ∙ length-set slots id x ∙ n)
                ∙ ap (λ h. tell call signal h (t₂, w))
                    (ap (heard signal) (set-set slots id x y)
                      ∙ heard-free signal id y slots lt refl),
          ))

heard-none :
    (signal : ℕ) (x : Subscription) (xs : List Subscription)
    → heard signal (x ∷ xs) ≡ []
    → ((x.active && x.signal == signal) ≡ false) × (heard signal xs ≡ [])
unfolding heard
heard-none signal x xs e = go (x.active && x.signal == signal) e
  where
    go :
        (b : Bool)
        → (if b then (x.handler, x.context) ∷ heard signal xs else heard signal xs) ≡ []
        → (b ≡ false) × (heard signal xs ≡ [])
    go true h = absurd (omega (arith, ap length h))
    go false h = (refl, h)

module _ {W : Type 0} (call : Call W) where
  notify-unheard :
      (signal : ℕ) (x : Subscription) (s : Interrupts × W)
      → (x.active && x.signal == signal) ≡ false
      → notify call signal x s ≡ s
  unfolding notify
  notify-unheard signal x s off = ground arith

  -- Where no slot is heard, the handlers do not matter.
  raise_loop-unheard :
      (rounds i signal : ℕ) (slots : List Subscription) (s : Interrupts × W)
      → s.0.subscriptions ≡ slots
      → i + rounds ≡ length slots
      → heard signal (drop i slots) ≡ []
      → raise_loop call rounds i signal s ≡ s
  unfolding raise_loop
  raise_loop-unheard zero i signal slots s e n silent = refl
  raise_loop-unheard (suc rounds) i signal slots s e n silent =
      let x = get_or slots i cleared in
      let (off, rest) =
        heard-none signal x (drop (suc i) slots)
          (ap (heard signal) (sym (drop-cons slots i (omega arith))) ∙ silent) in
      ap
        (λ (sl : List Subscription).
          raise_loop call rounds (i + 1) signal (notify call signal (get_or sl i cleared) s))
        e
      ∙ ap (raise_loop call rounds (i + 1) signal) (notify-unheard signal x s off)
      ∙ raise_loop-unheard rounds (i + 1) signal slots s e (omega arith)
          (ap (λ j. heard signal (drop j slots)) {x = i + 1} {y = suc i} (omega arith) ∙ rest)

  -- A subscription that succeeds before `interrupt_dispatcher_init` has run is lost, whatever the handlers
  -- do: on a table of 16 slots that is not ready, the next raise of the signal empties the table and
  -- calls nothing.
  pub subscribe_early-lost :
      (signal handler context id : ℕ) (t t' : Interrupts) (w : W)
      → signal < signal_max
      → t.dispatcher_ready ≡ false
      → length t.subscriptions ≡ max_handlers
      → interrupt_subscribe signal handler context t ≡ (pos id, t')
      → interrupt_raise call signal (t', w) ≡ (interrupt_dispatcher_init t', w)
  unfolding interrupt_raise interrupt_dispatcher_init heard
  subscribe_early-lost signal handler context id t t' w known early n e =
      let x = taken_slot signal handler context in
      let slots = set t.subscriptions id x in
      let (same, lt, free) = subscribed_lem signal handler context id t t' n e in
      let inside : leb signal_max signal ≡ false = ground arith in
      let size : length slots ≡ max_handlers = length-set t.subscriptions id x ∙ n in
      let emptied = heard-clear_loop max_handlers 0 signal slots (sym size) in
      let ready : Interrupts = record {
        subscriptions = clear_loop max_handlers 0 slots;
        dispatcher_ready = true;
      } in
      rw same (
        simp (inside, early)
          (raise_loop-unheard max_handlers 0 signal (clear_loop max_handlers 0 slots) (ready, w)
            refl (sym size ∙ sym emptied.1) emptied.0))
