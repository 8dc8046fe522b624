-- ===== src/Keyboard/Polling.antt =====
-- The polling loop of src/kernel/drivers/input/keyboard.c against the interrupt handler.
use lux_kernel.Base.{
  ℕ, zero, suc, ◌<◌, ◌≡◌, refl, sym, ◌∙◌, ap, bit_and, true, false, Option, none, some, List, [],
  ◌∷◌, ◌++◌, ◌==◌, length, arith, Bool-cases, Option-cases, inl, inr,
}
use lux_kernel.Keyboard.{
  Keyboard, Inb, scan_loop, keyboard_scan_symbol, keyboard_poll_char, process_pending,
  keyboard_process_scancode_irq, status_port, data_port, status_out_buffer,
}
use lux_kernel.Keyboard.Modifiers.{feed, given}

-- A keyboard controller in which bytes wait: the status tells whether one does, and a read of the
-- data port takes the first.
pub record IsController {P : Type 0} (inb : Inb P) (pending : P → List ℕ) : Type 0 where
  pub status_keeps : (p : P) → pending (inb status_port p).1 ≡ pending p
  pub status_empty :
      (p : P) → pending p ≡ [] → (bit_and (inb status_port p).0 status_out_buffer == 0) ≡ true
  pub status_full :
      (p : P) (c : ℕ) (cs : List ℕ)
      → pending p ≡ c ∷ cs
      → (bit_and (inb status_port p).0 status_out_buffer == 0) ≡ false
  pub data_first : (p : P) (c : ℕ) (cs : List ℕ) → pending p ≡ c ∷ cs → (inb data_port p).0 ≡ c
  pub data_rest :
      (p : P) (c : ℕ) (cs : List ℕ) → pending p ≡ c ∷ cs → pending (inb data_port p).1 ≡ cs

module _ {S P : Type 0} (interrupt_raise : ℕ → S → S) (inb : Inb P) (pending : P → List ℕ) where
  -- The loop ended, and it did what the interrupts do with the bytes that it took: they bring out at most
  -- the character that it returns, and it takes all that wait when it returns none.
  abbrev pub Scans : List ℕ → Keyboard × S → Option (Option ℕ × (Keyboard × S) × P) → Type 0
  Scans cs m none = ⊥
  Scans cs m (some (c, m', p')) =
      (taken : List ℕ) × (cs ≡ taken ++ pending p')
      × (feed interrupt_raise taken m ≡ (given c, m'))
      × (c ≡ none → pending p' ≡ [])

  Scans-silent :
      (c : ℕ) (cs : List ℕ) (m m' : Keyboard × S) (o : Option (Option ℕ × (Keyboard × S) × P))
      → keyboard_process_scancode_irq interrupt_raise c m ≡ (none, m')
      → Scans cs m' o
      → Scans (c ∷ cs) m o
  unfolding feed
  Scans-silent c cs m m' none silent h = h
  Scans-silent c cs m m' (some (r, n, p)) silent (taken, split, fed, all) =
      (c ∷ taken, ap (λ t. c ∷ t) split, rw silent (rw fed refl), all)

  module _ (law : IsController inb pending) where
    scan_loop-Scans :
        (fuel : ℕ) (cs : List ℕ) (k : Keyboard) (s : S) (p : P)
        → pending p ≡ cs
        → length cs < fuel
        → Scans cs (k, s) (scan_loop interrupt_raise inb fuel (k, s) p)
    unfolding scan_loop
    scan_loop-Scans zero cs k s p e lt = elim lt [ ]
    scan_loop-Scans (suc fuel) [] k s p e lt =
        rw (law.status_empty p e)
          ([], sym (law.status_keeps p ∙ e), unfold feed in refl, λ _. law.status_keeps p ∙ e)
    scan_loop-Scans (suc fuel) (c ∷ cs) k s p e lt =
        let e₁ = law.status_keeps p ∙ e in
        let q = (inb data_port (inb status_port p).1).1 in
        let left = law.data_rest (inb status_port p).1 c cs e₁ in
        rw (law.status_full p c cs e, law.data_first (inb status_port p).1 c cs e₁)
          (elim (Bool-cases (c == 0xE0)) [
            | inl prefix ↦ rw prefix (
                Scans-silent c cs (k, s) (record k { extended_scancode_pending = true }, s) _
                  (unfold keyboard_process_scancode_irq in rw prefix refl)
                  (scan_loop-Scans fuel cs (record k { extended_scancode_pending = true }) s q left
                    (omega arith)))
            | inr code ↦ rw code (elim (Option-cases (process_pending interrupt_raise c (k, s)).0) [
              | inl silent ↦ rw silent (
                  let m = (process_pending interrupt_raise c (k, s)).1 in
                  Scans-silent c cs (k, s) m _
                    (unfold keyboard_process_scancode_irq in rw code (ap (λ o. (o, m)) silent))
                    (scan_loop-Scans fuel cs m.0 m.1 q left (omega arith)))
              | inr (r, out) ↦ rw out (
                c ∷ [],
                ap (λ t. c ∷ t) (sym left),
                unfold feed keyboard_process_scancode_irq in rw (code, out) refl,
                λ absent. cc,
              )
            ])
          ])

    -- Where so many bytes wait in the controller and the fuel is more, `keyboard_poll_char` ends, and does
    -- what the interrupt handler does with the bytes that it takes, in their order: they leave the same
    -- keyboard behind, with the same queue of events and the same calls of `interrupt_raise`, and bring out
    -- the character that the poll returns and no other. A poll that returns none takes all that wait.
    pub keyboard_poll_char-Scans :
        (fuel : ℕ) (m : Keyboard × S) (p : P)
        → length (pending p) < fuel
        → Scans (pending p) m (keyboard_poll_char interrupt_raise inb fuel true m p)
    unfolding keyboard_poll_char keyboard_scan_symbol
    keyboard_poll_char-Scans fuel (k, s) p lt = scan_loop-Scans fuel (pending p) k s p refl lt
