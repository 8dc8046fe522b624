-- ===== src/Printf/Digits.antt =====
-- `emit_unsigned_base` of src/kernel/lib/printf.c writes a number in positional notation.
use lux_kernel.Base.{
  ℕ, zero, suc, ◌+◌, ◌-◌, ◌*◌, ◌/◌, ◌%◌, ◌^◌, ◌≤◌, ◌<◌, ◌≡◌, refl, sym, ap, ◌∙◌, Bool, true, false,
  List, [], ◌∷◌, ltb, ◌==◌, if◌then◌else◌, get_or, drop, length, arith, Bool-cases, inl, inr,
  tested, tested-at, ==_iff, le→ltb,
}
use native.Mathlib.Nat.{mul_comm, mul-le-mul_right, div-add-mod, mod-lt, mod-add-div, two-pow-succ}
use lux_kernel.Printf.{
  Emit, Out, digit_char, digit_loop, digit_buffer, emit_char, emit_back, emit_unsigned_base,
}
use lux_kernel.Printf.Text.{emit_all, say, out_eq}

-- The value of a digit, in either case.
unfoldable pub digit_value : ℕ → ℕ
digit_value c = if ltb c 58 then c - 48 else if ltb c 71 then c - 55 else c - 87

-- A text read as a number, the highest digit first.
unfoldable pub read_number : ℕ → ℕ → List ℕ → ℕ
read_number base acc [] = acc
read_number base acc (c ∷ cs) = read_number base (acc * base + digit_value c) cs

-- The number that a buffer holds, the lowest digit first.
held : ℕ → List ℕ → ℕ
held base [] = 0
held base (c ∷ cs) = digit_value c + base * held base cs

back_text : List ℕ → ℕ → List ℕ
back_text buffer zero = []
back_text buffer (suc n) = get_or buffer n 0 ∷ back_text buffer n

digits_table :
    (tested (λ d. digit_value (digit_char true d) == d) 16 ≡ true)
    × (tested (λ d. digit_value (digit_char false d) == d) 16 ≡ true)
unfolding digit_value digit_char tested
digits_table = (refl, refl)

digit_value-digit_char :
    (uppercase : Bool) (d : ℕ) → d < 16 → digit_value (digit_char uppercase d) ≡ d
digit_value-digit_char true d lt = (==_iff _ d).0 (tested-at _ 16 d lt digits_table.0)
digit_value-digit_char false d lt = (==_iff _ d).0 (tested-at _ 16 d lt digits_table.1)

held-drop :
    (base : ℕ) (buffer : List ℕ) (n : ℕ)
    → n < length buffer
    → held base (drop n buffer)
      ≡ held base (drop (suc n) buffer) * base + digit_value (get_or buffer n 0)
unfolding held
held-drop base [] n lt = elim lt [ ]
held-drop base (c ∷ cs) zero lt = omega (arith, mul_comm base (held base cs))
held-drop base (c ∷ cs) (suc n) lt = held-drop base cs n (omega arith)

read_number-back :
    (base : ℕ) (buffer : List ℕ) (n : ℕ)
    → n ≤ length buffer
    → read_number base (held base (drop n buffer)) (back_text buffer n) ≡ held base buffer
unfolding read_number back_text
read_number-back base buffer zero le = refl
read_number-back base buffer (suc n) le =
    ap (λ acc. read_number base acc (back_text buffer n))
      (sym (held-drop base buffer n (omega arith)))
    ∙ read_number-back base buffer n (omega arith)

half : (value base : ℕ) → 2 ≤ base → 2 * (value / base) ≤ value
half value base two = omega (arith, mul-le-mul_right (value / base) two, div-add-mod value base)

held-digit_loop :
    (uppercase : Bool) (base room value : ℕ)
    → 2 ≤ base
    → base ≤ 16
    → value < 2 ^ room
    → held base (digit_loop uppercase base room value) ≡ value
unfolding held digit_loop
held-digit_loop uppercase base zero value two most small = omega (arith, small)
held-digit_loop uppercase base (suc room) value two most small = elim (Bool-cases (value == 0)) [
  | inl e ↦ rw e (sym ((==_iff value 0).0 e))
  | inr e ↦ rw e (
      let d : value % base < 16 =
        omega (arith, mod-lt value {m = base} (omega (arith, two)), most) in
      let power = two-pow-succ room in
      let rest =
        held-digit_loop uppercase base room (value / base) two most
          (omega (arith, half value base two, small, power)) in
      rw (digit_value-digit_char uppercase (value % base) d, rest) (mod-add-div value base))
]

emit_back-say :
    {S : Type 0} (emit : Emit S) (buffer : List ℕ) (n : ℕ) (out : Out S)
    → emit_back emit buffer n out ≡ say emit (back_text buffer n) out
unfolding emit_back back_text emit_all emit_char
emit_back-say emit buffer zero out = out_eq _ _ _ _ refl (omega arith)
emit_back-say emit buffer (suc n) out =
    emit_back-say emit buffer n _ ∙ out_eq _ _ _ _ refl (omega arith)

zero_held : (base : ℕ) → held base (48 ∷ []) ≡ 0
unfolding held digit_value
zero_held base = omega arith

held-drop-length : (base : ℕ) (buffer : List ℕ) → held base (drop (length buffer) buffer) ≡ 0
unfolding held
held-drop-length base [] = refl
held-drop-length base (c ∷ cs) = held-drop-length base cs

held-digit_buffer :
    (uppercase : Bool) (base value : ℕ)
    → 2 ≤ base
    → base ≤ 16
    → value < 2 ^ 64
    → held base (digit_buffer uppercase base value) ≡ value
unfolding digit_buffer
held-digit_buffer uppercase base value two most small = elim (Bool-cases (value == 0)) [
  | inl e ↦ rw e (zero_held base ∙ sym ((==_iff value 0).0 e))
  | inr e ↦ rw e (held-digit_loop uppercase base 65 value two most (omega (arith, small)))
]

-- For a base from 2 to 16 and a value of 64 bits, the emitted text read as a number in that base is the
-- value, in either case of the digits and whatever the callback; the 65 bytes of the buffer are enough.
pub read_number-emit_unsigned_base :
    (value base : ℕ) (uppercase : Bool)
    → 2 ≤ base
    → base ≤ 16
    → value < 2 ^ 64
    → (text : List ℕ) × (read_number base 0 text ≡ value)
      × ((S : Type 0) (emit : Emit S) (out : Out S)
          → emit_unsigned_base emit value base uppercase out ≡ say emit text out)
unfolding emit_unsigned_base
read_number-emit_unsigned_base value base uppercase two most small =
    let buffer = digit_buffer uppercase base value in
    (
      back_text buffer (length buffer),
      ap (λ acc. read_number base acc (back_text buffer (length buffer)))
            (sym (held-drop-length base buffer))
          ∙ read_number-back base buffer (length buffer) (omega arith)
          ∙ held-digit_buffer uppercase base value two most small,
      λ S emit out.
          rw (le→ltb base 2 two, le→ltb 16 base most)
            (emit_back-say emit buffer (length buffer) out),
    )
