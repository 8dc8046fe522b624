-- ===== src/Div64.antt =====
-- src/kernel/lib/div64.c: the quotient and the remainder that `__udivmoddi4` gives a caller with a place
-- for the remainder.
mod Tests
use lux_kernel.Base.{
  ℕ, zero, suc, ◌+◌, ◌-◌, ◌*◌, ◌/◌, ◌%◌, ◌^◌, ◌≤◌, ◌<◌, ◌≡◌, refl, sym, ap, ap₂, ◌∙◌, Bool, true,
  false, bit_and, bit_or, leb, ◌==◌, if◌then◌else◌, arith, Bool-cases, inl, inr, bit_and-one,
  bit_or-power, bit_or-odd, gt→==, leb→le,
}
use native.Mathlib.Nat.{
  pow-suc, mul_assoc, mul_comm, div-div-eq-div-mul, div-add-mod, mod-lt, add-mul-div_left,
  add-mul-mod_self_left, mod-le, div-le_self, mod-eq_of_lt, div-eq_of_lt,
}

-- The body of the loop at a bit: the quotient and the remainder after it.
unfoldable pub div_step : ℕ → ℕ → ℕ → ℕ × ℕ → ℕ × ℕ
div_step numerator denominator bit (quotient, rem) =
    let rem' = bit_or (rem * 2 % 2 ^ 64) (bit_and (numerator / 2 ^ bit) 1) in
    if leb denominator rem'
    then (bit_or quotient (2 ^ bit), rem' - denominator)
    else (quotient, rem')

-- The loop over the bits below `bits`, from the highest.
unfoldable pub div_loop : ℕ → ℕ → ℕ → ℕ × ℕ → ℕ × ℕ
div_loop numerator denominator zero state = state
div_loop numerator denominator (suc bit) state =
    div_loop numerator denominator bit (div_step numerator denominator bit state)

unfoldable pub udivmoddi4 : ℕ → ℕ → ℕ × ℕ
udivmoddi4 numerator denominator =
    let result = div_loop numerator denominator 64 (0, 0) in
    if denominator == 0 then (0, 0) else result

-- Before the bit below `bits`: the quotient and the remainder of the bits from there on, in place.
abbrev above : ℕ → ℕ → ℕ → ℕ × ℕ
above n d bits = (n / 2 ^ bits / d * 2 ^ bits, n / 2 ^ bits % d)

-- A quotient and a remainder are the only ones.
divides : (d q r : ℕ) → r < d → ((r + d * q) / d ≡ q) × ((r + d * q) % d ≡ r)
divides d q r lt = (
  add-mul-div_left r q (omega (arith, lt)) ∙ ap (λ k. k + q) (div-eq_of_lt lt) ∙ omega arith,
  add-mul-mod_self_left r d q ∙ mod-eq_of_lt lt,
)

odd_multiple : (d q : ℕ) → d * (q * 2 + 1) ≡ d * q * 2 + d
odd_multiple d q = grind arith

even_multiple : (d q : ℕ) → d * (q * 2) ≡ d * q * 2
even_multiple d q = grind arith

-- One bit more of a long division.
long_division :
    (N M d : ℕ)
    → 0 < d
    → M / 2 ≡ N
    → d ≤ N % d * 2 + M % 2
    → (M / d ≡ N / d * 2 + 1) × (M % d ≡ N % d * 2 + M % 2 - d)
long_division N M d pos half enough =
    let r = N % d * 2 + M % 2 - d in
    let small : r < d = omega (arith, mod-lt N {m = d} pos) in
    let whole : r + d * (N / d * 2 + 1) ≡ M =
      omega (arith, odd_multiple d (N / d), div-add-mod N d, half, enough) in
    let (quotient, rem) = divides d (N / d * 2 + 1) r small in
    (ap (λ m. m / d) (sym whole) ∙ quotient, ap (λ m. m % d) (sym whole) ∙ rem)

long_division_less :
    (N M d : ℕ)
    → M / 2 ≡ N
    → N % d * 2 + M % 2 < d
    → (M / d ≡ N / d * 2) × (M % d ≡ N % d * 2 + M % 2)
long_division_less N M d half less =
    let r = N % d * 2 + M % 2 in
    let whole : r + d * (N / d * 2) ≡ M =
      omega (arith, even_multiple d (N / d), div-add-mod N d, half) in
    let (quotient, rem) = divides d (N / d * 2) r less in
    (ap (λ m. m / d) (sym whole) ∙ quotient, ap (λ m. m % d) (sym whole) ∙ rem)

half_shift : (n bit : ℕ) → n / 2 ^ bit / 2 ≡ n / 2 ^ suc bit
half_shift n bit = div-div-eq-div-mul n (2 ^ bit) 2 ∙ ap (λ p. n / p) (sym (pow-suc 2 bit))

-- What is above a bit is less than half of a 64-bit word.
above_small : (n bit : ℕ) → n < 2 ^ 64 → n / 2 ^ suc bit < 2 ^ 63
above_small n bit small = omega (arith, small, half_shift n bit, div-le_self n (2 ^ bit))

double_place : (q bit : ℕ) → q * 2 ^ suc bit ≡ q * 2 * 2 ^ bit
double_place q bit = grind (arith, pow-suc 2 bit)

set_bit : (q bit : ℕ) → bit_or (q * 2 ^ suc bit) (2 ^ bit) ≡ (q * 2 + 1) * 2 ^ bit
set_bit q bit =
    let place : q * 2 ^ suc bit ≡ q * 2 ^ bit * 2 =
      ap (λ p. q * p) (pow-suc 2 bit) ∙ sym (mul_assoc q (2 ^ bit) 2) in
    ap (λ x. bit_or x (2 ^ bit)) place ∙ bit_or-power bit q ∙ grind arith

div_step-above :
    (n d bit : ℕ) → 0 < d → n < 2 ^ 64 → div_step n d bit (above n d (suc bit)) ≡ above n d bit
unfolding div_step
div_step-above n d bit pos small =
    let N = n / 2 ^ suc bit in
    let M = n / 2 ^ bit in
    let half = half_shift n bit in
    let fits : N % d * 2 % 2 ^ 64 ≡ N % d * 2 =
      omega (arith, above_small n bit small, mod-le N d) in
    let shifted : bit_or (N % d * 2 % 2 ^ 64) (bit_and M 1) ≡ N % d * 2 + M % 2 =
      ap₂ bit_or fits (bit_and-one M) ∙ bit_or-odd (N % d) (M % 2) (omega arith) in
    let next : ℕ → ℕ × ℕ = λ r.
      if leb d r
      then (bit_or (N / d * 2 ^ suc bit) (2 ^ bit), r - d)
      else (N / d * 2 ^ suc bit, r) in
    ap next shifted ∙ elim (Bool-cases (leb d (N % d * 2 + M % 2))) [
      | inl enough ↦
          let (quotient, rem) =
            long_division N M d pos half (leb→le d (N % d * 2 + M % 2) enough) in
          rw enough
            (λ i. ((set_bit (N / d) bit ∙ ap (λ k. k * 2 ^ bit) (sym quotient)) i, sym rem i))
      | inr less ↦
          let (quotient, rem) = long_division_less N M d half (ground (arith, less)) in
          rw less
            (λ i. ((double_place (N / d) bit ∙ ap (λ k. k * 2 ^ bit) (sym quotient)) i, sym rem i))
    ]

div_loop-above :
    (n d bits : ℕ) → 0 < d → n < 2 ^ 64 → div_loop n d bits (above n d bits) ≡ (n / d, n % d)
unfolding div_loop
div_loop-above n d zero pos small =
    let whole : n / 1 ≡ n = omega arith in
    let quotient : n / 1 / d * 1 ≡ n / d = ap (λ m. m / d * 1) whole ∙ omega arith in
    let rem : n / 1 % d ≡ n % d = ap (λ m. m % d) whole in λ i. (quotient i, rem i)
div_loop-above n d (suc bit) pos small =
    ap (div_loop n d bit) (div_step-above n d bit pos small) ∙ div_loop-above n d bit pos small

above_start : (n d : ℕ) → 0 < d → n < 2 ^ 64 → Path (ℕ × ℕ) (0, 0) (above n d 64)
above_start n d pos small =
    let none_above : n / 2 ^ 64 ≡ 0 = div-eq_of_lt small in
    let quotient : 0 ≡ n / 2 ^ 64 / d * 2 ^ 64 =
      sym (ap (λ m. m / d * 2 ^ 64) none_above ∙ ap (λ q. q * 2 ^ 64) (div-eq_of_lt pos)) in
    let rem : 0 ≡ n / 2 ^ 64 % d = sym (ap (λ m. m % d) none_above ∙ mod-eq_of_lt pos) in
    λ i. (quotient i, rem i)

-- For a numerator of 64 bits and a denominator that is not 0, `__udivmoddi4` gives the quotient and the
-- remainder; for the denominator 0 it gives 0 for both.
pub udivmoddi4-div :
    (n d : ℕ) → n < 2 ^ 64 → udivmoddi4 n d ≡ (if d == 0 then (0, 0) else (n / d, n % d))
unfolding udivmoddi4
udivmoddi4-div n d small = elim (Bool-cases (d == 0)) [
  | inl zero_d ↦ rw zero_d
  | inr other ↦ rw other (
      ap (div_loop n d 64) (above_start n d (ground (arith, other)) small)
      ∙ div_loop-above n d 64 (ground (arith, other)) small)
]
