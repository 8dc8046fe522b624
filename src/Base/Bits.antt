-- ===== src/Base/Bits.antt =====
-- Two bit operations at variables, from the digits that stand for them.
use Prim.Native.Nat.{
  ℕ, zero, suc, ◌+◌, ◌*◌, ◌^◌, ◌/◌, ◌%◌, ◌≤◌, ◌<◌, min, max, bit_and, bit_or, digits,
  bit_and-bitwise, bit_or-bitwise,
}
use mathlib.Core.Path.{◌≡◌, refl, sym, ap, ap₂, ◌∙◌}
use native.Mathlib.Nat.{pow-suc, mul_assoc}
use native.Mathlib.Omega.{arith}

-- The count of digits does not matter once it is at least the first number.
digits-enough :
    (z : ℕ → ℕ) (f : ℕ → ℕ → ℕ) (a b k l : ℕ) → a ≤ k → a ≤ l → digits z f k a b ≡ digits z f l a b
digits-enough z f zero b zero zero ak al = refl
digits-enough z f zero b zero (suc l) ak al = refl
digits-enough z f zero b (suc k) zero ak al = refl
digits-enough z f zero b (suc k) (suc l) ak al = refl
digits-enough z f (suc a) b zero l ak al = absurd (omega (arith, ak))
digits-enough z f (suc a) b (suc k) zero ak al = absurd (omega (arith, al))
digits-enough z f (suc a) b (suc k) (suc l) ak al =
    ap (λ d. d * 2 + f (suc a % 2) (b % 2))
      (digits-enough z f (suc a / 2) (b / 2) k l (omega (arith, ak)) (omega (arith, al)))

bit_or_lem : (a b : ℕ) → bit_or a b ≡ bit_or (a / 2) (b / 2) * 2 + max (a % 2) (b % 2)
bit_or_lem zero b = omega (arith, bit_or-bitwise 0 b, bit_or-bitwise 0 (b / 2))
bit_or_lem (suc a) b =
    bit_or-bitwise (suc a) b
    ∙ ap (λ d. d * 2 + max (suc a % 2) (b % 2))
        (digits-enough (λ y. y) max (suc a / 2) (b / 2) a (suc a / 2) (omega arith) (omega arith)
          ∙ sym (bit_or-bitwise (suc a / 2) (b / 2)))

digits-zero : (k a : ℕ) → digits (λ y. zero) min k a 0 ≡ 0
digits-zero zero a = refl
digits-zero (suc k) zero = refl
digits-zero (suc k) (suc a) = omega (arith, digits-zero k (suc a / 2))

pub bit_and-one : (a : ℕ) → bit_and a 1 ≡ a % 2
bit_and-one zero = bit_and-bitwise 0 1
bit_and-one (suc a) = bit_and-bitwise (suc a) 1 ∙ omega (arith, digits-zero a (suc a / 2))

digits_self : (k a : ℕ) → a ≤ k → digits (λ y. y) max k a 0 ≡ a
digits_self zero zero le = refl
digits_self zero (suc a) le = absurd (omega (arith, le))
digits_self (suc k) zero le = refl
digits_self (suc k) (suc a) le = omega (arith, digits_self k (suc a / 2) (omega (arith, le)))

bit_or-zero : (a : ℕ) → bit_or a 0 ≡ a
bit_or-zero a = bit_or-bitwise a 0 ∙ digits_self a a (omega arith)

bit_or-even : (x b : ℕ) → bit_or (x * 2) b ≡ bit_or x (b / 2) * 2 + b % 2
bit_or-even x b =
    bit_or_lem (x * 2) b
    ∙ ap (λ y. bit_or y (b / 2) * 2 + max (x * 2 % 2) (b % 2)) (omega arith)
    ∙ ap (λ m. bit_or x (b / 2) * 2 + m) (omega arith)

-- Setting a bit below which and at which a number has none adds it.
pub bit_or-power : (k c : ℕ) → bit_or (c * 2 ^ k * 2) (2 ^ k) ≡ c * 2 ^ k * 2 + 2 ^ k
bit_or-power zero c = bit_or-even (c * 2 ^ 0) 1 ∙ omega (arith, bit_or-zero (c * 2 ^ 0))
bit_or-power (suc k) c =
    let double : 2 ^ suc k ≡ 2 ^ k * 2 = pow-suc 2 k in
    let left : c * 2 ^ suc k ≡ c * 2 ^ k * 2 =
      ap (λ p. c * p) double ∙ sym (mul_assoc c (2 ^ k) 2) in
    let half : 2 ^ suc k / 2 ≡ 2 ^ k = omega (arith, double) in
    bit_or-even (c * 2 ^ suc k) (2 ^ suc k)
    ∙ ap₂ (λ x y. bit_or x y * 2 + 2 ^ suc k % 2) left half
    ∙ omega (arith, bit_or-power k c, left, double)

pub bit_or-odd : (a b : ℕ) → b < 2 → bit_or (a * 2) b ≡ a * 2 + b
bit_or-odd a b lt =
    let none_above : b / 2 ≡ 0 = omega (arith, lt) in
    bit_or-even a b ∙ ap (λ y. bit_or a y * 2 + b % 2) none_above ∙ omega (arith, lt, bit_or-zero a)
