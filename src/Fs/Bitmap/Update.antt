-- ===== src/Fs/Bitmap/Update.antt =====
-- `bitmap_set` of src/kernel/fs/fs.c writes one bit, as `bitmap_test` reads it.
use lux_kernel.Base.{
  tested, tested-at, ℕ, zero, suc, ◌-◌, ◌/◌, ◌%◌, ◌^◌, ◌<◌, ◌≡◌, ◌≢◌, refl, Bool, true, false, not,
  ◌&&◌, List, [], ◌∷◌, bit_and, bit_or, arith, ltb, ◌==◌, if◌then◌else◌, get_or, set, length,
  get_or-set_self, get_or-set_ne, Bool-cases, inl, inr, ne→==, ◌∙◌, ltb→lt,
}
use lux_kernel.Fs.Bitmap.{bitmap_test, bitmap_set}

-- Bit `k` of a byte, and the byte with that bit written.
abbrev bit : ℕ → ℕ → Bool
bit b k = not (bit_and (b / 2 ^ k) 1 == 0)

abbrev write_bit : ℕ → ℕ → Bool → ℕ
write_bit b k v = if v then bit_or b (2 ^ k % 256) else bit_and b (255 - 2 ^ k % 256)

abbrev same : Bool → Bool → Bool
same true y = y
same false y = not y

same-eq : (x y : Bool) → same x y ≡ true → x ≡ y
same-eq x y h = ground arith

abbrev write_ok : Bool → ℕ → ℕ → ℕ → Bool
write_ok v b k j =
    same (bit (write_bit b k v) j) (if k == j then v else bit b j) && ltb (write_bit b k v) 256

-- Every byte, every bit written, every bit read.
bits_table :
    (tested (λ b. tested (λ k. tested (write_ok true b k) 8) 8) 256 ≡ true)
    × (tested (λ b. tested (λ k. tested (write_ok false b k) 8) 8) 256 ≡ true)
unfolding tested
bits_table = (refl, refl)

write_ok-true : (v : Bool) (b k j : ℕ) → b < 256 → k < 8 → j < 8 → write_ok v b k j ≡ true
write_ok-true true b k j hb hk hj =
    tested-at _ 8 j hj (tested-at _ 8 k hk (tested-at _ 256 b hb bits_table.0))
write_ok-true false b k j hb hk hj =
    tested-at _ 8 j hj (tested-at _ 8 k hk (tested-at _ 256 b hb bits_table.1))

and-left : (x y : Bool) → (x && y) ≡ true → x ≡ true
and-left x y h = ground arith

and-right : (x y : Bool) → (x && y) ≡ true → y ≡ true
and-right x y h = ground arith

module _ (v : Bool) (b k : ℕ) (hb : b < 256) (hk : k < 8) where
  bit-write_bit : (j : ℕ) → j < 8 → bit (write_bit b k v) j ≡ (if k == j then v else bit b j)
  bit-write_bit j hj = same-eq (bit (write_bit b k v) j) (if k == j then v else bit b j) (
      and-left (same (bit (write_bit b k v) j) (if k == j then v else bit b j))
        (ltb (write_bit b k v) 256) (write_ok-true v b k j hb hk hj))

  write_bit-lt : write_bit b k v < 256
  write_bit-lt = ltb→lt (write_bit b k v) 256 (
      and-right (same (bit (write_bit b k v) 0) (if k == 0 then v else bit b 0))
        (ltb (write_bit b k v) 256) (write_ok-true v b k 0 hb hk (omega arith)))

-- Every element of the array is a byte.
abbrev pub AllBytes : List ℕ → Type 0
AllBytes [] = Unit
AllBytes (b ∷ bs) = (b < 256) × AllBytes bs

get_or-lt : (bs : List ℕ) (i : ℕ) → AllBytes bs → get_or bs i 0 < 256
get_or-lt [] i h = omega arith
get_or-lt (b ∷ bs) zero h = h.0
get_or-lt (b ∷ bs) (suc i) h = get_or-lt bs i h.1

AllBytes-set : (bs : List ℕ) (i v : ℕ) → v < 256 → AllBytes bs → AllBytes (set bs i v)
AllBytes-set [] i v lt h = tt
AllBytes-set (b ∷ bs) zero v lt h = (lt, h.1)
AllBytes-set (b ∷ bs) (suc i) v lt h = (h.0, AllBytes-set bs i v lt h.1)

same_index :
    (i j : ℕ) (v r : Bool)
    → j / 8 ≡ i / 8
    → (if (i % 8) == (j % 8) then v else r) ≡ (if i == j then v else r)
same_index i j v r e = ground arith

-- Writing a bit and reading it back gives the value; every other bit is as it was.
pub bitmap_test-bitmap_set :
    (bitmap : List ℕ) (i j : ℕ) (v : Bool)
    → AllBytes bitmap
    → i / 8 < length bitmap
    → bitmap_test (bitmap_set bitmap i v) j ≡ (if i == j then v else bitmap_test bitmap j)
unfolding bitmap_test bitmap_set
bitmap_test-bitmap_set bitmap i j v bytes room =
    let b = get_or bitmap (i / 8) 0 in
    let w = write_bit b (i % 8) v in
    let hb = get_or-lt bitmap (i / 8) bytes in
    let wrote = bit-write_bit v b (i % 8) hb (omega arith) (j % 8) (omega arith) in
    elim (Bool-cases ((i / 8) == (j / 8))) [
      | inl here ↦
          let e : j / 8 ≡ i / 8 = ground arith in
          rw (e, get_or-set_self bitmap (i / 8) w 0 room)
            (wrote ∙ same_index i j v (bit b (j % 8)) e)
      | inr away ↦
          let far : i / 8 ≢ j / 8 = ground arith in
          rw (get_or-set_ne bitmap (i / 8) (j / 8) w 0 far, ne→== i j (λ e. far (rw e refl)))
    ]

pub AllBytes-bitmap_set :
    (bitmap : List ℕ) (i : ℕ) (v : Bool) → AllBytes bitmap → AllBytes (bitmap_set bitmap i v)
unfolding bitmap_set
AllBytes-bitmap_set bitmap i v bytes =
    AllBytes-set bitmap (i / 8) _
      (write_bit-lt v _ (i % 8) (get_or-lt bitmap (i / 8) bytes) (omega arith)) bytes
