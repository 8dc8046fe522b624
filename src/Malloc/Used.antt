-- ===== src/Malloc/Used.antt =====
-- The list of blocks as a map from addresses to sizes: what allocation and release do to it.
use lux_kernel.Base.{
  ℕ, ◌+◌, ◌-◌, ◌≤◌, ◌<◌, ◌≡◌, ◌≢◌, inl, inr, refl, true, ◌&&◌, none, some, List, [], ◌∷◌, arith,
  leb, Bool-cases, eq→==, lt→==, gt→==,
}
use lux_kernel.Malloc.Blocks.{Block, fit, place, alloc, used}
use lux_kernel.Malloc.Steps.{fit-ge, fit-here, fit-there, alloc-here, alloc-there}

pub used-lt : (c a : ℕ) (bs : List Block) → c < a → used c a bs ≡ none
unfolding used
used-lt c a [] h = refl
used-lt c a (b ∷ bs) h = rw (gt→== a c h) (used-lt c (a + 16 + b.size) bs (omega arith))

used-place_ne :
    (n x a : ℕ) (b : Block) (bs : List Block)
    → b.free ≡ true
    → a ≢ x
    → used x a (place n b bs) ≡ used x a (b ∷ bs)
unfolding used place
used-place_ne n x a b bs free ne = elim (Bool-cases (leb b.size n)) [
  | inl big ↦ rw big (ground arith)
  | inr small ↦ elim (Bool-cases (leb (b.size - n) 24)) [
    | inl tight ↦ rw (small, tight) (ground arith)
    | inr loose ↦
        let e : a + 16 + n + 16 + (b.size - n - 16) ≡ a + 16 + b.size = ground arith in
        rw (small, loose, e) (ground (arith, used-lt x (a + 16 + b.size) bs))
  ]
]

used-place_self :
    (n a : ℕ) (b : Block) (bs : List Block)
    → n ≤ b.size
    → (k : ℕ) × (used a a (place n b bs) ≡ some k) × (n ≤ k)
unfolding used place
used-place_self n a b bs room = elim (Bool-cases (leb b.size n)) [
  | inl big ↦ (b.size, rw (big, eq→== a a refl), room)
  | inr small ↦ elim (Bool-cases (leb (b.size - n) 24)) [
    | inl tight ↦ (b.size, rw (small, tight, eq→== a a refl), room)
    | inr loose ↦ (n, rw (small, loose, eq→== a a refl), omega arith)
  ]
]

used-cons_lt :
    (c a : ℕ) (b : Block) (bs : List Block)
    → a < c
    → used c a (b ∷ bs) ≡ used c (a + 16 + b.size) bs
unfolding used
used-cons_lt c a b bs h = rw (lt→== a c h)

-- Allocation changes the map at the block that it found, and nowhere else.
pub used-alloc_ne :
    (n x a : ℕ) (bs : List Block)
    → fit n a bs ≢ 0
    → fit n a bs ≢ x
    → used x a (alloc n bs) ≡ used x a bs
unfolding used
used-alloc_ne n x a [] found ne = unfold alloc in refl
used-alloc_ne n x a (b ∷ bs) found ne = elim (Bool-cases (b.free && leb n b.size)) [
  | inl here ↦
      rw (alloc-here n a b bs here)
        (used-place_ne n x a b bs (ground arith) (rw (fit-here n a b bs here) at ne))
  | inr there ↦
      let found' = rw (fit-there n a b bs there) at found in
      let ne' = rw (fit-there n a b bs there) at ne in
      rw (alloc-there n a b bs there)
        (ground (arith, used-alloc_ne n x (a + 16 + b.size) bs found' ne'))
]

-- The block that it found was free, and has room for the request afterwards.
pub used-alloc_self :
    (n a : ℕ) (bs : List Block)
    → fit n a bs ≢ 0
    → (used (fit n a bs) a bs ≡ none)
      × ((k : ℕ) × (used (fit n a bs) a (alloc n bs) ≡ some k) × (n ≤ k))
used-alloc_self n a [] found = absurd (found (unfold fit in refl))
used-alloc_self n a (b ∷ bs) found = elim (Bool-cases (b.free && leb n b.size)) [
  | inl here ↦
      rw (fit-here n a b bs here, alloc-here n a b bs here)
        (unfold used in ground arith, used-place_self n a b bs (ground arith))
  | inr there ↦
      let found' = rw (fit-there n a b bs there) at found in
      let far = fit-ge n (a + 16 + b.size) bs found' in
      rw (fit-there n a b bs there, alloc-there n a b bs there)
        (rw
          (
            used-cons_lt (fit n (a + 16 + b.size) bs) a b bs (omega arith),
            used-cons_lt (fit n (a + 16 + b.size) bs) a b (alloc n bs) (omega arith),
          )
          (used-alloc_self n (a + 16 + b.size) bs found'))
]
