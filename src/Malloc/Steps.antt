-- ===== src/Malloc/Steps.antt =====
-- One step of each recursion over the blocks, and where the blocks of a list can stand.
use lux_kernel.Base.{
  ℕ, ◌+◌, ◌≤◌, ◌≡◌, ◌≢◌, inl, inr, refl, true, false, ◌&&◌, List, [], ◌∷◌, arith, leb, ◌==◌, gt→==,
}
use lux_kernel.Malloc.Blocks.{Block, fit, place, alloc, left_free, left_of, HasBlock}

-- One step of the search and of the allocation.
module _ (n a : ℕ) (b : Block) (bs : List Block) where
  pub fit-here : (b.free && leb n b.size) ≡ true → fit n a (b ∷ bs) ≡ a
  unfolding fit
  fit-here h = rw h

  pub fit-there : (b.free && leb n b.size) ≡ false → fit n a (b ∷ bs) ≡ fit n (a + 16 + b.size) bs
  unfolding fit
  fit-there h = rw h

  pub alloc-here : (b.free && leb n b.size) ≡ true → alloc n (b ∷ bs) ≡ place n b bs
  unfolding alloc
  alloc-here h = rw h

  pub alloc-there : (b.free && leb n b.size) ≡ false → alloc n (b ∷ bs) ≡ b ∷ alloc n bs
  unfolding alloc
  alloc-there h = rw h

pub fit-ge : (n a : ℕ) (bs : List Block) → fit n a bs ≢ 0 → a ≤ fit n a bs
unfolding fit
fit-ge n a [] found = absurd (found refl)
fit-ge n a (b ∷ bs) found = ground (arith, fit-ge n (a + 16 + b.size) bs)

pub HasBlock-ge : (c a : ℕ) (bs : List Block) → HasBlock c a bs → a ≤ c
HasBlock-ge c a [] at = absurd at
HasBlock-ge c a (b ∷ bs) (inl e) = omega arith
HasBlock-ge c a (b ∷ bs) (inr at) = omega (arith, HasBlock-ge c (a + 16 + b.size) bs at)

-- One step of the look to the left.
module _ (c a : ℕ) (b d : Block) (ds : List Block) where
  pub left_of-here : ((a + 16 + b.size) == c) ≡ true → left_of c a (b ∷ d ∷ ds) ≡ a
  unfolding left_of
  left_of-here h = rw h

  pub left_of-there :
      ((a + 16 + b.size) == c) ≡ false
      → left_of c a (b ∷ d ∷ ds) ≡ left_of c (a + 16 + b.size) (d ∷ ds)
  unfolding left_of
  left_of-there h = rw h

  pub left_free-here : ((a + 16 + b.size) == c) ≡ true → left_free c a (b ∷ d ∷ ds) ≡ b.free
  unfolding left_free
  left_free-here h = rw h

  pub left_free-there :
      ((a + 16 + b.size) == c) ≡ false
      → left_free c a (b ∷ d ∷ ds) ≡ left_free c (a + 16 + b.size) (d ∷ ds)
  unfolding left_free
  left_free-there h = rw h

pub left_free-le : (c a : ℕ) (bs : List Block) → c ≤ a → left_free c a bs ≡ false
unfolding left_free
left_free-le c a [] h = refl
left_free-le c a (b ∷ []) h = refl
left_free-le c a (b ∷ d ∷ ds) h =
    rw (gt→== (a + 16 + b.size) c (omega arith))
      (left_free-le c (a + 16 + b.size) (d ∷ ds) (omega arith))
