-- ===== src/Malloc/Chain/Claim.antt =====
-- Allocation in src/kernel/lib/malloc.c refines `alloc` on the list of blocks.
use lux_kernel.Base.{
  length, ℕ, zero, suc, ◌+◌, ◌-◌, ◌≤◌, ◌<◌, ◌≡◌, ◌≢◌, ◌⊎◌, refl, Bool, true, false, List, [], ◌∷◌,
  arith, leb, Bool-cases, some, ◌∙◌, inl, inr, ◌&&◌,
}
use lux_kernel.Malloc.{Memory, write, set_prev, split_block, find_loop}
use lux_kernel.Malloc.Blocks.{Block, block, fit, place, alloc}
use lux_kernel.Malloc.Steps.{fit-ge, fit-here, fit-there, alloc-here, alloc-there}
use lux_kernel.Malloc.Chain.{Chain, link, header, Chain-frame, Chain-set_prev, link-cases}

-- Enough fuel for the list: the search ends with the first fit.
pub find_loop-fit :
    (m : Memory) (n k p a : ℕ) (bs : List Block)
    → 0 < a
    → length bs < k
    → Chain m p a bs
    → find_loop m n k (link a bs) ≡ some (fit n a bs)
unfolding find_loop fit
find_loop-fit m n zero p a bs pos enough c = absurd (omega arith)
find_loop-fit m n (suc k) p a [] pos enough c = refl
find_loop-fit m n (suc k) p a (b ∷ bs) pos enough c =
    ground (arith, find_loop-fit m n k a (a + 16 + b.size) bs (omega arith) (omega arith) c.1)

-- The memory after `split_block` and the write of the free flag.
abbrev pub claimed : ℕ → ℕ → Memory → Memory
claimed c n m = let m1 = split_block c n m in write m1 c (record (m1 c) { free = false })

-- A claim writes nowhere below its block.
pub claimed-below :
    (m : Memory) (n c x : ℕ) → x < c → (c < (m c).next) ⊎ ((m c).next ≡ 0) → claimed c n m x ≡ m x
unfolding split_block
claimed-below m n c x h up = ground arith

-- Where the block is cut in two: its own header, that of the remainder, and what lies above.
module _ (m : Memory) (n a size nx p : ℕ) (f : Bool) (is : m a ≡ header size nx p f)
    (loose : n + 24 < size) (above : (nx ≡ 0) ⊎ (nx ≡ a + 16 + size)) (pos : 0 < a) where
  claimed-block : claimed a n m a ≡ header n (a + 16 + n) p false
  unfolding split_block
  claimed-block = ground arith

  claimed-remainder : claimed a n m (a + 16 + n) ≡ header (size - n - 16) nx a true
  unfolding split_block
  claimed-remainder = ground arith

  claimed-above : (x : ℕ) → a + 16 + size ≤ x → claimed a n m x ≡ set_prev nx (a + 16 + n) m x
  unfolding split_block
  claimed-above x h = ground arith

-- Where the block is kept whole only its flag changes.
module _ (m : Memory) (n a size nx p : ℕ) (f : Bool) (is : m a ≡ header size nx p f) where
  claimed-kept :
      (leb size n ≡ true) ⊎ (leb (size - n) 24 ≡ true) → claimed a n m a ≡ header size nx p false
  unfolding split_block
  claimed-kept tight = ground arith

  claimed-kept_ne :
      (leb size n ≡ true) ⊎ (leb (size - n) 24 ≡ true) → (x : ℕ) → a < x → claimed a n m x ≡ m x
  unfolding split_block
  claimed-kept_ne tight x h = ground arith

module _ (m : Memory) (n p a : ℕ) (b : Block) (bs : List Block) (pos : 0 < a)
    (c : Chain m p a (b ∷ bs)) where
  Chain-kept :
      (leb b.size n ≡ true) ⊎ (leb (b.size - n) 24 ≡ true)
      → Chain (claimed a n m) p a (block b.size false ∷ bs)
  Chain-kept tight = (
    claimed-kept m n a b.size _ p b.free c.0 tight,
    Chain-frame m _ a (a + 16 + b.size) bs
        (λ x h. claimed-kept_ne m n a b.size _ p b.free c.0 tight x (omega arith)) c.1,
  )

  Chain-cut :
      n + 24 < b.size
      → Chain (claimed a n m) p a (block n false ∷ block (b.size - n - 16) true ∷ bs)
  Chain-cut loose =
      let e : a + 16 + n + 16 + (b.size - n - 16) ≡ a + 16 + b.size = omega arith in
      let above = link-cases (a + 16 + b.size) bs in
      (
        claimed-block m n a b.size _ p b.free c.0 loose above pos,
        (
          rw e (claimed-remainder m n a b.size _ p b.free c.0 loose above pos),
          rw e (
              Chain-frame _ _ (a + 16 + n) (a + 16 + b.size) bs
                (claimed-above m n a b.size _ p b.free c.0 loose above pos)
                (Chain-set_prev m a (a + 16 + n) (a + 16 + b.size) bs (omega arith) c.1)),
        ),
      )

  Chain-place : Chain (claimed a n m) p a (place n b bs)
  unfolding place
  Chain-place = elim (Bool-cases (leb b.size n)) [
    | inl big ↦ rw big (Chain-kept (inl big))
    | inr small ↦ elim (Bool-cases (leb (b.size - n) 24)) [
      | inl tight ↦ rw (small, tight) (Chain-kept (inr tight))
      | inr loose ↦ rw (small, loose) (Chain-cut (ground arith))
    ]
  ]

link-alloc : (n a : ℕ) (bs : List Block) → link a (alloc n bs) ≡ link a bs
unfolding alloc place
link-alloc n a [] = refl
link-alloc n a (b ∷ bs) = ground arith

-- The block that the search found links upwards.
fit-next :
    (m : Memory) (n p a : ℕ) (bs : List Block)
    → fit n a bs ≢ 0
    → Chain m p a bs
    → (fit n a bs < (m (fit n a bs)).next) ⊎ ((m (fit n a bs)).next ≡ 0)
unfolding fit
fit-next m n p a [] found c = absurd (found refl)
fit-next m n p a (b ∷ bs) found c = elim (Bool-cases (b.free && leb n b.size)) [
  | inl here ↦ rw here (ground (arith, link-cases (a + 16 + b.size) bs))
  | inr there ↦
      rw there (fit-next m n a (a + 16 + b.size) bs (rw (fit-there n a b bs there) at found) c.1)
]

-- The block that the search found, taken wherever it stands in the list.
pub Chain-alloc :
    (m : Memory) (n p a : ℕ) (bs : List Block)
    → 0 < a
    → fit n a bs ≢ 0
    → Chain m p a bs
    → Chain (claimed (fit n a bs) n m) p a (alloc n bs)
Chain-alloc m n p a [] pos found c = absurd (found (unfold fit in refl))
Chain-alloc m n p a (b ∷ bs) pos found c = elim (Bool-cases (b.free && leb n b.size)) [
  | inl here ↦
      rw (fit-here n a b bs here, alloc-here n a b bs here) (Chain-place m n p a b bs pos c)
  | inr there ↦
      let found' : fit n (a + 16 + b.size) bs ≢ 0 = rw (fit-there n a b bs there) at found in
      let up = fit-next m n a (a + 16 + b.size) bs found' c.1 in
      let far = fit-ge n (a + 16 + b.size) bs found' in
      rw (fit-there n a b bs there, alloc-there n a b bs there)
        (
          rw link-alloc (claimed-below m n (fit n (a + 16 + b.size) bs) a (omega arith) up ∙ c.0),
          Chain-alloc m n a (a + 16 + b.size) bs (omega arith) found' c.1,
        )
]
