-- ===== src/Malloc/Chain/Keep.antt =====
-- What the operations on the list of blocks keep: the extent, the alignment, the bound on the
-- number of blocks, and that no two free blocks are neighbours.
use lux_kernel.Base.{
  ℕ, ◌+◌, ◌*◌, ◌%◌, ◌≤◌, ◌≡◌, inl, inr, refl, ◌∙◌, List, [], ◌∷◌, arith, Bool-cases, length,
}
use lux_kernel.Malloc.Blocks.{
  Block, span, place, alloc, mark, merge, right_free, left_free, left_of, join_right, join_left,
  release,
}
use lux_kernel.Malloc.Chain.{AllAligned}
use lux_kernel.Malloc.Chain.Release.{span-mark, span-merge, span-join_right}

pub length-le-span : (bs : List Block) → length bs * 16 ≤ span bs
length-le-span [] = omega arith
length-le-span (b ∷ bs) = omega (arith, length-le-span bs)

pub span-alloc : (n : ℕ) (bs : List Block) → span (alloc n bs) ≡ span bs
unfolding alloc place
span-alloc n [] = refl
span-alloc n (b ∷ bs) = ground (arith, span-alloc n bs)

pub AllAligned-alloc :
    (n : ℕ) (bs : List Block) → n % 8 ≡ 0 → AllAligned bs → AllAligned (alloc n bs)
unfolding alloc place
AllAligned-alloc n [] e h = tt
AllAligned-alloc n (b ∷ bs) e h = ground (arith, AllAligned-alloc n bs e)

pub AllAligned-mark : (c a : ℕ) (bs : List Block) → AllAligned bs → AllAligned (mark c a bs)
unfolding mark
AllAligned-mark c a [] h = tt
AllAligned-mark c a (b ∷ bs) h = ground (arith, AllAligned-mark c (a + 16 + b.size) bs)

pub AllAligned-merge : (c a : ℕ) (bs : List Block) → AllAligned bs → AllAligned (merge c a bs)
unfolding merge
AllAligned-merge c a [] h = tt
AllAligned-merge c a (b ∷ []) h = h
AllAligned-merge c a (b ∷ d ∷ ds) h = ground (arith, AllAligned-merge c (a + 16 + b.size) (d ∷ ds))

AllAligned-join_right : (c a : ℕ) (bs : List Block) → AllAligned bs → AllAligned (join_right c a bs)
unfolding join_right
AllAligned-join_right c a bs h = elim (Bool-cases (right_free c a bs)) [
  | inl t ↦ rw t (AllAligned-merge c a bs h)
  | inr t ↦ rw t h
]

AllAligned-join_left : (c a : ℕ) (bs : List Block) → AllAligned bs → AllAligned (join_left c a bs)
unfolding join_left
AllAligned-join_left c a bs h = elim (Bool-cases (left_free c a bs)) [
  | inl t ↦ rw t (AllAligned-merge (left_of c a bs) a bs h)
  | inr t ↦ rw t h
]

pub AllAligned-release : (c a : ℕ) (bs : List Block) → AllAligned bs → AllAligned (release c a bs)
unfolding release
AllAligned-release c a bs h =
    AllAligned-join_left c a _ (AllAligned-join_right c a _ (AllAligned-mark c a bs h))

span-join_left : (c a : ℕ) (bs : List Block) → span (join_left c a bs) ≡ span bs
unfolding join_left
span-join_left c a bs = ground (arith, span-merge (left_of c a bs) a bs)

pub span-release : (c a : ℕ) (bs : List Block) → span (release c a bs) ≡ span bs
unfolding release
span-release c a bs = span-join_left c a _ ∙ span-join_right c a (mark c a bs) ∙ span-mark c a bs
