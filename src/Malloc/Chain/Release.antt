-- ===== src/Malloc/Chain/Release.antt =====
-- `free` and `coalesce` of src/kernel/lib/malloc.c refine `release` on the list of blocks.
use lux_kernel.Base.{
  ℕ, ◌+◌, ◌^◌, ◌<◌, ◌≡◌, inl, inr, refl, sym, subst, true, not, ◌&&◌, List, [], ◌∷◌, arith, ◌==◌,
  if◌then◌else◌, Bool-cases, eq→==, lt→==, gt→==,
}
use lux_kernel.Malloc.{Memory, write, absorb_next, join_prev, coalesce}
use lux_kernel.Malloc.Blocks.{
  Block, span, mark, merge, right_free, left_free, left_of, join_right, join_left, release,
  HasBlock, HasPair,
}
use lux_kernel.Malloc.Steps.{
  HasBlock-ge, left_of-here, left_of-there, left_free-there, left_free-le,
}
use lux_kernel.Malloc.Chain.{Chain}
use lux_kernel.Malloc.Chain.Join.{Chain-mark, join_prev-eq, Chain-merge}

-- The tests of `coalesce` read the neighbours.
module _ (m : Memory) (c : ℕ) where
  right_test :
      (p a : ℕ) (bs : List Block)
      → 0 < a
      → HasBlock c a bs
      → Chain m p a bs
      → (not ((m c).next == 0) && (m (m c).next).free) ≡ right_free c a bs
  unfolding right_free
  right_test p a [] pos at ch = absurd at
  right_test p a (b ∷ []) pos (inl e) ch = let n : (m c).next ≡ 0 = ground arith in rw n
  right_test p a (b ∷ []) pos (inr at) ch = absurd at
  right_test p a (b ∷ d ∷ ds) pos (inl e) ch =
      let n : (m c).next ≡ a + 16 + b.size = ground arith in
      rw (eq→== a c e, n, gt→== (a + 16 + b.size) 0 (omega arith), ch.1.0)
  right_test p a (b ∷ d ∷ ds) pos (inr at) ch =
      let far = HasBlock-ge c (a + 16 + b.size) (d ∷ ds) at in
      rw (lt→== a c (omega arith)) (right_test a (a + 16 + b.size) (d ∷ ds) (omega arith) at ch.1)

  HasPair-right_free : (a : ℕ) (bs : List Block) → right_free c a bs ≡ true → HasPair c a bs
  unfolding right_free
  HasPair-right_free a [] h = cc
  HasPair-right_free a (b ∷ []) h = cc
  HasPair-right_free a (b ∷ d ∷ ds) h =
      ground (arith, HasPair-right_free (a + 16 + b.size) (d ∷ ds))

  left_test_lt :
      (p a : ℕ) (bs : List Block)
      → 0 < a
      → a < c
      → HasBlock c a bs
      → Chain m p a bs
      → (not ((m c).prev == 0) && (m (m c).prev).free) ≡ left_free c a bs
  unfolding left_free
  left_test_lt p a [] pos lt at ch = absurd at
  left_test_lt p a (b ∷ bs) pos lt (inl e) ch = absurd (omega arith)
  left_test_lt p a (b ∷ []) pos lt (inr at) ch = absurd at
  left_test_lt p a (b ∷ d ∷ ds) pos lt (inr (inl e)) ch =
      let n : (m c).prev ≡ a = ground arith in
      rw (eq→== (a + 16 + b.size) c e, n, gt→== a 0 pos, ch.0)
  left_test_lt p a (b ∷ d ∷ ds) pos lt (inr (inr at)) ch =
      let far = HasBlock-ge c (a + 16 + b.size + 16 + d.size) ds at in
      rw (lt→== (a + 16 + b.size) c (omega arith))
        (left_test_lt a (a + 16 + b.size) (d ∷ ds) (omega arith) (omega arith) (inr at) ch.1)

  left_test :
      (a : ℕ) (bs : List Block)
      → 0 < a
      → HasBlock c a bs
      → Chain m 0 a bs
      → (not ((m c).prev == 0) && (m (m c).prev).free) ≡ left_free c a bs
  left_test a [] pos at ch = absurd at
  left_test a (b ∷ bs) pos (inl e) ch =
      let n : (m c).prev ≡ 0 = ground arith in rw n (sym (left_free-le c a (b ∷ bs) (omega arith)))
  left_test a (b ∷ bs) pos (inr at) ch =
      let far = HasBlock-ge c (a + 16 + b.size) bs at in
      left_test_lt 0 a (b ∷ bs) pos (omega arith) (inr at) ch

  -- `q` is the address of the left neighbour of the block at `c`.
  abbrev IsLeft : ℕ → List Block → ℕ → Type 0
  IsLeft a bs q = HasPair q a bs × ((m c).prev ≡ q) × ((m q).next ≡ c)

  left_free-HasPair :
      (p a : ℕ) (bs : List Block)
      → left_free c a bs ≡ true
      → Chain m p a bs
      → IsLeft a bs (left_of c a bs)
  left_free-HasPair p a [] h ch = unfold left_free in cc
  left_free-HasPair p a (b ∷ []) h ch = unfold left_free in cc
  left_free-HasPair p a (b ∷ d ∷ ds) h ch = elim (Bool-cases ((a + 16 + b.size) == c)) [
    | inl here ↦
        let e : a + 16 + b.size ≡ c = ground arith in
        subst (IsLeft a (b ∷ d ∷ ds)) (sym (left_of-here c a b d ds here))
          (inl refl, subst (λ x. (m x).prev ≡ a) e (ground arith), ground arith)
    | inr there ↦
        let h' = rw (left_free-there c a b d ds there) at h in
        let (pair, prev, next) = left_free-HasPair a (a + 16 + b.size) (d ∷ ds) h' ch.1 in
        subst (IsLeft a (b ∷ d ∷ ds)) (sym (left_of-there c a b d ds there)) (inr pair, prev, next)
  ]

-- What `coalesce` does to the list.
Chain-join_right :
    (m : Memory) (c a : ℕ) (bs : List Block)
    → 0 < a
    → span bs < 2 ^ 32
    → Chain m 0 a bs
    → Chain (if right_free c a bs then absorb_next c m else m) 0 a (join_right c a bs)
unfolding join_right
Chain-join_right m c a bs pos fits ch = elim (Bool-cases (right_free c a bs)) [
  | inl h ↦ rw h (Chain-merge m c 0 a bs pos fits (HasPair-right_free m c a bs h) ch)
  | inr h ↦ rw h ch
]

Chain-join_left :
    (m : Memory) (c a : ℕ) (bs : List Block)
    → 0 < a
    → span bs < 2 ^ 32
    → Chain m 0 a bs
    → Chain (if left_free c a bs then join_prev c m else m) 0 a (join_left c a bs)
unfolding join_left
Chain-join_left m c a bs pos fits ch = elim (Bool-cases (left_free c a bs)) [
  | inl h ↦
      let (pair, prev, next) = left_free-HasPair m c 0 a bs h ch in
      let e = join_prev-eq m c (subst (λ x. (m x).next ≡ c) (sym prev) next) in
      rw (h, e, prev) (Chain-merge m (left_of c a bs) 0 a bs pos fits pair ch)
  | inr h ↦ rw h ch
]

-- Neither a mark nor a merge at `c` takes the block at `c` away.
HasBlock-mark : (c a : ℕ) (bs : List Block) → HasBlock c a bs → HasBlock c a (mark c a bs)
unfolding mark
HasBlock-mark c a [] at = absurd at
HasBlock-mark c a (b ∷ bs) (inl e) = rw (eq→== a c e) (inl e)
HasBlock-mark c a (b ∷ bs) (inr at) =
    let far = HasBlock-ge c (a + 16 + b.size) bs at in
    rw (lt→== a c (omega arith)) (inr (HasBlock-mark c (a + 16 + b.size) bs at))

HasBlock-merge : (c a : ℕ) (bs : List Block) → HasBlock c a bs → HasBlock c a (merge c a bs)
unfolding merge
HasBlock-merge c a [] at = absurd at
HasBlock-merge c a (b ∷ []) at = at
HasBlock-merge c a (b ∷ d ∷ ds) (inl e) = rw (eq→== a c e) (inl e)
HasBlock-merge c a (b ∷ d ∷ ds) (inr at) =
    let far = HasBlock-ge c (a + 16 + b.size) (d ∷ ds) at in
    rw (lt→== a c (omega arith)) (inr (HasBlock-merge c (a + 16 + b.size) (d ∷ ds) at))

HasBlock-join_right :
    (c a : ℕ) (bs : List Block) → HasBlock c a bs → HasBlock c a (join_right c a bs)
unfolding join_right
HasBlock-join_right c a bs at = elim (Bool-cases (right_free c a bs)) [
  | inl h ↦ rw h (HasBlock-merge c a bs at)
  | inr h ↦ rw h at
]

pub span-mark : (c a : ℕ) (bs : List Block) → span (mark c a bs) ≡ span bs
unfolding mark
span-mark c a [] = refl
span-mark c a (b ∷ bs) = ground (arith, span-mark c (a + 16 + b.size) bs)

pub span-merge : (c a : ℕ) (bs : List Block) → span (merge c a bs) ≡ span bs
unfolding merge
span-merge c a [] = refl
span-merge c a (b ∷ []) = refl
span-merge c a (b ∷ d ∷ ds) = ground (arith, span-merge c (a + 16 + b.size) (d ∷ ds))

pub span-join_right : (c a : ℕ) (bs : List Block) → span (join_right c a bs) ≡ span bs
unfolding join_right
span-join_right c a bs = ground (arith, span-merge c a bs)

pub Chain-coalesce :
    (m : Memory) (c a : ℕ) (bs : List Block)
    → 0 < a
    → span bs < 2 ^ 32
    → HasBlock c a bs
    → Chain m 0 a bs
    → Chain (coalesce c m) 0 a (join_left c a (join_right c a bs))
unfolding coalesce
Chain-coalesce m c a bs pos fits at ch =
    let right = Chain-join_right m c a bs pos fits ch in
    let at' = HasBlock-join_right c a bs at in
    let left =
      Chain-join_left _ c a (join_right c a bs) pos (omega (arith, span-join_right c a bs)) right in
    rw (right_test m c 0 a bs pos at ch, left_test _ c a (join_right c a bs) pos at' right) left

-- The writes of `free` behind its guards.
pub Chain-release :
    (m : Memory) (c a : ℕ) (bs : List Block)
    → 0 < a
    → span bs < 2 ^ 32
    → HasBlock c a bs
    → Chain m 0 a bs
    → Chain (coalesce c (write m c (record (m c) { free = true }))) 0 a (release c a bs)
unfolding release
Chain-release m c a bs pos fits at ch =
    Chain-coalesce _ c a (mark c a bs) pos (omega (arith, span-mark c a bs))
      (HasBlock-mark c a bs at) (Chain-mark m c 0 a bs at ch)
