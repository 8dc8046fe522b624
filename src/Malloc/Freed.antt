-- ===== src/Malloc/Freed.antt =====
-- What release does to the list of blocks as a map from addresses to sizes.
use lux_kernel.Base.{
  ℕ, ◌+◌, ◌≤◌, ◌≡◌, ◌⊎◌, inl, inr, refl, sym, ap, subst, ◌∙◌, true, none, some, List, [], ◌∷◌,
  arith, ◌==◌, if◌then◌else◌, Bool-cases, eq→==, lt→==,
}
use lux_kernel.Malloc.Blocks.{
  Block, mark, merge, right_free, left_free, left_of, join_right, join_left, release, used,
  HasBlock,
}
use lux_kernel.Malloc.Steps.{
  HasBlock-ge, left_of-here, left_of-there, left_free-here, left_free-there, left_free-le,
}
use lux_kernel.Malloc.Used.{used-lt}

-- Release takes the block out of the map, and nothing else.
pub used-mark :
    (c x a : ℕ) (bs : List Block) → used x a (mark c a bs) ≡ (if c == x then none else used x a bs)
unfolding used mark
used-mark c x a [] = ground arith
used-mark c x a (b ∷ bs) = ground (arith, used-mark c x (a + 16 + b.size) bs)

-- A free block with a free right neighbour.
abbrev FreePair : ℕ → ℕ → List Block → Type 0
FreePair c a [] = ⊥
FreePair c a (b ∷ []) = ⊥
FreePair c a (b ∷ d ∷ ds) =
    ((a ≡ c) × (b.free ≡ true) × (d.free ≡ true)) ⊎ FreePair c (a + 16 + b.size) (d ∷ ds)

abbrev FreeAt : ℕ → ℕ → List Block → Type 0
FreeAt c a [] = ⊥
FreeAt c a (b ∷ bs) = ((a ≡ c) × (b.free ≡ true)) ⊎ FreeAt c (a + 16 + b.size) bs

FreePair-ge : (c a : ℕ) (bs : List Block) → FreePair c a bs → a ≤ c
FreePair-ge c a [] at = absurd at
FreePair-ge c a (b ∷ []) at = absurd at
FreePair-ge c a (b ∷ d ∷ ds) (inl e) = omega arith
FreePair-ge c a (b ∷ d ∷ ds) (inr at) = omega (arith, FreePair-ge c (a + 16 + b.size) (d ∷ ds) at)

FreeAt-ge : (c a : ℕ) (bs : List Block) → FreeAt c a bs → a ≤ c
FreeAt-ge c a [] at = absurd at
FreeAt-ge c a (b ∷ bs) (inl e) = omega arith
FreeAt-ge c a (b ∷ bs) (inr at) = omega (arith, FreeAt-ge c (a + 16 + b.size) bs at)

used-merge : (c x a : ℕ) (bs : List Block) → FreePair c a bs → used x a (merge c a bs) ≡ used x a bs
unfolding used merge
used-merge c x a [] at = absurd at
used-merge c x a (b ∷ []) at = absurd at
used-merge c x a (b ∷ d ∷ ds) (inl e) =
    let e' : a + 16 + (b.size + 16 + d.size) ≡ a + 16 + b.size + 16 + d.size = omega arith in
    rw (eq→== a c e.0, e', e.1, e.2) (ground (arith, used-lt x (a + 16 + b.size + 16 + d.size) ds))
used-merge c x a (b ∷ d ∷ ds) (inr at) =
    let far = FreePair-ge c (a + 16 + b.size) (d ∷ ds) at in
    rw (lt→== a c (omega arith)) (
      ap (λ t. if a == x then (if b.free then none else some b.size) else t)
        (used-merge c x (a + 16 + b.size) (d ∷ ds) at))

FreePair-right :
    (c a : ℕ) (bs : List Block) → FreeAt c a bs → right_free c a bs ≡ true → FreePair c a bs
unfolding right_free
FreePair-right c a [] at h = absurd at
FreePair-right c a (b ∷ []) at h = cc
FreePair-right c a (b ∷ d ∷ ds) (inl e) h = inl (e.0, e.1, ground arith)
FreePair-right c a (b ∷ d ∷ ds) (inr at) h =
    let far = FreeAt-ge c (a + 16 + b.size) (d ∷ ds) at in
    inr (FreePair-right c (a + 16 + b.size) (d ∷ ds) at (rw (lt→== a c (omega arith)) at h))

FreeAt-mark : (c a : ℕ) (bs : List Block) → HasBlock c a bs → FreeAt c a (mark c a bs)
unfolding mark
FreeAt-mark c a [] at = absurd at
FreeAt-mark c a (b ∷ bs) (inl e) = rw (eq→== a c e) (inl (e, refl))
FreeAt-mark c a (b ∷ bs) (inr at) =
    let far = HasBlock-ge c (a + 16 + b.size) bs at in
    rw (lt→== a c (omega arith)) (inr (FreeAt-mark c (a + 16 + b.size) bs at))

FreeAt-merge : (c a : ℕ) (bs : List Block) → FreeAt c a bs → FreeAt c a (merge c a bs)
unfolding merge
FreeAt-merge c a [] at = absurd at
FreeAt-merge c a (b ∷ []) at = at
FreeAt-merge c a (b ∷ d ∷ ds) (inl e) = rw (eq→== a c e.0) (inl e)
FreeAt-merge c a (b ∷ d ∷ ds) (inr at) =
    let far = FreeAt-ge c (a + 16 + b.size) (d ∷ ds) at in
    rw (lt→== a c (omega arith)) (inr (FreeAt-merge c (a + 16 + b.size) (d ∷ ds) at))

FreeAt-join_right : (c a : ℕ) (bs : List Block) → FreeAt c a bs → FreeAt c a (join_right c a bs)
unfolding join_right
FreeAt-join_right c a bs at = elim (Bool-cases (right_free c a bs)) [
  | inl h ↦ rw h (FreeAt-merge c a bs at)
  | inr h ↦ rw h at
]

FreeAt-first : (c a : ℕ) (b : Block) (bs : List Block) → c ≡ a → FreeAt c a (b ∷ bs) → b.free ≡ true
FreeAt-first c a b bs e (inl at) = at.1
FreeAt-first c a b bs e (inr at) = absurd (omega (arith, FreeAt-ge c (a + 16 + b.size) bs at))

FreePair-left :
    (c a : ℕ) (bs : List Block)
    → FreeAt c a bs
    → left_free c a bs ≡ true
    → FreePair (left_of c a bs) a bs
FreePair-left c a [] at h = absurd at
FreePair-left c a (b ∷ []) at h = unfold left_free in cc
FreePair-left c a (b ∷ d ∷ ds) (inl e) h = cc (left_free-le c a (b ∷ d ∷ ds) (omega arith))
FreePair-left c a (b ∷ d ∷ ds) (inr at) h = elim (Bool-cases ((a + 16 + b.size) == c)) [
  | inl here ↦
      subst (λ q. FreePair q a (b ∷ d ∷ ds)) (sym (left_of-here c a b d ds here))
        (inl (
          refl,
          sym (left_free-here c a b d ds here) ∙ h,
          FreeAt-first c (a + 16 + b.size) d ds (ground arith) at,
        ))
  | inr there ↦
      subst (λ q. FreePair q a (b ∷ d ∷ ds)) (sym (left_of-there c a b d ds there))
        (inr (
          FreePair-left c (a + 16 + b.size) (d ∷ ds) at
            (rw (left_free-there c a b d ds there) at h)))
]

used-join_right :
    (c x a : ℕ) (bs : List Block) → FreeAt c a bs → used x a (join_right c a bs) ≡ used x a bs
unfolding join_right
used-join_right c x a bs at = elim (Bool-cases (right_free c a bs)) [
  | inl h ↦ rw h (used-merge c x a bs (FreePair-right c a bs at h))
  | inr h ↦ rw h
]

used-join_left :
    (c x a : ℕ) (bs : List Block) → FreeAt c a bs → used x a (join_left c a bs) ≡ used x a bs
unfolding join_left
used-join_left c x a bs at = elim (Bool-cases (left_free c a bs)) [
  | inl h ↦ rw h (used-merge (left_of c a bs) x a bs (FreePair-left c a bs at h))
  | inr h ↦ rw h
]

-- Release takes the block at `c` out of the map and changes nothing else.
pub used-release :
    (c x a : ℕ) (bs : List Block)
    → HasBlock c a bs
    → used x a (release c a bs) ≡ (if c == x then none else used x a bs)
unfolding release
used-release c x a bs at =
    let free = FreeAt-mark c a bs at in
    used-join_left c x a _ (FreeAt-join_right c a _ free)
    ∙ used-join_right c x a _ free
    ∙ used-mark c x a bs
