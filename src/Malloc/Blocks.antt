-- ===== src/Malloc/Blocks.antt =====
-- The abstract heap: the blocks of src/kernel/lib/malloc.c as a list in address order, and what
-- allocation and release do to that list. `a` is the address of the first block's header.
use lux_kernel.Base.{
  ℕ, ◌+◌, ◌-◌, ◌≡◌, Bool, true, false, ◌&&◌, ◌⊎◌, Option, none, some, List, [], ◌∷◌, leb, ◌==◌,
  if◌then◌else◌,
}

pub record Block : Type 0 where
  pub size : ℕ
  pub free : Bool

abbrev pub block : ℕ → Bool → Block
block n f = record { size = n; free = f }

-- Bytes from the first header to the end of the last payload.
abbrev pub span : List Block → ℕ
span [] = 0
span (b ∷ bs) = 16 + b.size + span bs

-- The address of the first free block with room for `n` bytes, or 0.
unfoldable pub fit : ℕ → ℕ → List Block → ℕ
fit n a [] = 0
fit n a (b ∷ bs) =
    let rest = fit n (a + 16 + b.size) bs in if b.free && leb n b.size then a else rest

-- A block of `n` used bytes in place of `b`, with the remainder a free block if it is big enough.
unfoldable pub place : ℕ → Block → List Block → List Block
place n b bs =
    if leb b.size n
    then block b.size false ∷ bs
    else if leb (b.size - n) 24
    then block b.size false ∷ bs
    else block n false ∷ block (b.size - n - 16) true ∷ bs

unfoldable pub alloc : ℕ → List Block → List Block
unfolding place
alloc n [] = []
alloc n (b ∷ bs) =
    let rest = alloc n bs in if b.free && leb n b.size then place n b bs else b ∷ rest

-- The block at address `c` made free.
unfoldable pub mark : ℕ → ℕ → List Block → List Block
mark c a [] = []
mark c a (b ∷ bs) =
    let rest = mark c (a + 16 + b.size) bs in if a == c then block b.size true ∷ bs else b ∷ rest

-- The block at address `c` with its right neighbour taken in.
unfoldable pub merge : ℕ → ℕ → List Block → List Block
merge c a [] = []
merge c a (b ∷ []) = b ∷ []
merge c a (b ∷ d ∷ ds) =
    let rest = merge c (a + 16 + b.size) (d ∷ ds) in
    if a == c then block (b.size + 16 + d.size) b.free ∷ ds else b ∷ rest

-- Is the right neighbour of the block at `c` free?
unfoldable pub right_free : ℕ → ℕ → List Block → Bool
right_free c a [] = false
right_free c a (b ∷ []) = false
right_free c a (b ∷ d ∷ ds) =
    let rest = right_free c (a + 16 + b.size) (d ∷ ds) in if a == c then d.free else rest

-- Is the left neighbour free, and where does it stand?
unfoldable pub left_free : ℕ → ℕ → List Block → Bool
left_free c a [] = false
left_free c a (b ∷ []) = false
left_free c a (b ∷ d ∷ ds) =
    let rest = left_free c (a + 16 + b.size) (d ∷ ds) in
    if (a + 16 + b.size) == c then b.free else rest

unfoldable pub left_of : ℕ → ℕ → List Block → ℕ
left_of c a [] = 0
left_of c a (b ∷ []) = 0
left_of c a (b ∷ d ∷ ds) =
    let rest = left_of c (a + 16 + b.size) (d ∷ ds) in if (a + 16 + b.size) == c then a else rest

-- The block at `c` freed, and joined with the free blocks beside it.
unfoldable pub join_right : ℕ → ℕ → List Block → List Block
join_right c a bs = if right_free c a bs then merge c a bs else bs

unfoldable pub join_left : ℕ → ℕ → List Block → List Block
join_left c a bs = if left_free c a bs then merge (left_of c a bs) a bs else bs

unfoldable pub release : ℕ → ℕ → List Block → List Block
unfolding mark
release c a bs = join_left c a (join_right c a (mark c a bs))

-- There is a block at address `c`; there is one with a right neighbour.
abbrev pub HasBlock : ℕ → ℕ → List Block → Type 0
HasBlock c a [] = ⊥
HasBlock c a (b ∷ bs) = (a ≡ c) ⊎ HasBlock c (a + 16 + b.size) bs

abbrev pub HasPair : ℕ → ℕ → List Block → Type 0
HasPair c a [] = ⊥
HasPair c a (b ∷ []) = ⊥
HasPair c a (b ∷ d ∷ ds) = (a ≡ c) ⊎ HasPair c (a + 16 + b.size) (d ∷ ds)

-- The abstract heap as a map: the payload size of the used block at address `c`.
unfoldable pub used : ℕ → ℕ → List Block → Option ℕ
used c a [] = none
used c a (b ∷ bs) =
    let rest = used c (a + 16 + b.size) bs in
    if a == c then (if b.free then none else some b.size) else rest
