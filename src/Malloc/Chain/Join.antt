-- ===== src/Malloc/Chain/Join.antt =====
-- A block marked free and a block joined with its right neighbour, in memory: the writes of `free`
-- and of both halves of `coalesce` in src/kernel/lib/malloc.c.
use lux_kernel.Base.{
  ℕ, ◌+◌, ◌^◌, ◌≤◌, ◌<◌, ◌≡◌, ◌⊎◌, inl, inr, refl, ◌∙◌, subst, Bool, true, List, [], ◌∷◌, arith,
  eq→==, lt→==,
}
use lux_kernel.Malloc.{Memory, write, set_prev, absorb_next, join_prev}
use lux_kernel.Malloc.Blocks.{Block, block, span, mark, merge, HasBlock, HasPair}
use lux_kernel.Malloc.Steps.{HasBlock-ge}
use lux_kernel.Malloc.Chain.{Chain, link, header, Chain-frame, Chain-set_prev, link-cases}

link-mark : (c a x : ℕ) (bs : List Block) → link x (mark c a bs) ≡ link x bs
unfolding mark
link-mark c a x [] = refl
link-mark c a x (b ∷ bs) = ground arith

pub Chain-mark :
    (m : Memory) (c p a : ℕ) (bs : List Block)
    → HasBlock c a bs
    → Chain m p a bs
    → Chain (write m c (record (m c) { free = true })) p a (mark c a bs)
unfolding mark
Chain-mark m c p a [] at ch = absurd at
Chain-mark m c p a (b ∷ bs) (inl e) ch =
    rw (eq→== a c e)
      (ground arith, Chain-frame m _ a (a + 16 + b.size) bs (λ x h. ground arith) ch.1)
Chain-mark m c p a (b ∷ bs) (inr at) ch =
    let far = HasBlock-ge c (a + 16 + b.size) bs at in
    let t = lt→== a c (omega arith) in
    rw t (
      rw (link-mark c (a + 16 + b.size) (a + 16 + b.size) bs) (ground arith),
      Chain-mark m c a (a + 16 + b.size) bs at ch.1,
    )

-- The two halves of `coalesce` are one operation.
pub join_prev-eq :
    (m : Memory) (c : ℕ) → (m (m c).prev).next ≡ c → join_prev c m ≡ absorb_next (m c).prev m
unfolding join_prev absorb_next
join_prev-eq m c e = rw e

HasPair-ge : (c a : ℕ) (bs : List Block) → HasPair c a bs → a ≤ c
HasPair-ge c a [] at = absurd at
HasPair-ge c a (b ∷ []) at = absurd at
HasPair-ge c a (b ∷ d ∷ ds) (inl e) = omega arith
HasPair-ge c a (b ∷ d ∷ ds) (inr at) = omega (arith, HasPair-ge c (a + 16 + b.size) (d ∷ ds) at)

-- Where the block at `a` takes in its neighbour at `e`.
module _ (m : Memory) (a e s t nx p : ℕ) (f g : Bool) (pos : 0 < a) (next : e ≡ a + 16 + s)
    (is : m a ≡ header s e p f) (is' : m e ≡ header t nx a g) (fits : s + 16 + t < 2 ^ 32)
    (above : (nx ≡ 0) ⊎ (nx ≡ e + 16 + t)) where
  absorb_next-block : absorb_next a m a ≡ header (s + 16 + t) nx p f
  unfolding absorb_next
  absorb_next-block = ground arith

  absorb_next-above : (x : ℕ) → e + 16 + t ≤ x → absorb_next a m x ≡ set_prev nx a m x
  unfolding absorb_next
  absorb_next-above x h = ground arith

link-merge : (c a x : ℕ) (bs : List Block) → link x (merge c a bs) ≡ link x bs
unfolding merge
link-merge c a x [] = refl
link-merge c a x (b ∷ []) = refl
link-merge c a x (b ∷ d ∷ ds) = ground arith

-- `absorb_next` writes nowhere below its block.
absorb_next-below :
    (m : Memory) (c x : ℕ)
    → x < c
    → ((m (m c).next).next ≡ 0) ⊎ (c < (m (m c).next).next)
    → absorb_next c m x ≡ m x
unfolding absorb_next
absorb_next-below m c x h up = ground arith

pair-next :
    (m : Memory) (c p a : ℕ) (bs : List Block)
    → HasPair c a bs
    → Chain m p a bs
    → ((m (m c).next).next ≡ 0) ⊎ (c < (m (m c).next).next)
pair-next m c p a [] at ch = absurd at
pair-next m c p a (b ∷ []) at ch = absurd at
pair-next m c p a (b ∷ d ∷ ds) (inl e) ch =
    let n : (m c).next ≡ a + 16 + b.size = ground arith in
    rw n (ground (arith, link-cases (a + 16 + b.size + 16 + d.size) ds))
pair-next m c p a (b ∷ d ∷ ds) (inr at) ch = pair-next m c a (a + 16 + b.size) (d ∷ ds) at ch.1

Chain-merge_head :
    (m : Memory) (p a : ℕ) (b d : Block) (ds : List Block)
    → 0 < a
    → span (b ∷ d ∷ ds) < 2 ^ 32
    → Chain m p a (b ∷ d ∷ ds)
    → Chain (absorb_next a m) p a (block (b.size + 16 + d.size) b.free ∷ ds)
Chain-merge_head m p a b d ds pos fits ch =
    let e : a + 16 + (b.size + 16 + d.size) ≡ a + 16 + b.size + 16 + d.size = omega arith in
    let above = link-cases (a + 16 + b.size + 16 + d.size) ds in
    (
      rw e (
          absorb_next-block m a (a + 16 + b.size) b.size d.size _ p b.free d.free pos refl ch.0
            ch.1.0 (omega arith) above),
      rw e (
          Chain-frame _ _ a (a + 16 + b.size + 16 + d.size) ds
            (absorb_next-above m a (a + 16 + b.size) b.size d.size _ p b.free d.free pos refl ch.0
              ch.1.0 (omega arith) above)
            (Chain-set_prev m (a + 16 + b.size) a (a + 16 + b.size + 16 + d.size) ds (omega arith)
              ch.1.1)),
    )

pub Chain-merge :
    (m : Memory) (c p a : ℕ) (bs : List Block)
    → 0 < a
    → span bs < 2 ^ 32
    → HasPair c a bs
    → Chain m p a bs
    → Chain (absorb_next c m) p a (merge c a bs)
unfolding merge
Chain-merge m c p a [] pos fits at ch = absurd at
Chain-merge m c p a (b ∷ []) pos fits at ch = absurd at
Chain-merge m c p a (b ∷ d ∷ ds) pos fits (inl e) ch = rw (eq→== a c e) (
    subst (λ x. Chain (absorb_next x m) p a (block (b.size + 16 + d.size) b.free ∷ ds)) e
      (Chain-merge_head m p a b d ds pos fits ch))
Chain-merge m c p a (b ∷ d ∷ ds) pos fits (inr at) ch =
    let far = HasPair-ge c (a + 16 + b.size) (d ∷ ds) at in
    let t = lt→== a c (omega arith) in
    let up = pair-next m c a (a + 16 + b.size) (d ∷ ds) at ch.1 in
    rw t (
      rw (link-merge c (a + 16 + b.size) (a + 16 + b.size) (d ∷ ds))
          (absorb_next-below m c a (omega arith) up ∙ ch.0),
      Chain-merge m c a (a + 16 + b.size) (d ∷ ds) (omega arith) (omega arith) at ch.1,
    )
