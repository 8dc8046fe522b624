-- ===== src/Malloc/Chain.antt =====
-- When headers in memory are a list of blocks: the invariant of src/kernel/lib/malloc.c.
pub mod Claim
pub mod Join
pub mod Release
pub mod Keep
use lux_kernel.Base.{
  ℕ, zero, suc, ◌+◌, ◌-◌, ◌%◌, ◌^◌, ◌≤◌, ◌<◌, ◌≡◌, ◌≢◌, ◌⊎◌, inl, inr, refl, Bool, true, false,
  List, [], ◌∷◌, arith, leb, ltb, ◌==◌, if◌then◌else◌, Bool-cases,
}
use lux_kernel.Malloc.{Header, Memory, Heap, write, set_prev, kernel_heap_size}
use lux_kernel.Malloc.Blocks.{Block, span}

abbrev pub header : ℕ → ℕ → ℕ → Bool → Header
header size next prev free = record { size = size; next = next; prev = prev; free = free }

-- The pointer to the rest of the list, whose first header would stand at `a`.
abbrev pub link : ℕ → List Block → ℕ
link a [] = 0
link a (b ∷ bs) = a

-- The headers from address `a` on are the blocks `bs`, side by side; `p` is the one before.
abbrev pub Chain : Memory → ℕ → ℕ → List Block → Type 0
Chain m p a [] = Unit
Chain m p a (b ∷ bs) =
    (m a ≡ header b.size (link (a + 16 + b.size) bs) p b.free) × Chain m a (a + 16 + b.size) bs

pub Chain-frame :
    (m m' : Memory) (p a : ℕ) (bs : List Block)
    → ((x : ℕ) → a ≤ x → m' x ≡ m x)
    → Chain m p a bs
    → Chain m' p a bs
Chain-frame m m' p a [] same c = tt
Chain-frame m m' p a (b ∷ bs) same c = (
  ground (arith, same a),
  Chain-frame m _ a (a + 16 + b.size) bs (λ x h. same x (omega arith)) c.1,
)

-- The first header of a list has a new predecessor.
pub Chain-set_prev :
    (m : Memory) (p q a : ℕ) (bs : List Block)
    → 0 < a
    → Chain m p a bs
    → Chain (set_prev (link a bs) q m) q a bs
Chain-set_prev m p q a [] pos c = tt
Chain-set_prev m p q a (b ∷ bs) pos c =
    (ground arith, Chain-frame m _ a (a + 16 + b.size) bs (λ x h. ground arith) c.1)

pub link-cases : (a : ℕ) (bs : List Block) → (link a bs ≡ 0) ⊎ (link a bs ≡ a)
link-cases a [] = inl refl
link-cases a (b ∷ bs) = inr refl

-- The well-formed heap: all 64 KiB are blocks, with sizes that keep payloads aligned.
abbrev pub AllAligned : List Block → Type 0
AllAligned [] = Unit
AllAligned (b ∷ bs) = (b.size % 8 ≡ 0) × AllAligned bs

pub record IsHeap (h : Heap) (bs : List Block) : Type 0 where
  pub ready : h.heap_ready ≡ true
  pub head : h.heap_head ≡ h.base
  pub not_null : 0 < h.base
  pub base_aligned : h.base % 8 ≡ 0
  pub in_memory : h.base + kernel_heap_size < 2 ^ 32
  pub covers : span bs ≡ kernel_heap_size
  pub aligned : AllAligned bs
  pub chain : Chain h.mem 0 h.base bs

-- The list is not empty, so it is linked from the base.
pub link-base : {a : ℕ} (bs : List Block) → span bs ≡ kernel_heap_size → link a bs ≡ a
link-base [] e = absurd (omega arith)
link-base (b ∷ bs) e = refl
