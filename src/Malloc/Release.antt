-- ===== src/Malloc/Release.antt =====
-- What free of src/kernel/lib/malloc.c guarantees, over every well-formed heap.
use lux_kernel.Base.{
  ℕ, ◌+◌, ◌-◌, ◌%◌, ◌^◌, ◌≤◌, ◌<◌, ◌≡◌, inl, inr, refl, ◌∙◌, true, false, ◌&&◌, not, List, [], ◌∷◌,
  arith, ◌==◌, if◌then◌else◌, Bool-cases, some, none, gt→==, eq→==, lt→ltb,
}
use lux_kernel.Malloc.{
  Heap, Memory, write, coalesce, absorb_next, join_prev, free, kernel_heap_size, pointer_in_heap,
  header_size,
}
use lux_kernel.Malloc.Blocks.{Block, span, release, used, HasBlock}
use lux_kernel.Malloc.Chain.{Chain, IsHeap}
use lux_kernel.Malloc.Chain.Release.{Chain-release}
use lux_kernel.Malloc.Chain.Keep.{span-release, AllAligned-release}
use lux_kernel.Malloc.Freed.{used-release}

-- A block in use lies in the list, within the array, and its header says so.
pub used-some :
    (m : Memory) (c k p a : ℕ) (bs : List Block)
    → used c a bs ≡ some k
    → Chain m p a bs
    → HasBlock c a bs × (c + 16 + k ≤ a + span bs) × (a ≤ c) × ((m c).free ≡ false)
unfolding used
used-some m c k p a [] e ch = cc
used-some m c k p a (b ∷ bs) e ch = elim (Bool-cases (a == c)) [
  | inl here ↦ (inl (ground arith), ground arith, ground arith, ground arith)
  | inr there ↦
      let (at, within, above, flag) = used-some m c k a (a + 16 + b.size) bs (rw there at e) ch.1 in
      (inr at, omega arith, omega arith, flag)
]

module _ (h : Heap) (bs : List Block) (p k : ℕ) (is : IsHeap h bs) (room : header_size ≤ p)
    (live : used (p - header_size) h.base bs ≡ some k) (pos : 0 < k) where
  -- Behind the guards of `free`.
  free_lem : free p h ≡ record h {
    mem =
        coalesce
          (p - header_size)
          (write h.mem (p - header_size) (record (h.mem (p - header_size)) { free = true }));
  }
  unfolding free pointer_in_heap
  free_lem =
      let (at, within, above, flag) =
        used-some h.mem (p - header_size) k 0 h.base bs live is.chain in
      let low = lt→ltb h.base p (omega arith) in
      let high = lt→ltb p (h.base + kernel_heap_size) (omega (arith, is.covers)) in
      let whole : (h.base + kernel_heap_size) % 2 ^ 32 ≡ h.base + kernel_heap_size =
        omega (arith, is.in_memory) in
      simp (gt→== p 0 (omega arith), is.ready, whole, low, high, flag)

  free-IsHeap : IsHeap (free p h) (release (p - header_size) h.base bs)
  free-IsHeap =
      let (at, within, above, flag) =
        used-some h.mem (p - header_size) k 0 h.base bs live is.chain in
      rw free_lem (record {
        ready = is.ready;
        head = is.head;
        not_null = is.not_null;
        base_aligned = is.base_aligned;
        in_memory = is.in_memory;
        covers = span-release (p - header_size) h.base bs ∙ is.covers;
        aligned = AllAligned-release (p - header_size) h.base bs is.aligned;
        chain =
            Chain-release h.mem (p - header_size) h.base bs is.not_null (omega (arith, is.covers))
              at is.chain;
      })

-- `free` of a block in use, of one byte or more, on a well-formed heap gives its bytes back: the heap stays well formed, the block is out of
-- the map and every other block in use is as it was.
pub free-used :
    (h : Heap) (bs : List Block) (p k : ℕ)
    → IsHeap h bs
    → header_size ≤ p
    → used (p - header_size) h.base bs ≡ some k
    → 0 < k
    → (bs' : List Block) × IsHeap (free p h) bs'
      × ((x : ℕ) → used x h.base bs' ≡ (if (p - header_size) == x then none else used x h.base bs))
free-used h bs p k is room live pos =
    let (at, within, above, flag) = used-some h.mem (p - header_size) k 0 h.base bs live is.chain in
    (
      release (p - header_size) h.base bs,
      free-IsHeap h bs p k is room live pos,
      λ x. used-release (p - header_size) x h.base bs at,
    )

-- The flag of a freed block stays set while its neighbours are joined.
absorb_next-flag : (m : Memory) (c : ℕ) → (absorb_next c m c).free ≡ (m c).free
unfolding absorb_next
absorb_next-flag m c = ground arith

join_prev-flag : (m : Memory) (c : ℕ) → (join_prev c m c).free ≡ (m c).free
unfolding join_prev
join_prev-flag m c = ground arith

coalesce-flag : (m : Memory) (c : ℕ) → (coalesce c m c).free ≡ (m c).free
unfolding coalesce
coalesce-flag m c =
    let m1 = if not ((m c).next == 0) && (m (m c).next).free then absorb_next c m else m in
    ground (arith, absorb_next-flag m c, join_prev-flag m1 c)

free_idle : (h : Heap) (p : ℕ) → (h.mem (p - header_size)).free ≡ true → free p h ≡ h
unfolding free
free_idle h p e = rw e (ground arith)

-- For the pointer of a block in use, of one byte or more, on a well-formed heap: a second `free` of it does
-- nothing.
pub free-free :
    (h : Heap) (bs : List Block) (p k : ℕ)
    → IsHeap h bs
    → header_size ≤ p
    → used (p - header_size) h.base bs ≡ some k
    → 0 < k
    → free p (free p h) ≡ free p h
free-free h bs p k is room live pos =
    let e = free_lem h bs p k is room live pos in
    free_idle (free p h) p (
      rw e
        (coalesce-flag _ (p - header_size) ∙ rw (eq→== (p - header_size) (p - header_size) refl)))
