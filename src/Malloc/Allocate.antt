-- ===== src/Malloc/Allocate.antt =====
-- What heap_init and malloc of src/kernel/lib/malloc.c guarantee, over every well-formed heap.
use lux_kernel.Base.{
  ℕ, ◌+◌, ◌-◌, ◌%◌, ◌^◌, ◌≤◌, ◌<◌, ◌≡◌, ◌≢◌, inl, inr, refl, sym, ap, ◌∙◌, true, false, ◌&&◌, List,
  [], ◌∷◌, arith, leb, ◌==◌, if◌then◌else◌, Bool-cases, some, none, gt→==, eq→==, subst, ne→==,
  ==_iff,
}
use lux_kernel.Malloc.{
  Heap, malloc, heap_init, align_up, find_block, find_loop, claim, kernel_heap_size, fuel,
  header_size,
}
use lux_kernel.Malloc.Blocks.{Block, block, fit, alloc, used}
use lux_kernel.Malloc.Chain.{link-base, IsHeap, AllAligned}
use lux_kernel.Malloc.Chain.Claim.{find_loop-fit, Chain-alloc}
use lux_kernel.Malloc.Chain.Keep.{length-le-span, span-alloc, AllAligned-alloc}
use lux_kernel.Malloc.Steps.{fit-here, fit-there, alloc-there}
use lux_kernel.Malloc.Used.{used-alloc_ne, used-alloc_self}

-- Initialisation gives one free block over the whole array.
pub heap_init-IsHeap :
    (h : Heap)
    → h.heap_ready ≡ false
    → 0 < h.base
    → h.base % 8 ≡ 0
    → h.base + kernel_heap_size < 2 ^ 32
    → IsHeap (heap_init h) (block (kernel_heap_size - header_size) true ∷ [])
unfolding heap_init
heap_init-IsHeap h fresh pos al fits = rw fresh (record {
  ready = refl;
  head = refl;
  not_null = pos;
  base_aligned = al;
  in_memory = fits;
  covers = refl;
  aligned = omega arith;
  chain = (ground arith, tt);
})

pub align_up-aligned : (n : ℕ) → align_up n % 8 ≡ 0
unfolding align_up
align_up-aligned n = omega arith

pub align_up-le : (n : ℕ) → n ≤ 2 ^ 32 - 8 → (n ≤ align_up n) × (align_up n < n + 8)
unfolding align_up
align_up-le n h = (omega arith, omega arith)

module _ (h : Heap) (bs : List Block) (is : IsHeap h bs) where
  find_block-fit : (n : ℕ) → find_block h n ≡ some (fit n h.base bs)
  unfolding find_block
  find_block-fit n = rw is.head (
      subst (λ a. find_loop h.mem n fuel a ≡ some (fit n h.base bs)) (link-base bs is.covers)
        (find_loop-fit h.mem n fuel 0 h.base bs is.not_null
          (omega (arith, length-le-span bs, is.covers)) is.chain))

  alloc-IsHeap :
      (n : ℕ)
      → n % 8 ≡ 0
      → fit n h.base bs ≢ 0
      → IsHeap (claim h n (fit n h.base bs)).1 (alloc n bs)
  unfolding claim
  alloc-IsHeap n al found = rw (ne→== (fit n h.base bs) 0 found) (record {
    ready = is.ready;
    head = is.head;
    not_null = is.not_null;
    base_aligned = is.base_aligned;
    in_memory = is.in_memory;
    covers = span-alloc n bs ∙ is.covers;
    aligned = AllAligned-alloc n bs al is.aligned;
    chain = Chain-alloc h.mem n 0 h.base bs is.not_null found is.chain;
  })

  heap_init-ready : heap_init h ≡ h
  unfolding heap_init
  heap_init-ready = simp is.ready

  malloc_lem :
      (size : ℕ)
      → 0 < size
      → malloc size h ≡ some (claim h (align_up size) (fit (align_up size) h.base bs))
  unfolding malloc
  malloc_lem size pos = rw (gt→== size 0 pos, heap_init-ready, find_block-fit (align_up size))

alloc-eq_of_fit : (n a : ℕ) (bs : List Block) → 0 < a → fit n a bs ≡ 0 → alloc n bs ≡ bs
alloc-eq_of_fit n a [] pos e = unfold alloc in refl
alloc-eq_of_fit n a (b ∷ bs) pos e = elim (Bool-cases (b.free && leb n b.size)) [
  | inl here ↦ absurd (omega (arith, fit-here n a b bs here))
  | inr there ↦ rw (alloc-there n a b bs there) (
      ap (λ t. b ∷ t)
        (alloc-eq_of_fit n (a + 16 + b.size) bs (omega arith) (sym (fit-there n a b bs there) ∙ e)))
]

pub fit-aligned : (n a : ℕ) (bs : List Block) → a % 8 ≡ 0 → AllAligned bs → fit n a bs % 8 ≡ 0
unfolding fit
fit-aligned n a [] e al = refl
fit-aligned n a (b ∷ bs) e al =
    ground (arith, fit-aligned n (a + 16 + b.size) bs (omega arith) al.1)

-- `malloc` of a positive size refines the first-fit search over the list of blocks: it returns the
-- payload of the first free block with room for the aligned size, or null if there is none, and
-- the heap is then that of `alloc`.
pub malloc-alloc :
    (h : Heap) (bs : List Block) (size : ℕ)
    → IsHeap h bs
    → 0 < size
    → let found = fit (align_up size) h.base bs in
      (h' : Heap) × (malloc size h ≡ some ((if found == 0 then 0 else found + header_size), h'))
      × IsHeap h' (alloc (align_up size) bs)
      × (h'.base ≡ h.base)
unfolding claim
malloc-alloc h bs size is pos =
    let n = align_up size in
    let found = fit n h.base bs in
    let run = malloc_lem h bs is size pos in
    elim (Bool-cases (found == 0)) [
      | inl null ↦
          let same = alloc-eq_of_fit n h.base bs is.not_null ((==_iff found 0).0 null) in
          (h, run ∙ rw null, rw same is, refl)
      | inr some_block ↦
          let ne : found ≢ 0 = ground arith in
          (
            (claim h n found).1,
            run ∙ rw some_block,
            alloc-IsHeap h bs is n (align_up-aligned size) ne,
            rw some_block,
          )
    ]

-- A pointer that is not null comes from the search.
malloc-found :
    (h : Heap) (bs : List Block) (size p : ℕ) (h' : Heap)
    → IsHeap h bs
    → 0 < size
    → malloc size h ≡ some (p, h')
    → p ≢ 0
    → (fit (align_up size) h.base bs ≢ 0)
      × (p - header_size ≡ fit (align_up size) h.base bs)
      × (p ≡ fit (align_up size) h.base bs + header_size)
      × IsHeap h' (alloc (align_up size) bs)
      × (h'.base ≡ h.base)
malloc-found h bs size p h' is pos got ne =
    let c = fit (align_up size) h.base bs in
    let (g, run, keep, base) = malloc-alloc h bs size is pos in
    let eh : h' ≡ g = cc (got, run) in
    let ep : p ≡ (if c == 0 then 0 else c + header_size) = cc (got, run) in
    let found : c ≢ 0 = λ z. ne (ep ∙ rw (eq→== c 0 z)) in
    let e : p ≡ c + header_size = ep ∙ rw (ne→== c 0 found) in
    (found, omega arith, e, rw eh keep, rw eh base)

-- What a caller sees of `malloc`, for a request of at least one byte and at most 2^32 - 8 on a well-formed
-- heap: a pointer that is not null is the payload, eight-byte aligned, of a block that was not in use and
-- is now, with room for the request; no other block changes hands, and the heap is well formed.
pub malloc-used :
    (h : Heap) (bs : List Block) (size p : ℕ) (h' : Heap)
    → IsHeap h bs
    → 0 < size
    → size ≤ 2 ^ 32 - 8
    → malloc size h ≡ some (p, h')
    → p ≢ 0
    → (bs' : List Block) × (k : ℕ) × IsHeap h' bs'
      × (h'.base ≡ h.base)
      × (size ≤ k)
      × (p % 8 ≡ 0)
      × (used (p - header_size) h.base bs ≡ none)
      × (used (p - header_size) h.base bs' ≡ some k)
      × ((x : ℕ) → x ≢ p - header_size → used x h.base bs' ≡ used x h.base bs)
malloc-used h bs size p h' is pos fits got ne =
    let n = align_up size in
    let c = fit n h.base bs in
    let (found, ec, ep, keep, base) = malloc-found h bs size p h' is pos got ne in
    let (fresh, now) = used-alloc_self n h.base bs found in
    (
      alloc n bs,
      now.0,
      keep,
      base,
      omega (arith, (align_up-le size fits).0, now.2),
      omega (arith, fit-aligned n h.base bs is.base_aligned is.aligned),
      rw ec fresh,
      rw ec now.1,
      λ x far. used-alloc_ne n x h.base bs found (λ e. far (sym e ∙ sym ec)),
    )
