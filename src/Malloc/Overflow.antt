-- ===== src/Malloc/Overflow.antt =====
-- Requests of src/kernel/lib/malloc.c whose size does not fit 32 bits.
use lux_kernel.Base.{
  ℕ, ◌+◌, ◌-◌, ◌*◌, ◌/◌, ◌^◌, ◌≤◌, ◌<◌, ◌≡◌, ◌≢◌, ◌∙◌, List, arith, some, none, gt→==, ne→==,
}
use lux_kernel.Malloc.{Heap, malloc, calloc, align_up, u32, header_size}
use lux_kernel.Malloc.Blocks.{Block, fit, alloc, used}
use lux_kernel.Malloc.Chain.{IsHeap}
use lux_kernel.Malloc.Used.{used-alloc_self}
use lux_kernel.Malloc.Allocate.{malloc-alloc}
use lux_kernel.Malloc.Release.{used-some}

div-ne : (x c s : ℕ) → 0 < c → x < c * s → x / c ≢ s
div-ne x c s pos h e = grind arith

align_up-wraps : (n : ℕ) → 2 ^ 32 - 8 < n → n < 2 ^ 32 → align_up n ≡ 0
unfolding align_up
align_up-wraps n low high = omega arith

-- `calloc` of a product that does not fit 32 bits returns null and leaves the heap alone.
pub calloc-overflow :
    (count size : ℕ) (h : Heap)
    → 0 < count
    → 0 < size
    → 2 ^ 32 ≤ count * size
    → calloc count size h ≡ some (0, none, h)
unfolding calloc
calloc-overflow count size h pc ps over =
    let ne = div-ne (u32 (count * size)) count size pc (omega arith) in
    rw (gt→== count 0 pc, gt→== size 0 ps, ne→== (u32 (count * size) / count) size ne)

-- A request within seven bytes of 2 ^ 32 wraps to a size of zero: `malloc` then succeeds with a
-- block that is smaller than the request, whenever some block is free.
pub malloc_wraps :
    (h : Heap) (bs : List Block) (size : ℕ)
    → IsHeap h bs
    → 2 ^ 32 - 8 < size
    → size < 2 ^ 32
    → fit 0 h.base bs ≢ 0
    → (p : ℕ) × (h' : Heap) × (bs' : List Block) × (k : ℕ) × (malloc size h ≡ some (p, h'))
      × IsHeap h' bs'
      × (p ≢ 0)
      × (used (p - header_size) h.base bs' ≡ some k)
      × (k < size)
malloc_wraps h bs size is low high free_block =
    let n = align_up size in
    let c = fit n h.base bs in
    let found : c ≢ 0 = rw (align_up-wraps size low high) free_block in
    let (g, run, keep, base) = malloc-alloc h bs size is (omega arith) in
    let (fresh, now) = used-alloc_self n h.base bs found in
    let e : c + header_size - header_size ≡ c = omega arith in
    let live : used c g.base (alloc n bs) ≡ some now.0 = rw base now.1 in
    let (at, within, above, flag) = used-some g.mem c now.0 0 g.base (alloc n bs) live keep.chain in
    (
      c + header_size,
      g,
      alloc n bs,
      now.0,
      run ∙ rw (ne→== c 0 found),
      keep,
      omega arith,
      rw e now.1,
      omega (arith, keep.covers),
    )
