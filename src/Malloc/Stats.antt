-- ===== src/Malloc/Stats.antt =====
-- The statistics of src/kernel/lib/malloc.c against sums over the list of blocks.
use lux_kernel.Base.{
  ℕ, zero, suc, ◌+◌, ◌*◌, ◌^◌, ◌<◌, ◌≡◌, refl, ap, ◌∙◌, List, [], ◌∷◌, arith, ltb, if◌then◌else◌,
  some, gt→==, length,
}
use lux_kernel.Malloc.{
  Header, Heap, Memory, HeapStats, no_stats, count_block, stats_loop, heap_get_stats,
  kernel_heap_size, fuel, header_size,
}
use lux_kernel.Malloc.Blocks.{Block, span}
use lux_kernel.Malloc.Chain.{Chain, link, IsHeap, link-base}
use lux_kernel.Malloc.Chain.Keep.{length-le-span}

abbrev pub used_bytes : List Block → ℕ
used_bytes [] = 0
used_bytes (b ∷ bs) = (if b.free then 0 else b.size) + used_bytes bs

abbrev pub free_bytes : List Block → ℕ
free_bytes [] = 0
free_bytes (b ∷ bs) = (if b.free then b.size else 0) + free_bytes bs

abbrev pub used_count : List Block → ℕ
used_count [] = 0
used_count (b ∷ bs) = (if b.free then 0 else 1) + used_count bs

abbrev pub free_count : List Block → ℕ
free_count [] = 0
free_count (b ∷ bs) = (if b.free then 1 else 0) + free_count bs

abbrev pub largest_free : ℕ → List Block → ℕ
largest_free n [] = n
largest_free n (b ∷ bs) =
    largest_free (if b.free then (if ltb n b.size then b.size else n) else n) bs

-- The figures of a list of blocks on top of those of `s`.
abbrev pub IsTally : HeapStats → List Block → HeapStats → Type 0
IsTally s bs t =
    (t.total_bytes ≡ s.total_bytes)
    × (t.used_bytes ≡ s.used_bytes + used_bytes bs)
    × (t.free_bytes ≡ s.free_bytes + free_bytes bs)
    × (t.largest_free_block ≡ largest_free s.largest_free_block bs)
    × (t.allocation_count ≡ s.allocation_count + used_count bs)
    × (t.free_block_count ≡ s.free_block_count + free_count bs)

count_block-IsTally :
    (b : Block) (g : Header) (s : HeapStats)
    → g.size ≡ b.size
    → g.free ≡ b.free
    → s.used_bytes + s.free_bytes + s.allocation_count + s.free_block_count + span (b ∷ []) < 2 ^ 32
    → IsTally s (b ∷ []) (count_block g s)
unfolding count_block
count_block-IsTally b g s e f fits = rw (e, f) (ground arith)

stats_loop-IsTally :
    (m : Memory) (k p a : ℕ) (bs : List Block) (s : HeapStats)
    → 0 < a
    → length bs < k
    → s.used_bytes + s.free_bytes + s.allocation_count + s.free_block_count + span bs < 2 ^ 32
    → Chain m p a bs
    → (t : HeapStats) × (stats_loop m k (link a bs) s ≡ some t) × IsTally s bs t
unfolding stats_loop
stats_loop-IsTally m zero p a bs s pos enough fits ch = absurd (omega arith)
stats_loop-IsTally m (suc k) p a [] s pos enough fits ch = (s, refl, omega arith)
stats_loop-IsTally m (suc k) p a (b ∷ bs) s pos enough fits ch =
    let s' = count_block (m a) s in
    let one : IsTally s (b ∷ []) s' =
      count_block-IsTally b (m a) s (ground arith) (ground arith) (omega arith) in
    let (t, run, rest) =
      stats_loop-IsTally m k a (a + 16 + b.size) bs s' (omega arith) (omega arith)
        (ground (arith, one)) ch.1 in
    let next : (m a).next ≡ link (a + 16 + b.size) bs = ground arith in
    (
      t,
      rw (gt→== a 0 pos) (ap (λ x. stats_loop m k x s') next ∙ run),
      (
        rest.0 ∙ one.0,
        omega arith,
        omega arith,
        rest.3 ∙ ap (λ n. largest_free n bs) one.3,
        omega arith,
        omega arith,
      ),
    )

used-add-free :
    (bs : List Block)
    → used_bytes bs + free_bytes bs + 16 * (used_count bs + free_count bs) ≡ span bs
used-add-free [] = refl
used-add-free (b ∷ bs) = ground (arith, used-add-free bs)

-- On every well-formed heap the statistics are the sums over its blocks, and with the headers they
-- account for every byte of the array.
pub heap_get_stats-sums :
    (h : Heap) (bs : List Block)
    → IsHeap h bs
    → (s : HeapStats) × (heap_get_stats h ≡ some s)
      × IsTally no_stats bs s
      × (s.used_bytes + s.free_bytes + header_size * (s.allocation_count + s.free_block_count)
          ≡ kernel_heap_size)
unfolding heap_get_stats
heap_get_stats-sums h bs is =
    let (t, run, tally) =
      stats_loop-IsTally h.mem fuel 0 h.base bs no_stats is.not_null
        (omega (arith, length-le-span bs, is.covers)) (omega (arith, is.covers)) is.chain in
    (
      t,
      rw (is.ready, is.head, gt→== h.base 0 is.not_null)
          (rw (link-base {a = h.base} bs is.covers) at run),
      tally,
      omega (arith, used-add-free bs, is.covers),
    )
