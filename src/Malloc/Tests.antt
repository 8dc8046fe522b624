-- ===== src/Malloc/Tests.antt =====
-- Runs of src/kernel/lib/malloc.c on a concrete heap, and the theorems at it.
use lux_kernel.Base.{
  ℕ, ◌+◌, ◌-◌, ◌*◌, ◌%◌, ◌≤◌, ◌<◌, ◌≡◌, ◌≢◌, refl, true, false, List, [], ◌∷◌, arith, ◌==◌,
  if◌then◌else◌, Option, none, some,
}
use lux_kernel.Malloc.{
  Heap, HeapStats, no_stats, malloc, free, heap_init, align_up, find_block, find_loop, claim,
  split_block, coalesce, absorb_next, join_prev, pointer_in_heap, heap_get_stats, kernel_heap_size,
  header_size,
}
use lux_kernel.Malloc.Blocks.{Block, block, fit, alloc, used}
use lux_kernel.Malloc.Chain.{IsHeap}
use lux_kernel.Malloc.Allocate
use lux_kernel.Malloc.Release
use lux_kernel.Malloc.Overflow
use lux_kernel.Malloc.Stats
use lux_kernel.Malloc.Stats.{IsTally}

abbrev boot : Heap
boot = record {
  base = 4096;
  mem = λ a. record { size = 0; next = 0; prev = 0; free = false };
  heap_head = 0;
  heap_ready = false;
}

abbrev fresh : Heap
fresh = record {
  base = 4096;
  mem = λ a.
      if a == 4096
      then record { size = 65520; next = 0; prev = 0; free = true }
      else record { size = 0; next = 0; prev = 0; free = false };
  heap_head = 4096;
  heap_ready = true;
}

abbrev one_block : List Block
one_block = block 65520 true ∷ []

fresh-IsHeap : IsHeap fresh one_block
fresh-IsHeap = record {
  ready = refl;
  head = refl;
  not_null = omega arith;
  base_aligned = refl;
  in_memory = omega arith;
  covers = refl;
  aligned = (refl, tt);
  chain = (refl, tt);
}

-- The heap with a hundred bytes handed out.
abbrev two_blocks : List Block
two_blocks = block 104 false ∷ block 65400 true ∷ []

abbrev lent : Heap
lent = record fresh {
  mem = λ a.
      if a == 4096
      then record { size = 104; next = 4216; prev = 0; free = false }
      else if a == 4216
      then record { size = 65400; next = 0; prev = 4096; free = true }
      else record { size = 0; next = 0; prev = 0; free = false };
}

lent-IsHeap : IsHeap lent two_blocks
lent-IsHeap = record {
  ready = refl;
  head = refl;
  not_null = omega arith;
  base_aligned = refl;
  in_memory = omega arith;
  covers = refl;
  aligned = (refl, (refl, tt));
  chain = (refl, (refl, tt));
}

abbrev pointer : Option (ℕ × Heap) → ℕ
pointer none = 1
pointer (some r) = r.0

abbrev heap : Option (ℕ × Heap) → Heap
heap none = boot
heap (some r) = r.1

malloc_first : pointer (malloc 100 boot) ≡ 4112
unfolding malloc heap_init align_up find_block find_loop claim split_block
malloc_first = refl

malloc_splits : (heap (malloc 100 boot)).mem 4216 ≡ lent.mem 4216
unfolding malloc heap_init align_up find_block find_loop claim split_block
malloc_splits = refl

free_joins : (free 4112 (heap (malloc 100 boot))).mem 4096 ≡ fresh.mem 4096
unfolding malloc heap_init align_up find_block find_loop claim split_block free coalesce absorb_next
    join_prev pointer_in_heap
free_joins = refl

malloc-alloc_example :
    (h' : Heap) × (malloc 100 fresh
      ≡ some (
        (if fit (align_up 100) 4096 one_block == 0
            then 0
            else fit (align_up 100) 4096 one_block + header_size),
        h',
      ))
    × IsHeap h' (alloc (align_up 100) one_block)
    × (h'.base ≡ 4096)
malloc-alloc_example = Allocate.malloc-alloc fresh one_block 100 fresh-IsHeap (omega arith)

free-used_example :
    (bs' : List Block) × IsHeap (free 4112 lent) bs'
    × ((x : ℕ) → used x 4096 bs' ≡ (if 4096 == x then none else used x 4096 two_blocks))
unfolding used
free-used_example =
    Release.free-used lent two_blocks 4112 104 lent-IsHeap (omega arith) refl (omega arith)

free-free_example : free 4112 (free 4112 lent) ≡ free 4112 lent
unfolding used
free-free_example =
    Release.free-free lent two_blocks 4112 104 lent-IsHeap (omega arith) refl (omega arith)

malloc_wraps_example :
    (p : ℕ) × (h' : Heap) × (bs' : List Block) × (k : ℕ) × (malloc 4294967295 fresh ≡ some (p, h'))
    × IsHeap h' bs'
    × (p ≢ 0)
    × (used (p - header_size) 4096 bs' ≡ some k)
    × (k < 4294967295)
unfolding fit
malloc_wraps_example =
    Overflow.malloc_wraps fresh one_block 4294967295 fresh-IsHeap (omega arith) (omega arith)
      (omega arith)

heap_get_stats-sums_example :
    (s : HeapStats) × (heap_get_stats lent ≡ some s)
    × IsTally no_stats two_blocks s
    × (s.used_bytes + s.free_bytes + header_size * (s.allocation_count + s.free_block_count)
        ≡ kernel_heap_size)
heap_get_stats-sums_example = Stats.heap_get_stats-sums lent two_blocks lent-IsHeap

abbrev lent_heap : Heap
lent_heap = heap (malloc 100 fresh)

malloc-used_example :
    (bs' : List Block) × (k : ℕ) × IsHeap lent_heap bs'
    × (lent_heap.base ≡ 4096)
    × (100 ≤ k)
    × (4112 % 8 ≡ 0)
    × (used (4112 - header_size) 4096 one_block ≡ none)
    × (used (4112 - header_size) 4096 bs' ≡ some k)
    × ((x : ℕ) → x ≢ 4112 - header_size → used x 4096 bs' ≡ used x 4096 one_block)
unfolding malloc heap_init align_up find_block find_loop claim split_block
malloc-used_example =
    Allocate.malloc-used fresh one_block 100 4112 lent_heap fresh-IsHeap (omega arith) (omega arith)
      refl (omega arith)
