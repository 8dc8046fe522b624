-- ===== src/Malloc.antt =====
-- src/kernel/lib/malloc.c: the first-fit allocator. Headers lie in the heap array and are linked
-- by addresses; `mem a` is the header that the bytes at address `a` hold, and `base` is the address
-- of `kernel_heap`. A header is sixteen bytes on the 32-bit target. The bytes of a payload are not
-- modelled: the code writes them only in `calloc`, whose `memset` is that of Strings.
pub mod Blocks
pub mod Steps
pub mod Used
pub mod Freed
pub mod Allocate
pub mod Release
pub mod Overflow
pub mod Stats
mod Tests
pub mod Chain
use mathlib.Core.Option
use lux_kernel.Base.{
  ℕ, zero, suc, ◌+◌, ◌-◌, ◌*◌, ◌/◌, ◌%◌, ◌^◌, Bool, true, false, not, ◌&&◌, ◌||◌, Option, none,
  some, leb, ltb, ◌==◌, if◌then◌else◌,
}

abbrev pub kernel_heap_size : ℕ
kernel_heap_size = 64 * 1024

abbrev pub alignment : ℕ
alignment = 8

abbrev pub header_size : ℕ
header_size = 16

abbrev pub min_split : ℕ
min_split = header_size + alignment

abbrev pub u32 : ℕ → ℕ
u32 n = n % 2 ^ 32

-- `struct block_header`, with addresses for the two pointers.
pub record Header : Type 0 where
  pub size : ℕ
  pub next : ℕ
  pub prev : ℕ
  pub free : Bool

abbrev pub Memory : Type 0
Memory = ℕ → Header

pub record Heap : Type 0 where
  pub base : ℕ
  pub mem : Memory
  pub heap_head : ℕ
  pub heap_ready : Bool

abbrev pub write : Memory → ℕ → Header → Memory
write m a h x = if x == a then h else m x

-- `(size + mask) & ~mask` with the mask 7, in 32 bits
unfoldable pub align_up : ℕ → ℕ
align_up size = let t = u32 (size + 7) in t - t % 8

pub pointer_in_heap : ℕ → ℕ → Bool
pointer_in_heap base addr = ltb base addr && ltb addr ((base + kernel_heap_size) % 2 ^ 32)

-- `if (b) b->prev = p`
abbrev pub set_prev : ℕ → ℕ → Memory → Memory
set_prev b p m = if b == 0 then m else write m b (record (m b) { prev = p })

-- The writes of `split_block` behind its two guards.
abbrev pub carve : ℕ → ℕ → Memory → Memory
carve block payload_size m =
    let old = m block in
    let new_block = block + header_size + payload_size in
    let m1 = write m new_block (record {
      size = old.size - payload_size - header_size;
      next = old.next;
      prev = block;
      free = true;
    }) in
    let m2 = set_prev old.next new_block m1 in
    write m2 block (record (m2 block) { size = payload_size; next = new_block })

unfoldable pub split_block : ℕ → ℕ → Memory → Memory
split_block block payload_size m =
    if leb (m block).size payload_size
    then m
    else if leb ((m block).size - payload_size) min_split
    then m
    else carve block payload_size m

-- The first half of `coalesce`: the next block goes into this one.
pub absorb_next : ℕ → Memory → Memory
absorb_next block m =
    let next = (m block).next in
    let m1 = write m block (record (m block) {
      size = u32 ((m block).size + header_size + (m next).size);
      next = (m next).next;
    }) in
    set_prev (m next).next block m1

-- The second half: this block goes into the one before it.
pub join_prev : ℕ → Memory → Memory
join_prev block m =
    let prev = (m block).prev in
    let m1 = write m prev (record (m prev) {
      size = u32 ((m prev).size + header_size + (m block).size);
      next = (m block).next;
    }) in
    set_prev (m block).next prev m1

pub coalesce : ℕ → Memory → Memory
coalesce block m =
    let m1 =
      if not ((m block).next == 0) && (m (m block).next).free then absorb_next block m else m in
    if not ((m1 block).prev == 0) && (m1 (m1 block).prev).free then join_prev block m1 else m1

-- The `while` of `find_block`; `none` means that the fuel ran out, 0 is the null pointer.
unfoldable pub find_loop : Memory → ℕ → ℕ → ℕ → Option ℕ
find_loop m size zero current = none
find_loop m size (suc fuel) current =
    let rest = find_loop m size fuel (m current).next in
    if current == 0
    then some 0
    else if (m current).free && leb size (m current).size
    then some current
    else rest

-- Each block takes at least its header, so the list has at most 4096 blocks.
abbrev pub fuel : ℕ
fuel = 4097

unfoldable pub find_block : Heap → ℕ → Option ℕ
find_block h size = find_loop h.mem size fuel h.heap_head

unfoldable pub heap_init : Heap → Heap
heap_init h = if h.heap_ready then h else record h {
  mem =
      write h.mem h.base
        (record { size = kernel_heap_size - header_size; next = 0; prev = 0; free = true });
  heap_head = h.base;
  heap_ready = true;
}

-- What `malloc` does with the block that it found.
unfoldable pub claim : Heap → ℕ → ℕ → ℕ × Heap
claim h aligned block =
    if block == 0
    then (0, h)
    else let m = split_block block aligned h.mem in
      (block + header_size, record h { mem = write m block (record (m block) { free = false }) })

unfoldable pub malloc : ℕ → Heap → Option (ℕ × Heap)
malloc size h =
    if size == 0
    then some (0, h)
    else let h' = heap_init h in
      Option.map (claim h' (align_up size)) (find_block h' (align_up size))

pub free : ℕ → Heap → Heap
free ptr h =
    if ptr == 0 || not h.heap_ready || not (pointer_in_heap h.base ptr)
    then h
    else let block = ptr - header_size in
      if (h.mem block).free then h else record h {
        mem = coalesce block (write h.mem block (record (h.mem block) { free = true }));
      }

-- The pointer and the length that `calloc` hands to `memset`, with the heap; no length is given
-- where it returns null.
pub calloc : ℕ → ℕ → Heap → Option (ℕ × Option ℕ × Heap)
calloc count size h =
    if count == 0 || size == 0
    then some (0, none, h)
    else let total = u32 (count * size) in
      if not (total / count == size)
      then some (0, none, h)
      else Option.map (λ (ptr, h'). (ptr, (if ptr == 0 then none else some total), h'))
          (malloc total h)

pub record HeapStats : Type 0 where
  pub total_bytes : ℕ
  pub used_bytes : ℕ
  pub free_bytes : ℕ
  pub largest_free_block : ℕ
  pub allocation_count : ℕ
  pub free_block_count : ℕ

-- One round of the statistics loop.
pub count_block : Header → HeapStats → HeapStats
count_block b s =
    if b.free
    then record s {
      free_bytes = u32 (s.free_bytes + b.size);
      free_block_count = u32 (s.free_block_count + 1);
      largest_free_block = if ltb s.largest_free_block b.size then b.size else s.largest_free_block;
    }
    else record s {
      used_bytes = u32 (s.used_bytes + b.size);
      allocation_count = u32 (s.allocation_count + 1);
    }

pub stats_loop : Memory → ℕ → ℕ → HeapStats → Option HeapStats
stats_loop m zero current s = none
stats_loop m (suc fuel) current s =
    let rest = stats_loop m fuel (m current).next (count_block (m current) s) in
    if current == 0 then some s else rest

abbrev pub no_stats : HeapStats
no_stats = record {
  total_bytes = kernel_heap_size - header_size;
  used_bytes = 0;
  free_bytes = 0;
  largest_free_block = 0;
  allocation_count = 0;
  free_block_count = 0;
}

pub heap_get_stats : Heap → Option HeapStats
heap_get_stats h =
    if not h.heap_ready || h.heap_head == 0
    then some (record no_stats {
      free_bytes = kernel_heap_size - header_size;
      largest_free_block = kernel_heap_size - header_size;
      free_block_count = 1;
    })
    else stats_loop h.mem fuel h.heap_head no_stats
