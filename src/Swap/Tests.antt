-- ===== src/Swap/Tests.antt =====
-- Runs of src/kernel/fs/swap.c, and the theorems at them.
use lux_kernel.Base.{
  ℕ, ◌+◌, ◌-◌, ◌≡◌, ◌≤◌, ◌<◌, refl, true, false, none, some, List, [], ◌∷◌, get_or, arith,
  if◌then◌else◌,
}
use lux_kernel.Strings.{memcpy}
use lux_kernel.Strings.Copy.{within}
use lux_kernel.Malloc.{Heap, malloc, heap_init, align_up, find_block, find_loop, claim, split_block}
use lux_kernel.Swap.{
  SwapFile, empty_swap, Result, memory_at, moved, move_to, double_loop, swap_file_grow, written,
  swap_file_write, swap_file_read,
}
use lux_kernel.Swap.Grow
use lux_kernel.Swap.Grow.{IsSwap, Grown}
use lux_kernel.Swap.Write

abbrev boot : Heap
boot = record {
  base = 4096;
  mem = λ a. record { size = 0; next = 0; prev = 0; free = false };
  heap_head = 0;
  heap_ready = false;
}

abbrev stale : ℕ → ℕ
stale a = 170

abbrev swap_of : Result → SwapFile
swap_of none = empty_swap
swap_of (some r) = r.1

abbrev heap_of : Result → Heap
heap_of none = boot
heap_of (some r) = r.2

abbrev wrote : Result
wrote = swap_file_write stale (some empty_swap) 3 (some (7 ∷ 8 ∷ [])) 2 boot

abbrev grew : Result
grew = swap_file_grow stale empty_swap 600 boot

empty_swap-IsSwap : IsSwap empty_swap
empty_swap-IsSwap = record { room = omega arith; whole = refl; nothing = λ e. refl }

write_runs :
    swap_file_write stale (some empty_swap) 3 (some (7 ∷ 8 ∷ [])) 2 boot
    ≡ some (true, swap_of wrote, heap_of wrote)
unfolding swap_file_write swap_file_grow double_loop move_to moved written memory_at malloc
    heap_init align_up find_block find_loop claim split_block
write_runs = refl

grow_runs : swap_file_grow stale empty_swap 600 boot ≡ some (true, swap_of grew, heap_of grew)
unfolding swap_file_grow double_loop move_to moved memory_at malloc heap_init align_up find_block
    find_loop claim split_block
grow_runs = refl

-- The bytes before the range are the stale ones.
wrote_bytes : get_or (swap_of wrote).bytes 2 0 ≡ 170
unfolding swap_file_write swap_file_grow double_loop move_to moved written memory_at memcpy malloc
    heap_init align_up find_block find_loop claim split_block
wrote_bytes = refl

double_loop-ends_example : (cap : ℕ) × (double_loop 33 100000 512 ≡ some cap) × (100000 ≤ cap)
double_loop-ends_example = Grow.double_loop-ends 32 100000 512 (omega arith) (omega arith)

double_loop-diverges_example : double_loop 1000 3000000000 512 ≡ none
double_loop-diverges_example = Grow.double_loop-diverges 1000 3000000000 (omega arith)

swap_file_write-bytes_example :
    IsSwap (swap_of wrote)
    × (3 + 2 ≤ (swap_of wrote).size)
    × (0 ≤ (swap_of wrote).size)
    × ((i : ℕ)
        → i < 0
        → get_or (swap_of wrote).bytes i 0
          ≡ (if within 3 2 i then get_or (7 ∷ 8 ∷ []) (i - 3) 0 else get_or [] i 0))
    × ((j : ℕ) → j < 2 → get_or (swap_of wrote).bytes (3 + j) 0 ≡ get_or (7 ∷ 8 ∷ []) j 0)
swap_file_write-bytes_example =
    Write.swap_file_write-bytes stale empty_swap (swap_of wrote) 3 (7 ∷ 8 ∷ []) 2 boot
      (heap_of wrote) empty_swap-IsSwap (omega arith) write_runs

swap_file_read-write_example :
    (out : List ℕ) × (swap_file_read (some (swap_of wrote)) 3 (some (0 ∷ 0 ∷ [])) 2
      ≡ (true, some out))
    × ((j : ℕ) → j < 2 → get_or out j 0 ≡ get_or (7 ∷ 8 ∷ []) j 0)
swap_file_read-write_example =
    Write.swap_file_read-write stale empty_swap (swap_of wrote) 3 (7 ∷ 8 ∷ []) (0 ∷ 0 ∷ []) 2 boot
      (heap_of wrote) empty_swap-IsSwap (omega arith) (omega arith) write_runs

swap_file_read-wraps_example :
    swap_file_read (some empty_swap) 4294967295 (some (0 ∷ [])) 1
    ≡ (true, some (memcpy (0 ∷ []) 0 [] 4294967295 1))
swap_file_read-wraps_example =
    Write.swap_file_read-wraps empty_swap 4294967295 (0 ∷ []) 1 (omega arith) (omega arith)
      (omega arith)
