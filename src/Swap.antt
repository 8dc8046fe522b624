-- ===== src/Swap.antt =====
-- src/kernel/fs/swap.c over the kernel heap and the file system. The bytes of a swap file's buffer stand
-- beside the buffer's address, which is 0 where there is none; a swap file that is `none` is a null
-- pointer. `stale` gives the byte that memory holds before it is handed out.
pub mod Grow
pub mod Write
mod Tests
use lux_kernel.Base.{
  ℕ, zero, suc, ◌+◌, ◌-◌, ◌*◌, ◌^◌, Bool, true, false, not, ◌&&◌, ◌||◌, Option, none, some, List,
  [], ◌∷◌, leb, ltb, ◌==◌, if◌then◌else◌,
}
use lux_kernel.Strings.{memcpy}
use lux_kernel.Malloc.{Heap, u32, malloc, free}
use lux_kernel.Device.{Device}
use lux_kernel.Fs.{Sys, Outcome, ok, fail, fault}
use lux_kernel.Fs.Api.{fs_stat_path, fs_read, fs_touch, fs_write}

pub record SwapFile : Type 0 where
  pub data_ptr : ℕ
  pub bytes : List ℕ
  pub size : ℕ
  pub capacity : ℕ

abbrev pub empty_swap : SwapFile
empty_swap = record { data_ptr = 0; bytes = []; size = 0; capacity = 0 }

-- The bytes of memory from an address on.
unfoldable pub memory_at : (ℕ → ℕ) → ℕ → ℕ → List ℕ
memory_at stale a zero = []
memory_at stale a (suc n) = stale a ∷ memory_at stale (a + 1) n

-- `while (new_capacity < min_capacity) new_capacity *= 2u;`, at most `rounds` times.
unfoldable pub double_loop : ℕ → ℕ → ℕ → Option ℕ
double_loop zero min_capacity new_capacity = none
double_loop (suc rounds) min_capacity new_capacity =
    let rest = double_loop rounds min_capacity (u32 (new_capacity * 2)) in
    if ltb new_capacity min_capacity then rest else some new_capacity

-- A result, the swap file and the heap; `none` where a loop does not end.
abbrev pub Result : Type 0
Result = Option (Bool × SwapFile × Heap)

abbrev pub or_diverge : {A : Type 0} → Option A → (A → Result) → Result
or_diverge none f = none
or_diverge (some a) f = f a

-- The copy into the buffer, and the new size.
unfoldable pub written : ℕ → List ℕ → ℕ → SwapFile → SwapFile
written offset src len swap =
    let end = u32 (offset + len) in
    record swap {
      bytes = memcpy swap.bytes offset src 0 len;
      size = if ltb swap.size end then end else swap.size;
    }

module _ (stale : ℕ → ℕ) where
  -- The swap file in a new buffer.
  unfoldable pub moved : ℕ → ℕ → SwapFile → SwapFile
  moved new_data new_capacity swap =
      let fresh = memory_at stale new_data new_capacity in
      record {
        data_ptr = new_data;
        bytes =
            if not (swap.data_ptr == 0) && not (swap.size == 0)
            then memcpy fresh 0 swap.bytes 0 swap.size
            else fresh;
        size = swap.size;
        capacity = new_capacity;
      }

  -- What `swap_file_grow` does with the result of `malloc`.
  unfoldable pub move_to : ℕ → ℕ → SwapFile → Heap → Result
  move_to new_data new_capacity swap h =
      if new_data == 0
      then some (false, swap, h)
      else some (
        true,
        moved new_data new_capacity swap,
        (if swap.data_ptr == 0 then h else free swap.data_ptr h),
      )

  unfoldable pub swap_file_grow : SwapFile → ℕ → Heap → Result
  swap_file_grow swap min_capacity h =
      if leb min_capacity swap.capacity
      then some (true, swap, h)
      else or_diverge
          (double_loop 33 min_capacity (if swap.capacity == 0 then 512 else swap.capacity))
          λ new_capacity.
            or_diverge (malloc new_capacity h)
              λ (new_data, h'). move_to new_data new_capacity swap h'

  unfoldable pub swap_file_init : Option SwapFile → ℕ → Heap → Result
  swap_file_init none reserve_bytes h = some (false, empty_swap, h)
  swap_file_init (some swap) reserve_bytes h =
      if reserve_bytes == 0
      then some (true, empty_swap, h)
      else swap_file_grow empty_swap reserve_bytes h

  unfoldable pub swap_file_reserve : Option SwapFile → ℕ → Heap → Result
  swap_file_reserve none new_capacity h = some (false, empty_swap, h)
  swap_file_reserve (some swap) new_capacity h = swap_file_grow swap new_capacity h

  unfoldable pub swap_file_write : Option SwapFile → ℕ → Option (List ℕ) → ℕ → Heap → Result
  swap_file_write none offset src len h = some (false, empty_swap, h)
  swap_file_write (some swap) offset none len h = some (false, swap, h)
  swap_file_write (some swap) offset (some src) len h =
      or_diverge (swap_file_grow swap (u32 (offset + len)) h) λ (grown, swap', h').
        some (grown, (if grown then written offset src len swap' else swap'), h')

  unfoldable pub swap_file_append : Option SwapFile → Option (List ℕ) → ℕ → Heap → Result
  swap_file_append none src len h = some (false, empty_swap, h)
  swap_file_append (some swap) src len h = swap_file_write (some swap) swap.size src len h

unfoldable pub swap_file_free : Option SwapFile → Heap → SwapFile × Heap
swap_file_free none h = (empty_swap, h)
swap_file_free (some swap) h =
    (empty_swap, (if swap.data_ptr == 0 then h else free swap.data_ptr h))

-- The result and the buffer.
unfoldable pub swap_file_read : Option SwapFile → ℕ → Option (List ℕ) → ℕ → Bool × Option (List ℕ)
swap_file_read none offset buffer len = (false, buffer)
swap_file_read (some swap) offset none len = (false, none)
swap_file_read (some swap) offset (some buffer) len =
    if ltb swap.size (u32 (offset + len))
    then (false, some buffer)
    else (true, some (memcpy buffer 0 swap.bytes offset len))

unfoldable pub swap_file_data : Option SwapFile → ℕ
swap_file_data none = 0
swap_file_data (some swap) = swap.data_ptr

-- The two functions that use the file system; a fault of it, or a loop that does not end, is `none`.
module _ {D : Type 0} (dev : Device D) (stale : ℕ → ℕ) where
  abbrev Loaded : Type 0
  Loaded = Option (Bool × SwapFile × Heap × Sys D)

  abbrev with_sys : Result → (Bool → SwapFile → Heap → Loaded) → Loaded
  with_sys none f = none
  with_sys (some (done, swap, h)) f = f done swap h

  -- `fs_read` into the buffer, and what follows.
  unfoldable pub fill : Option (List ℕ) → ℕ → SwapFile → Heap → Sys D → Loaded
  fill path size swap h s =
      let (r, s') = fs_read dev path 0 (some swap.bytes) size s in
      let (swap', h') = swap_file_free (some swap) h in
      elim r [
        | ok (bytes, n) ↦ some (true, record swap { bytes = bytes; size = size }, h, s')
        | fail ↦ some (false, swap', h', s')
        | fault ↦ none
      ]

  unfoldable pub swap_file_load_path : Option SwapFile → Option (List ℕ) → Heap → Sys D → Loaded
  swap_file_load_path none path h s = some (false, empty_swap, h, s)
  swap_file_load_path (some swap) none h s = some (false, swap, h, s)
  swap_file_load_path (some swap) (some path) h s =
      let (r, s') = fs_stat_path dev (some path) s in
      elim r [
        | fail ↦ some (false, swap, h, s')
        | fault ↦ none
        | ok stats ↦ with_sys (swap_file_init stale (some swap) stats.size h) λ done swap1 h1.
            if not done
            then some (false, swap1, h1, s')
            else if stats.size == 0
            then some (true, swap1, h1, s')
            else with_sys (swap_file_grow stale swap1 stats.size h1) λ done swap2 h2.
              if not done
              then some (false, swap2, h2, s')
              else fill (some path) stats.size swap2 h2 s'
      ]

  unfoldable pub swap_file_flush_path :
      Option SwapFile → Option (List ℕ) → Sys D → Outcome (Unit {0}) × Sys D
  swap_file_flush_path none path s = (fail, s)
  swap_file_flush_path (some swap) none s = (fail, s)
  swap_file_flush_path (some swap) (some path) s =
      if swap.data_ptr == 0
      then fs_touch dev (some path) s
      else fs_write dev (some path) 0 (some swap.bytes) swap.size true s
