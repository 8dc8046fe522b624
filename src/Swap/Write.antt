-- ===== src/Swap/Write.antt =====
-- `swap_file_write` and `swap_file_read` of src/kernel/fs/swap.c.
use lux_kernel.Base.{
  ℕ, ◌+◌, ◌-◌, ◌^◌, ◌≤◌, ◌<◌, ◌≡◌, refl, ap, ◌∙◌, Bool, true, false, none, some, List, ltb,
  if◌then◌else◌, get_or, length, arith,
}
use lux_kernel.Strings.{memcpy}
use lux_kernel.Strings.Copy.{get_or-memcpy, length-memcpy, within}
use lux_kernel.Malloc.{Heap, u32}
use lux_kernel.Swap.{
  SwapFile, Result, or_diverge, swap_file_grow, written, swap_file_write, swap_file_read,
}
use lux_kernel.Swap.Grow.{IsSwap, swap_file_grow-Grown}

after_grow : List ℕ → ℕ → ℕ → Bool → SwapFile → Heap → Result
after_grow src offset len grown swap h =
    some (grown, (if grown then written offset src len swap else swap), h)

-- A write that succeeds grew the file and then copied.
write-grow :
    (stale : ℕ → ℕ) (s s' : SwapFile) (offset : ℕ) (src : List ℕ) (len : ℕ) (h h' : Heap)
    → swap_file_write stale (some s) offset (some src) len h ≡ some (true, s', h')
    → (g : SwapFile) × (swap_file_grow stale s (u32 (offset + len)) h ≡ some (true, g, h'))
      × (s' ≡ written offset src len g)
unfolding swap_file_write
write-grow stale s s' offset src len h h' run =
    split_grow (swap_file_grow stale s (u32 (offset + len)) h) refl run
  where
    split_grow :
        (r : Result)
        → swap_file_grow stale s (u32 (offset + len)) h ≡ r
        → or_diverge r
            (λ (grown, g, k). some (grown, (if grown then written offset src len g else g), k))
          ≡ some (true, s', h')
        → (g : SwapFile) × (swap_file_grow stale s (u32 (offset + len)) h ≡ some (true, g, h'))
          × (s' ≡ written offset src len g)
    split_grow none e run = cc
    split_grow (some (true, g, k)) e run =
        let same : k ≡ h' = cc in (g, e ∙ ap (λ x. some (true, g, x)) same, cc)
    split_grow (some (false, g, k)) e run = cc

-- A write that succeeds, of a range that does not pass 2 ^ 32, keeps the swap file well formed; its bytes
-- are those of the source in the range that was written, and as they were in the rest of the old file.
pub swap_file_write-bytes :
    (stale : ℕ → ℕ) (s s' : SwapFile) (offset : ℕ) (src : List ℕ) (len : ℕ) (h h' : Heap)
    → IsSwap s
    → offset + len < 2 ^ 32
    → swap_file_write stale (some s) offset (some src) len h ≡ some (true, s', h')
    → IsSwap s'
      × (offset + len ≤ s'.size)
      × (s.size ≤ s'.size)
      × ((i : ℕ)
          → i < s.size
          → get_or s'.bytes i 0
            ≡ (if within offset len i then get_or src (i - offset) 0 else get_or s.bytes i 0))
      × ((j : ℕ) → j < len → get_or s'.bytes (offset + j) 0 ≡ get_or src j 0)
unfolding written
swap_file_write-bytes stale s s' offset src len h h' is fits run =
    let (g, grow, e) = write-grow stale s s' offset src len h h' run in
    let grown = swap_file_grow-Grown stale s g (u32 (offset + len)) h h' is grow in
    let sound = grown.sound in
    let end : u32 (offset + len) ≡ offset + len = omega (arith, fits) in
    let room : offset + len ≤ length g.bytes = omega (arith, end, grown.enough, sound.whole) in
    let bytes : (i : ℕ)
        → get_or (memcpy g.bytes offset src 0 len) i 0
          ≡ (if within offset len i then get_or src (0 + (i - offset)) 0 else get_or g.bytes i 0) =
      λ i. get_or-memcpy g.bytes offset src 0 len i room in
    rw e (
      record {
        room = ground (arith, end, grown.enough, sound.room);
        whole = length-memcpy g.bytes offset src 0 len ∙ sound.whole;
        nothing = sound.nothing;
      },
      ground (arith, end),
      ground (arith, end, grown.same_size),
      λ i lt. bytes i ∙ ground (arith, grown.same_bytes i lt),
      λ j lt.
          bytes (offset + j)
          ∙ (let inside : within offset len (offset + j) ≡ true = ground arith in
              let at : 0 + (offset + j - offset) ≡ j = omega arith in
              rw inside (ap (λ k. get_or src k 0) at)),
    )

-- What was written is read back: after a write that succeeds, of a range that does not pass 2 ^ 32, a
-- read of the same range succeeds and fills the buffer with the bytes that were written.
pub swap_file_read-write :
    (stale : ℕ → ℕ) (s s' : SwapFile) (offset : ℕ) (src buffer : List ℕ) (len : ℕ) (h h' : Heap)
    → IsSwap s
    → offset + len < 2 ^ 32
    → len ≤ length buffer
    → swap_file_write stale (some s) offset (some src) len h ≡ some (true, s', h')
    → (out : List ℕ) × (swap_file_read (some s') offset (some buffer) len ≡ (true, some out))
      × ((j : ℕ) → j < len → get_or out j 0 ≡ get_or src j 0)
unfolding swap_file_read
swap_file_read-write stale s s' offset src buffer len h h' is fits room run =
    let (sound, reach, keep, old, new) =
      swap_file_write-bytes stale s s' offset src len h h' is fits run in
    let end : ltb s'.size (u32 (offset + len)) ≡ false = ground (arith, fits, reach) in
    let copied = λ (j : ℕ). get_or-memcpy buffer 0 s'.bytes offset len j (omega (arith, room)) in
    (memcpy buffer 0 s'.bytes offset len, rw end, λ j lt. copied j ∙ ground (arith, new j lt))

-- The guard of `swap_file_read` adds in 32 bits: a range that passes 2 ^ 32 is accepted on any swap file
-- that is not shorter than the range's end after the wrap, however far behind its bytes the range starts.
pub swap_file_read-wraps :
    (s : SwapFile) (offset : ℕ) (buffer : List ℕ) (len : ℕ)
    → 2 ^ 32 ≤ offset + len
    → offset + len ≤ 2 ^ 32 + s.size
    → s.size < 2 ^ 32
    → swap_file_read (some s) offset (some buffer) len
      ≡ (true, some (memcpy buffer 0 s.bytes offset len))
unfolding swap_file_read
swap_file_read-wraps s offset buffer len over few small =
    let end : ltb s.size (u32 (offset + len)) ≡ false = ground (arith, over, few, small) in rw end
