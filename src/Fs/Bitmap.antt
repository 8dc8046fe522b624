-- ===== src/Fs/Bitmap.antt =====
-- The bitmaps of src/kernel/fs/fs.c.
pub mod Update
use lux_kernel.Base.{
  ℕ, ◌-◌, ◌/◌, ◌%◌, ◌^◌, Bool, List, bit_and, bit_or, get_or, set, not, ◌==◌, if◌then◌else◌,
}

-- `(bitmap[index / 8u] >> (index % 8u)) & 0x1u`
unfoldable pub bitmap_test : List ℕ → ℕ → Bool
bitmap_test bitmap index = not (bit_and (get_or bitmap (index / 8) 0 / 2 ^ (index % 8)) 1 == 0)

-- `bitmap[byte] |= mask` or `bitmap[byte] &= ~mask`, over a `uint8_t`
unfoldable pub bitmap_set : List ℕ → ℕ → Bool → List ℕ
bitmap_set bitmap index value =
    let byte = index / 8 in
    let mask = 2 ^ (index % 8) % 256 in
    let old = get_or bitmap byte 0 in
    set bitmap byte (if value then bit_or old mask else bit_and old (255 - mask))
