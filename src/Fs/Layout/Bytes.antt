-- ===== src/Fs/Layout/Bytes.antt =====
-- The structures of src/kernel/fs/fs.c are read back from an array that has their bytes.
use lux_kernel.Base.{
  ℕ, ◌+◌, ◌*◌, ◌/◌, ◌%◌, ◌^◌, ◌<◌, ◌≡◌, refl, sym, ap, ap₂, ◌∙◌, List, [], ◌∷◌, ◌++◌, arith, length,
  get_or, length-append, replicate,
}
use lux_kernel.Bytes.{At, At-left, At-right, At-move}
use lux_kernel.Strings.{memcpy}
use lux_kernel.Fs.Layout.{
  Superblock, Inode, u32_bytes, u32_at, u32s_bytes, u32s_at, superblock_bytes, superblock_at,
  inode_bytes, inode_at, inodes_bytes, inodes_at,
}

abbrev pub AllWords : List ℕ → Type 0
AllWords [] = Unit
AllWords (n ∷ ns) = (n < 2 ^ 32) × AllWords ns

-- Every field is a `uint32_t`.
pub record FitsWords (s : Superblock) : Type 0 where
  pub magic : s.magic < 2 ^ 32
  pub version : s.version < 2 ^ 32
  pub block_size : s.block_size < 2 ^ 32
  pub start_lba : s.start_lba < 2 ^ 32
  pub total_sectors : s.total_sectors < 2 ^ 32
  pub inode_table_start : s.inode_table_start < 2 ^ 32
  pub inode_count : s.inode_count < 2 ^ 32
  pub data_block_start : s.data_block_start < 2 ^ 32
  pub data_block_count : s.data_block_count < 2 ^ 32
  pub root_inode : s.root_inode < 2 ^ 32

-- The fields of an inode have the sizes that they are declared with.
pub record FitsInode (n : Inode) : Type 0 where
  pub type : n.type < 256
  pub reserved0 : n.reserved0 < 256
  pub reserved1 : n.reserved1 < 65536
  pub size : n.size < 2 ^ 32
  pub parent : n.parent < 2 ^ 32
  pub direct : AllWords n.direct
  pub directs : length n.direct ≡ 8
  pub reserved_tail : AllWords n.reserved_tail
  pub reserved_tails : length n.reserved_tail ≡ 4

abbrev pub AllFit : List Inode → Type 0
AllFit [] = Unit
AllFit (n ∷ ns) = FitsInode n × AllFit ns

u32_at-At : (b : List ℕ) (i n : ℕ) → n < 2 ^ 32 → At i (u32_bytes n) b → u32_at b i ≡ n
unfolding u32_at u32_bytes
u32_at-At b i n lt at =
    let first : get_or b i 0 ≡ n % 256 =
      ap (λ j. get_or b j 0) {x = i} {y = i + 0} (omega arith) ∙ at 0 (omega arith) in
    omega (arith, lt, first, at 1 (omega arith), at 2 (omega arith), at 3 (omega arith))

length-u32s_bytes : (ns : List ℕ) → length (u32s_bytes ns) ≡ 4 * length ns
unfolding u32s_bytes u32_bytes
length-u32s_bytes [] = refl
length-u32s_bytes (n ∷ ns) = omega (arith, length-u32s_bytes ns)

u32s_at-At :
    (b : List ℕ) (i : ℕ) (ns : List ℕ)
    → AllWords ns
    → At i (u32s_bytes ns) b
    → u32s_at b i (length ns) ≡ ns
unfolding u32s_at u32s_bytes
u32s_at-At b i [] fits at = refl
u32s_at-At b i (n ∷ ns) fits at =
    ap₂ ◌∷◌ (u32_at-At b i n fits.0 (At-left i (u32_bytes n) (u32s_bytes ns) b at)) (
      u32s_at-At b (i + 4) ns fits.1
        (unfold u32_bytes in At-right i (u32_bytes n) (u32s_bytes ns) b at))

abbrev sector : List ℕ
sector = replicate 512 0

u32_sum :
    (n : ℕ)
    → n < 2 ^ 32
    → n % 256 + 256 * (n / 256 % 256) + 65536 * (n / 65536 % 256) + 16777216 * (n / 16777216 % 256)
      ≡ n
u32_sum n lt = omega (arith, lt)

-- A superblock is read back from the sector that `luxfs_flush_superblock` makes.
pub superblock_at-superblock_bytes :
    (s : Superblock) → FitsWords s → superblock_at (memcpy sector 0 (superblock_bytes s) 0 40) ≡ s
unfolding superblock_at superblock_bytes u32_at u32_bytes u32s_bytes memcpy
superblock_at-superblock_bytes s fits i = record {
  magic = u32_sum s.magic fits.magic i;
  version = u32_sum s.version fits.version i;
  block_size = u32_sum s.block_size fits.block_size i;
  start_lba = u32_sum s.start_lba fits.start_lba i;
  total_sectors = u32_sum s.total_sectors fits.total_sectors i;
  inode_table_start = u32_sum s.inode_table_start fits.inode_table_start i;
  inode_count = u32_sum s.inode_count fits.inode_count i;
  data_block_start = u32_sum s.data_block_start fits.data_block_start i;
  data_block_count = u32_sum s.data_block_count fits.data_block_count i;
  root_inode = u32_sum s.root_inode fits.root_inode i;
}

inode_at-At :
    (b : List ℕ) (i : ℕ) (n : Inode) → FitsInode n → At i (inode_bytes n) b → inode_at b i ≡ n
unfolding inode_at inode_bytes u32_at u32s_at u32_bytes u32s_bytes
inode_at-At b i n fits at =
    let tails = u32s_bytes n.reserved_tail in
    let rest = u32s_bytes n.direct ++ tails in
    let h4 =
      At-right i
        (n.type % 256 ∷ n.reserved0 % 256 ∷ n.reserved1 % 256 ∷ n.reserved1 / 256 % 256 ∷ [])
        (u32_bytes n.size ++ (u32_bytes n.parent ++ rest)) b at in
    let h8 =
      At-move (i + 4 + 4) (i + 8) (u32_bytes n.parent ++ rest) b (omega arith)
        (At-right (i + 4) (u32_bytes n.size) (u32_bytes n.parent ++ rest) b h4) in
    let h12 =
      At-move (i + 8 + 4) (i + 12) rest b (omega arith)
        (At-right (i + 8) (u32_bytes n.parent) rest b h8) in
    let h44 =
      At-move (i + 12 + length (u32s_bytes n.direct)) (i + 44) tails b
        (omega (arith, length-u32s_bytes n.direct, fits.directs))
        (At-right (i + 12) (u32s_bytes n.direct) tails b h12) in
    let first : get_or b i 0 ≡ n.type % 256 =
      ap (λ j. get_or b j 0) {x = i} {y = i + 0} (omega arith) ∙ at 0 (omega arith) in
    let e0 : get_or b i 0 ≡ n.type = omega (arith, first, fits.type) in
    let e1 : get_or b (i + 1) 0 ≡ n.reserved0 = omega (arith, at 1 (omega arith), fits.reserved0) in
    let e2 : get_or b (i + 2) 0 + 256 * get_or b (i + 3) 0 ≡ n.reserved1 =
      omega (arith, at 2 (omega arith), at 3 (omega arith), fits.reserved1) in
    let size =
      u32_at-At b (i + 4) n.size fits.size
        (At-left (i + 4) (u32_bytes n.size) (u32_bytes n.parent ++ rest) b h4) in
    let parent =
      u32_at-At b (i + 8) n.parent fits.parent (At-left (i + 8) (u32_bytes n.parent) rest b h8) in
    let direct =
      ap (u32s_at b (i + 12)) (sym fits.directs)
      ∙ u32s_at-At b (i + 12) n.direct fits.direct
          (At-left (i + 12) (u32s_bytes n.direct) tails b h12) in
    let tail =
      ap (u32s_at b (i + 44)) (sym fits.reserved_tails)
      ∙ u32s_at-At b (i + 44) n.reserved_tail fits.reserved_tail h44 in
    λ j. record {
      type = e0 j;
      reserved0 = e1 j;
      reserved1 = e2 j;
      size = size j;
      parent = parent j;
      direct = direct j;
      reserved_tail = tail j;
    }

length-inode_bytes : (n : Inode) → FitsInode n → length (inode_bytes n) ≡ 60
unfolding inode_bytes u32_bytes
length-inode_bytes n fits = omega (
  arith,
  length-append (u32s_bytes n.direct) (u32s_bytes n.reserved_tail),
  length-u32s_bytes n.direct,
  length-u32s_bytes n.reserved_tail,
  fits.directs,
  fits.reserved_tails,
)

pub length-inodes_bytes : (ns : List Inode) → AllFit ns → length (inodes_bytes ns) ≡ length ns * 60
unfolding inodes_bytes
length-inodes_bytes [] fits = refl
length-inodes_bytes (n ∷ ns) fits = omega (
  arith,
  length-append (inode_bytes n) (inodes_bytes ns),
  length-inode_bytes n fits.0,
  length-inodes_bytes ns fits.1,
)

-- Consecutive inodes are read back from an array that has their bytes.
pub inodes_at-At :
    (b : List ℕ) (i : ℕ) (ns : List Inode)
    → AllFit ns
    → At i (inodes_bytes ns) b
    → inodes_at b i (length ns) ≡ ns
unfolding inodes_at inodes_bytes
inodes_at-At b i [] fits at = refl
inodes_at-At b i (n ∷ ns) fits at =
    ap₂ ◌∷◌ (inode_at-At b i n fits.0 (At-left i (inode_bytes n) (inodes_bytes ns) b at)) (
      inodes_at-At b (i + 60) ns fits.1 (
        At-move (i + length (inode_bytes n)) (i + 60) (inodes_bytes ns) b
          (ap (λ k. i + k) (length-inode_bytes n fits.0))
          (At-right i (inode_bytes n) (inodes_bytes ns) b at)))
