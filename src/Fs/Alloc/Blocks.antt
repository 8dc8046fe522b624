-- ===== src/Fs/Alloc/Blocks.antt =====
-- Which block `luxfs_alloc_block` of src/kernel/fs/fs.c takes, and what `luxfs_free_block` gives back.
use lux_kernel.Base.{
  ℕ, zero, suc, ◌+◌, ◌≤◌, ◌<◌, ◌≡◌, refl, sym, ap, ◌∙◌, Bool, true, false, Option, none, some, List,
  arith, length, ◌==◌, if◌then◌else◌, Bool-cases, inl, inr, subst,
}
use lux_kernel.Strings.{memcpy}
use lux_kernel.Device.{Device}
use lux_kernel.Fs.{
  Fs, Sys, Outcome, ok, fail, M, ◌>>=◌, pure, failed, get, put, data_block_count,
  block_bitmap_bytes, block_bitmap_block, start_lba,
}
use lux_kernel.Fs.Bitmap.{bitmap_test, bitmap_set}
use lux_kernel.Fs.Bitmap.Update.{AllBytes, bitmap_test-bitmap_set}
use lux_kernel.Fs.Blocks.{zeros, ata_write, disk_write_block, flush_block_bitmap}
use lux_kernel.Fs.Alloc.{first_clear, take_block, alloc_block}

-- The index that the scan stops at is the lowest clear one.
pub record Lowest (bitmap : List ℕ) (i n k : ℕ) : Type 0 where
  pub from : i ≤ k
  pub below : k < i + n
  pub clear : bitmap_test bitmap k ≡ false
  pub first : (j : ℕ) → i ≤ j → j < k → bitmap_test bitmap j ≡ true

first_clear-Lowest :
    (bitmap : List ℕ) (n i k : ℕ) → first_clear bitmap n i ≡ some k → Lowest bitmap i n k
unfolding first_clear
first_clear-Lowest bitmap zero i k e = absurd cc
first_clear-Lowest bitmap (suc n) i k e = elim (Bool-cases (bitmap_test bitmap i)) [
  | inl set ↦
      let rest = first_clear-Lowest bitmap n (i + 1) k (rw set at e) in
      record {
        from = omega (arith, rest.from);
        below = omega (arith, rest.below);
        clear = rest.clear;
        first = λ j le lt. elim (Bool-cases (i == j)) [
          | inl same ↦ ground (arith, set)
          | inr far ↦ rest.first j (ground (arith, le, far)) lt
        ];
      }
  | inr clear ↦
      let same : i ≡ k = (let e' = rw clear at e in cc) in
      subst (Lowest bitmap i (suc n)) same (record {
        from = omega arith;
        below = omega arith;
        clear = clear;
        first = λ j le lt. absurd (omega (arith, le, lt));
      })
]

first_clear-full :
    (bitmap : List ℕ) (n i : ℕ)
    → first_clear bitmap n i ≡ none
    → (j : ℕ) → i ≤ j
    → j < i + n
    → bitmap_test bitmap j ≡ true
unfolding first_clear
first_clear-full bitmap zero i e j le lt = absurd (omega (arith, le, lt))
first_clear-full bitmap (suc n) i e j le lt = elim (Bool-cases (bitmap_test bitmap i)) [
  | inl set ↦ elim (Bool-cases (i == j)) [
    | inl same ↦ ground (arith, set)
    | inr far ↦
        first_clear-full bitmap n (i + 1) (rw set at e) j (ground (arith, le, far))
          (omega (arith, lt))
  ]
  | inr clear ↦ absurd (let e' = rw clear at e in cc)
]

marked : Fs → ℕ → Bool → Fs
marked fs i v = record fs { block_bitmap = bitmap_set fs.block_bitmap i v }

module _ {D : Type 0} (dev : Device D) where
  abbrev flushed : Fs → D → Bool × D
  flushed fs d =
      dev.write (start_lba + block_bitmap_block)
        (memcpy zeros 0 fs.block_bitmap 0 block_bitmap_bytes) d

  take_block_lem :
      (i : ℕ) (s : Sys D)
      → take_block dev i s ≡ (
        (if (flushed (marked s.fs i true) s.disk).0 then ok i else fail),
        record { fs = marked s.fs i true; disk = (flushed (marked s.fs i true) s.disk).1 },
      )
  unfolding take_block marked ◌>>=◌ get put pure flush_block_bitmap disk_write_block ata_write
  take_block_lem i s = elim (Bool-cases (flushed (marked s.fs i true) s.disk).0) [
    | inl e ↦ simp e
    | inr e ↦ simp e
  ]

  -- What holds when a block was taken.
  pub record Taken (s t : Sys D) (i : ℕ) : Type 0 where
    pub lowest : Lowest s.fs.block_bitmap 0 data_block_count i
    pub bits :
        (j : ℕ)
        → bitmap_test t.fs.block_bitmap j
          ≡ (if i == j then true else bitmap_test s.fs.block_bitmap j)
    pub rest : t.fs ≡ record (s.fs) { block_bitmap = t.fs.block_bitmap }

  chosen : Option ℕ → M D ℕ
  chosen none = failed
  chosen (some i) = take_block dev i

  alloc_block_lem :
      (s : Sys D) → alloc_block dev s ≡ chosen (first_clear s.fs.block_bitmap data_block_count 0) s
  unfolding alloc_block chosen ◌>>=◌ get
  alloc_block_lem s = by_case (first_clear s.fs.block_bitmap data_block_count 0)
    where
      by_case :
          (o : Option ℕ)
          → (elim o as (λ _. M D ℕ) [ none ↦ failed | some i ↦ take_block dev i ]) s ≡ chosen o s
      by_case none = refl
      by_case (some i) = refl

  took :
      (s : Sys D) (k : ℕ)
      → Lowest s.fs.block_bitmap 0 data_block_count k
      → AllBytes s.fs.block_bitmap
      → length s.fs.block_bitmap ≡ block_bitmap_bytes
      → (i : ℕ) (t : Sys D)
      → Path
          (Outcome ℕ × Sys D)
          (
            (if (flushed (marked s.fs k true) s.disk).0 then ok k else fail),
            record { fs = marked s.fs k true; disk = (flushed (marked s.fs k true) s.disk).1 },
          )
          (ok i, t)
      → Taken s t i
  unfolding marked
  took s k lowest bytes size i t run = elim (Bool-cases (flushed (marked s.fs k true) s.disk).0) [
    | inl done ↦
        let state : record {
          fs = marked s.fs k true;
          disk = (flushed (marked s.fs k true) s.disk).1;
        }
            ≡ t =
          ap (λ r. r.1) run in
        let index : k ≡ i = (let r = rw done at (ap (λ r. r.0) run) in cc) in
        subst (λ t. Taken s t i) state
          (subst
            (λ i.
              Taken s
                (record { fs = marked s.fs k true; disk = (flushed (marked s.fs k true) s.disk).1 })
                i)
            index
            (record {
              lowest = lowest;
              bits = λ j.
                  bitmap_test-bitmap_set s.fs.block_bitmap k j true bytes
                    (omega (arith, lowest.below, size));
              rest = refl;
            }))
    | inr failed_flush ↦ absurd (let r = rw failed_flush at (ap (λ r. r.0) run) in cc)
  ]

  -- A block that `luxfs_alloc_block` returns is the lowest free one; its bit is set, no other bit and no other
  -- part of `g_fs` is changed.
  pub alloc_block-Taken :
      (s t : Sys D) (i : ℕ)
      → AllBytes s.fs.block_bitmap
      → length s.fs.block_bitmap ≡ block_bitmap_bytes
      → alloc_block dev s ≡ (ok i, t)
      → Taken s t i
  unfolding chosen failed
  alloc_block-Taken s t i bytes size run =
      taken (first_clear s.fs.block_bitmap data_block_count 0) refl (sym (alloc_block_lem s) ∙ run)
    where
      taken :
          (o : Option ℕ)
          → first_clear s.fs.block_bitmap data_block_count 0 ≡ o
          → chosen o s ≡ (ok i, t)
          → Taken s t i
      taken none e run = absurd cc
      taken (some k) e run =
          took s k (first_clear-Lowest s.fs.block_bitmap data_block_count 0 k e) bytes size i t
            (sym (take_block_lem k s) ∙ run)

first_clear-none :
    (bitmap : List ℕ) (n i : ℕ)
    → ((j : ℕ) → i ≤ j → j < i + n → bitmap_test bitmap j ≡ true)
    → first_clear bitmap n i ≡ none
unfolding first_clear
first_clear-none bitmap zero i all = refl
first_clear-none bitmap (suc n) i all =
    rw (all i (omega arith) (omega arith))
      (first_clear-none bitmap n (i + 1) (λ j le lt. all j (omega (arith, le)) (omega (arith, lt))))

-- With every block taken, `luxfs_alloc_block` fails and changes nothing.
pub alloc_block-full :
    {D : Type 0} (dev : Device D) (s : Sys D)
    → ((j : ℕ) → j < data_block_count → bitmap_test s.fs.block_bitmap j ≡ true)
    → alloc_block dev s ≡ (fail, s)
unfolding chosen failed
alloc_block-full dev s all =
    alloc_block_lem dev s
    ∙ ap (λ o. chosen dev o s)
        (first_clear-none s.fs.block_bitmap data_block_count 0
          (λ j le lt. all j (omega (arith, lt))))
