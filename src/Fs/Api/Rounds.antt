-- ===== src/Fs/Api/Rounds.antt =====
-- The loop of `fs_read` of src/kernel/fs/fs.c ends within nine rounds.
use lux_kernel.Base.{
  ℕ, zero, suc, ◌+◌, ◌-◌, ◌/◌, ◌%◌, ◌<◌, ◌≡◌, ◌≢◌, ◌⊎◌, refl, Bool, true, false, Option, none, some,
  List, leb, ltb, ◌==◌, if◌then◌else◌, get_or, arith, inl, inr, Bool-cases,
}
use lux_kernel.Strings.{memcpy}
use lux_kernel.Device.{Device, sector_size}
use lux_kernel.Fs.{
  Sys, Outcome, ok, fail, fault, M, continue, ◌>>=◌, pure, failed, direct_blocks, invalid_block,
  data_block_count,
}
use lux_kernel.Fs.Layout.{Inode}
use lux_kernel.Fs.Blocks.{ata_read, disk_read_data_block}
use lux_kernel.Fs.Api.{read_loop}

-- `m` does not fault.
record NoFault {D A : Type 0} (m : M D A) : Type 0 where
  at : (s : Sys D) → (m s).0 ≢ fault

module _ {D A : Type 0} where
  NoFault-pure : (a : A) → NoFault {D = D} (pure a)
  unfolding pure
  NoFault-pure a = record { at = λ s e. cc }

  NoFault-failed : NoFault {D = D} {A = A} failed
  unfolding failed
  NoFault-failed = record { at = λ s e. cc }

  NoFault-if :
      (b : Bool) (m n : M D A)
      → (b ≡ true → NoFault m)
      → (b ≡ false → NoFault n)
      → NoFault (if b then m else n)
  NoFault-if true m n km kn = km refl
  NoFault-if false m n km kn = kn refl

module _ {D A B : Type 0} where
  NoFault-continue :
      (o : Outcome A) (f : A → M D B) (s : Sys D)
      → o ≢ fault
      → ((a : A) → NoFault (f a))
      → (continue o f s).0 ≢ fault
  NoFault-continue (ok a) f s ne k = (k a).at s
  NoFault-continue fail f s ne k = λ e. cc
  NoFault-continue fault f s ne k = λ e. ne refl

  NoFault-bind :
      (m : M D A) (f : A → M D B) → NoFault m → ((a : A) → NoFault (f a)) → NoFault (m >>= f)
  unfolding ◌>>=◌
  NoFault-bind m f km kf = record { at = λ s. NoFault-continue (m s).0 f (m s).1 (km.at s) kf }

module _ {D : Type 0} (dev : Device D) where
  NoFault-ata_read : (lba : ℕ) → NoFault (ata_read dev lba)
  unfolding ata_read
  NoFault-ata_read lba = record { at = λ s. answered (dev.read lba s.disk).0 }
    where
      answered :
          (o : Option (List ℕ))
          → (Path (Outcome (List ℕ)) (elim o [ none ↦ fail | some bytes ↦ ok bytes ]) fault)
          → ⊥
      answered none e = cc
      answered (some bytes) e = cc

  NoFault-read_data : (i : ℕ) → NoFault (disk_read_data_block dev i)
  unfolding disk_read_data_block
  NoFault-read_data i =
      NoFault-if (leb data_block_count i) _ _ (λ _. NoFault-failed) (λ _. NoFault-ata_read _)

  -- Rounds enough: one, if nothing is left to read, else one more than the blocks from the offset on.
  abbrev Enough : ℕ → ℕ → ℕ → Type 0
  Enough fuel offset remaining =
      (0 < fuel) × ((remaining ≡ 0) ⊎ (direct_blocks < fuel + offset / sector_size))

  NoFault-read_loop :
      (fuel : ℕ) (node : Inode) (offset : ℕ) (buffer : List ℕ) (total remaining : ℕ)
      → Enough fuel offset remaining
      → NoFault (read_loop dev fuel node offset buffer total remaining)
  unfolding read_loop
  NoFault-read_loop zero node offset buffer total remaining enough =
      absurd (omega (arith, enough.0))
  NoFault-read_loop (suc fuel) node offset buffer total remaining enough =
      let block_idx = offset / sector_size in
      let data_block = get_or node.direct block_idx 0 in
      let room = sector_size - offset % sector_size in
      let chunk = if ltb remaining room then remaining else room in
      NoFault-if (remaining == 0) _ _ (λ _. NoFault-pure _)
        λ left.
          NoFault-if (leb direct_blocks block_idx) _ _ (λ _. NoFault-pure _)
            λ inside.
              NoFault-if (data_block == invalid_block) _ _ (λ _. NoFault-pure _)
                λ _. NoFault-bind _ _ (NoFault-read_data data_block) λ block.
                  NoFault-read_loop fuel node (offset + chunk)
                    (memcpy buffer total block (offset % sector_size) chunk) (total + chunk)
                    (remaining - chunk) (more_rounds fuel offset remaining left inside enough)
    where
      more_rounds :
          (fuel offset remaining : ℕ)
          → (remaining == 0) ≡ false
          → leb direct_blocks (offset / sector_size) ≡ false
          → Enough (suc fuel) offset remaining
          → let room = sector_size - offset % sector_size in
            let chunk = if ltb remaining room then remaining else room in
            Enough fuel (offset + chunk) (remaining - chunk)
      more_rounds fuel offset remaining left inside enough =
          elim (Bool-cases (ltb remaining (sector_size - offset % sector_size))) [
            | inl e ↦ rw e (ground (arith, left, inside, enough), inl (omega arith))
            | inr e ↦
                rw e
                  (ground (arith, left, inside, enough), inr (ground (arith, left, inside, enough)))
          ]

  -- The nine rounds that `fs_read` takes are enough from any offset on, for any file and any amount: its loop
  -- stops with a result or because a block cannot be read.
  pub read_loop-ends :
      (node : Inode) (offset : ℕ) (buffer : List ℕ) (remaining : ℕ) (s : Sys D)
      → (read_loop dev (direct_blocks + 1) node offset buffer 0 remaining s).0 ≢ fault
  read_loop-ends node offset buffer remaining =
      (NoFault-read_loop (direct_blocks + 1) node offset buffer 0 remaining
        (omega arith, inr (omega arith))).at
