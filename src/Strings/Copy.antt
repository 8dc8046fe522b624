-- ===== src/Strings/Copy.antt =====
-- What the memory routines of src/kernel/lib/string.c write, byte by byte.
use lux_kernel.Base.{
  ℕ, zero, suc, ◌+◌, ◌-◌, ◌%◌, ◌≤◌, ◌<◌, ◌≡◌, refl, ◌∙◌, Bool, ◌&&◌, ◌||◌, List, [], ◌∷◌, ltb, leb,
  ◌==◌, arith, if◌then◌else◌, get_or, set, length, length-set, Bool-cases, inl, inr,
}
use lux_kernel.Strings.{memset, memcpy, memmove, move_up, move_down}

-- A write within the array, read back anywhere.
pub get_or-set :
    (xs : List ℕ) (i j v : ℕ)
    → i < length xs
    → get_or (set xs i v) j 0 ≡ (if i == j then v else get_or xs j 0)
get_or-set [] i j v h = elim h [ ]
get_or-set (x ∷ xs) zero zero v h = ground arith
get_or-set (x ∷ xs) zero (suc j) v h = ground arith
get_or-set (x ∷ xs) (suc i) zero v h = ground arith
get_or-set (x ∷ xs) (suc i) (suc j) v h = ground (arith, get_or-set xs i j v (omega arith))

-- Is `j` one of the `n` indices from `i` on?
abbrev pub within : ℕ → ℕ → ℕ → Bool
within i n j = leb i j && ltb j (i + n)

pub length-memset : (xs : List ℕ) (i v n : ℕ) → length (memset xs i v n) ≡ length xs
unfolding memset
length-memset xs i v zero = refl
length-memset xs i v (suc n) =
    length-memset (set xs i (v % 256)) (i + 1) v n ∙ length-set xs i (v % 256)

pub length-memcpy :
    (dst : List ℕ) (d : ℕ) (src : List ℕ) (s n : ℕ) → length (memcpy dst d src s n) ≡ length dst
unfolding memcpy
length-memcpy dst d src s zero = refl
length-memcpy dst d src s (suc n) =
    length-memcpy (set dst d (get_or src s 0)) (d + 1) src (s + 1) n
    ∙ length-set dst d (get_or src s 0)

-- `memset` fills exactly its range with the value's low byte.
pub get_or-memset :
    (xs : List ℕ) (i v n j : ℕ)
    → i + n ≤ length xs
    → get_or (memset xs i v n) j 0 ≡ (if within i n j then v % 256 else get_or xs j 0)
unfolding memset
get_or-memset xs i v zero j fits = ground arith
get_or-memset xs i v (suc n) j fits =
    let step = get_or-set xs i j (v % 256) (omega arith) in
    let rest =
      get_or-memset (set xs i (v % 256)) (i + 1) v n j (omega (arith, length-set xs i (v % 256))) in
    rest ∙ ground (arith, step)

-- `memcpy` writes exactly its range, with the source's bytes.
pub get_or-memcpy :
    (dst : List ℕ) (d : ℕ) (src : List ℕ) (s n j : ℕ)
    → d + n ≤ length dst
    → get_or (memcpy dst d src s n) j 0
      ≡ (if within d n j then get_or src (s + (j - d)) 0 else get_or dst j 0)
unfolding memcpy
get_or-memcpy dst d src s zero j fits = ground arith
get_or-memcpy dst d src s (suc n) j fits =
    let v = get_or src s 0 in
    let step = get_or-set dst d j v (omega arith) in
    let rest =
      get_or-memcpy (set dst d v) (d + 1) src (s + 1) n j (omega (arith, length-set dst d v)) in
    rest ∙ ground (arith, step)

get_or-move_up :
    (m : List ℕ) (d s n j : ℕ)
    → d < s
    → s + n ≤ length m
    → get_or (move_up m d s n) j 0
      ≡ (if within d n j then get_or m (s + (j - d)) 0 else get_or m j 0)
unfolding move_up
get_or-move_up m d s zero j lt fits = ground arith
get_or-move_up m d s (suc n) j lt fits =
    let v = get_or m s 0 in
    let rest =
      get_or-move_up (set m d v) (d + 1) (s + 1) n j (omega arith)
        (omega (arith, length-set m d v)) in
    let step = get_or-set m d j v (omega arith) in
    let ahead = get_or-set m d (s + 1 + (j - (d + 1))) v (omega arith) in
    rest ∙ ground (arith, step, ahead)

get_or-move_down :
    (m : List ℕ) (d s n j : ℕ)
    → s < d
    → d + n ≤ length m
    → get_or (move_down m d s n) j 0
      ≡ (if within d n j then get_or m (s + (j - d)) 0 else get_or m j 0)
unfolding move_down
get_or-move_down m d s zero j lt fits = ground arith
get_or-move_down m d s (suc n) j lt fits =
    let v = get_or m (s + n) 0 in
    let rest =
      get_or-move_down (set m (d + n) v) d s n j lt (omega (arith, length-set m (d + n) v)) in
    let step = get_or-set m (d + n) j v (omega arith) in
    let behind = get_or-set m (d + n) (s + (j - d)) v (omega arith) in
    rest ∙ ground (arith, step, behind)

-- `memmove` within one array copies its range as it was before the call, whichever way the two
-- ranges overlap, and writes nothing else.
pub get_or-memmove :
    (m : List ℕ) (d s n j : ℕ)
    → s + n ≤ length m
    → d + n ≤ length m
    → get_or (memmove m d s n) j 0
      ≡ (if within d n j then get_or m (s + (j - d)) 0 else get_or m j 0)
unfolding memmove
get_or-memmove m d s n j fits fits' = elim (Bool-cases (d == s || n == 0)) [
  | inl idle ↦ rw idle (ground arith)
  | inr busy ↦ rw busy (elim (Bool-cases (ltb d s)) [
    | inl up ↦ rw up (get_or-move_up m d s n j (ground arith) fits)
    | inr down ↦ rw down (get_or-move_down m d s n j (ground arith) fits')
  ])
]

length-move_up : (m : List ℕ) (d s n : ℕ) → length (move_up m d s n) ≡ length m
unfolding move_up
length-move_up m d s zero = refl
length-move_up m d s (suc n) =
    length-move_up (set m d (get_or m s 0)) (d + 1) (s + 1) n ∙ length-set m d (get_or m s 0)

length-move_down : (m : List ℕ) (d s n : ℕ) → length (move_down m d s n) ≡ length m
unfolding move_down
length-move_down m d s zero = refl
length-move_down m d s (suc n) =
    length-move_down (set m (d + n) (get_or m (s + n) 0)) d s n
    ∙ length-set m (d + n) (get_or m (s + n) 0)

pub length-memmove : (m : List ℕ) (d s n : ℕ) → length (memmove m d s n) ≡ length m
unfolding memmove
length-memmove m d s n = ground (arith, length-move_up m d s n, length-move_down m d s n)
