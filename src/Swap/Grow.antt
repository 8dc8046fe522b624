-- ===== src/Swap/Grow.antt =====
-- `swap_file_grow` of src/kernel/fs/swap.c: when its loop ends, and what a swap file keeps.
use lux_kernel.Base.{
  ℕ, zero, suc, ◌+◌, ◌-◌, ◌*◌, ◌^◌, ◌≤◌, ◌<◌, ◌≡◌, ◌≢◌, refl, sym, ap, ◌∙◌, true, false, not, ◌&&◌,
  Option, none, some, leb, ltb, ◌==◌, if◌then◌else◌, get_or, length, arith, Bool-cases, inl, inr,
  lt→ltb, le→ltb, ltb→lt, gt→==, ne→==, leb→le, subst,
}
use native.Mathlib.Nat.{pow-succ', mul_assoc, pow-le-pow_right}
use lux_kernel.Strings.Copy.{get_or-memcpy, length-memcpy}
use lux_kernel.Malloc.{Heap, u32, malloc}
use lux_kernel.Swap.{
  SwapFile, memory_at, moved, double_loop, Result, or_diverge, move_to, swap_file_grow,
}

pub record IsSwap (s : SwapFile) : Type 0 where
  pub room : s.size ≤ s.capacity
  pub whole : length s.bytes ≡ s.capacity
  pub nothing : s.data_ptr ≡ 0 → s.capacity ≡ 0

length-memory_at : (stale : ℕ → ℕ) (a n : ℕ) → length (memory_at stale a n) ≡ n
unfolding memory_at
length-memory_at stale a zero = refl
length-memory_at stale a (suc n) = omega (arith, length-memory_at stale (a + 1) n)

double_loop-le : (rounds least c cap : ℕ) → double_loop rounds least c ≡ some cap → least ≤ cap
unfolding double_loop
double_loop-le zero least c cap e = cc
double_loop-le (suc rounds) least c cap e = elim (Bool-cases (ltb c least)) [
  | inl h ↦ double_loop-le rounds least (u32 (c * 2)) cap (rw h at e)
  | inr h ↦ ground arith
]

doubles :
    (least c rounds cap : ℕ)
    → c < least
    → double_loop rounds least (u32 (c * 2)) ≡ some cap
    → double_loop (suc rounds) least c ≡ some cap
unfolding double_loop
doubles least c rounds cap lt e = rw (lt→ltb c least lt) e

stays : (rounds least c : ℕ) → least ≤ c → double_loop (suc rounds) least c ≡ some c
unfolding double_loop
stays rounds least c le = rw (le→ltb c least le) refl

-- The loop of `swap_file_grow` ends on a request of at most 2 ^ 31 bytes, within the rounds that the
-- doublings need, at a capacity that is enough.
pub double_loop-ends :
    (rounds least c : ℕ)
    → least ≤ 2 ^ 31
    → least ≤ c * 2 ^ rounds
    → (cap : ℕ) × (double_loop (suc rounds) least c ≡ some cap) × (least ≤ cap)
double_loop-ends zero least c most enough =
    (c, stays zero least c (omega (arith, enough)), omega (arith, enough))
double_loop-ends (suc n) least c most enough = elim (Bool-cases (ltb c least)) [
  | inr h ↦ (c, stays (suc n) least c (ground arith), ground arith)
  | inl h ↦
      let lt = ltb→lt c least h in
      let e : u32 (c * 2) ≡ c * 2 = omega (arith, lt, most) in
      let power : c * 2 ^ suc n ≡ c * 2 * 2 ^ n =
        ap (λ k. c * k) (pow-succ' 2 n) ∙ sym (mul_assoc c 2 (2 ^ n)) in
      let next : least ≤ u32 (c * 2) * 2 ^ n = rw e (omega (arith, enough, power)) in
      let (cap, run, le) = double_loop-ends n least (u32 (c * 2)) most next in
      (cap, doubles least c (suc n) cap lt run, le)
]

-- Growing keeps the contents.
pub record Grown (s s' : SwapFile) (least : ℕ) : Type 0 where
  pub sound : IsSwap s'
  pub enough : least ≤ s'.capacity
  pub same_size : s'.size ≡ s.size
  pub same_bytes : (i : ℕ) → i < s.size → get_or s'.bytes i 0 ≡ get_or s.bytes i 0

module _ (stale : ℕ → ℕ) where
  moved-bytes :
      (p cap : ℕ) (s : SwapFile) (i : ℕ)
      → IsSwap s
      → s.size ≤ cap
      → i < s.size
      → get_or (moved stale p cap s).bytes i 0 ≡ get_or s.bytes i 0
  unfolding moved
  moved-bytes p cap s i is le lt =
      let fresh = memory_at stale p cap in
      let live : (s.data_ptr == 0) ≡ false =
        ne→== s.data_ptr 0 (λ e. absurd (omega (arith, lt, is.room, is.nothing e))) in
      rw (live, gt→== s.size 0 (omega (arith, lt)))
        (get_or-memcpy fresh 0 s.bytes 0 s.size i (omega (arith, length-memory_at stale p cap, le))
          ∙ ground (arith, lt))

  moved-whole : (p cap : ℕ) (s : SwapFile) → length (moved stale p cap s).bytes ≡ cap
  unfolding moved
  moved-whole p cap s = elim (Bool-cases (not (s.data_ptr == 0) && not (s.size == 0))) [
    | inl e ↦ rw e (length-memcpy _ 0 s.bytes 0 s.size ∙ length-memory_at stale p cap)
    | inr e ↦ rw e (length-memory_at stale p cap)
  ]

  moved-Grown :
      (p cap least : ℕ) (s : SwapFile)
      → IsSwap s
      → s.capacity < least
      → least ≤ cap
      → p ≢ 0
      → Grown s (moved stale p cap s) least
  unfolding moved
  moved-Grown p cap least s is less enough ne = record {
    sound = record {
      room = omega (arith, is.room, less, enough);
      whole = moved-whole p cap s;
      nothing = λ e. absurd (ne e);
    };
    enough = enough;
    same_size = refl;
    same_bytes = λ i lt. moved-bytes p cap s i is (omega (arith, is.room, less, enough)) lt;
  }

  move_to-Grown :
      (p cap least : ℕ) (s s' : SwapFile) (h h' : Heap)
      → IsSwap s
      → s.capacity < least
      → least ≤ cap
      → move_to stale p cap s h ≡ some (true, s', h')
      → Grown s s' least
  unfolding move_to
  move_to-Grown p cap least s s' h h' is less enough run = elim (Bool-cases (p == 0)) [
    | inl null ↦
        absurd (
          let clash : Path Result (some (false, s, h)) (some (true, s', h')) = rw null at run in cc)
    | inr live ↦
        let ne : p ≢ 0 = ground (arith, live) in
        let same : moved stale p cap s ≡ s' = (let r = rw live at run in cc) in
        subst (λ t. Grown s t least) same (moved-Grown p cap least s is less enough ne)
  ]

  self-Grown : (s : SwapFile) (least : ℕ) → IsSwap s → least ≤ s.capacity → Grown s s least
  self-Grown s least is le = record {
    sound = is;
    enough = le;
    same_size = refl;
    same_bytes = λ i lt. refl;
  }

  -- Behind the loop and behind `malloc`.
  after_malloc :
      (r : Option (ℕ × Heap)) (cap least : ℕ) (s s' : SwapFile) (h' : Heap)
      → IsSwap s
      → s.capacity < least
      → least ≤ cap
      → or_diverge r (λ (p, g). move_to stale p cap s g) ≡ some (true, s', h')
      → Grown s s' least
  after_malloc none cap least s s' h' is less enough run = cc
  after_malloc (some (p, g)) cap least s s' h' is less enough run =
      move_to-Grown p cap least s s' g h' is less enough run

  after_loop :
      (r : Option ℕ) (least : ℕ) (s s' : SwapFile) (h h' : Heap)
      → IsSwap s
      → s.capacity < least
      → ((cap : ℕ) → r ≡ some cap → least ≤ cap)
      → or_diverge r (λ cap. or_diverge (malloc cap h) (λ (p, g). move_to stale p cap s g))
        ≡ some (true, s', h')
      → Grown s s' least
  after_loop none least s s' h h' is less enough run = cc
  after_loop (some cap) least s s' h h' is less enough run =
      after_malloc (malloc cap h) cap least s s' h' is less (enough cap refl) run

  -- A `swap_file_grow` that succeeds leaves a well-formed swap file with the capacity that was asked for,
  -- of the same size and with the same bytes.
  pub swap_file_grow-Grown :
      (s s' : SwapFile) (least : ℕ) (h h' : Heap)
      → IsSwap s
      → swap_file_grow stale s least h ≡ some (true, s', h')
      → Grown s s' least
  unfolding swap_file_grow
  swap_file_grow-Grown s s' least h h' is run = elim (Bool-cases (leb least s.capacity)) [
    | inl fits ↦
        let same : s ≡ s' = (let r = rw fits at run in cc) in
        subst (λ t. Grown s t least) same (self-Grown s least is (leb→le least s.capacity fits))
    | inr more ↦
        after_loop (double_loop 33 least (if s.capacity == 0 then 512 else s.capacity)) least s s' h
          h' is (ground (arith, more)) (λ cap e. double_loop-le 33 least _ cap e) (rw more at run)
  ]

double_loop-stuck : (rounds least : ℕ) → 0 < least → double_loop rounds least 0 ≡ none
unfolding double_loop
double_loop-stuck zero least pos = refl
double_loop-stuck (suc rounds) least pos =
    rw (lt→ltb 0 least pos) (double_loop-stuck rounds least pos)

-- No number of rounds is enough.
Diverges : ℕ → ℕ → Type 0
Diverges least c = (rounds : ℕ) → double_loop rounds least c ≡ none

Diverges-next : (least c : ℕ) → c < least → Diverges least (u32 (c * 2)) → Diverges least c
unfolding double_loop Diverges
Diverges-next least c lt k zero = refl
Diverges-next least c lt k (suc rounds) = rw (lt→ltb c least lt) (k rounds)

Diverges-power : (least n : ℕ) → 2 ^ 31 < least → n < 32 → Diverges least (2 ^ (31 - n))
unfolding Diverges
Diverges-power least zero big lt =
    Diverges-next least (2 ^ 31) big (λ rounds. double_loop-stuck rounds least (omega (arith, big)))
Diverges-power least (suc n) big lt =
    let m = 31 - suc n in
    let small : 2 ^ m ≤ 2 ^ 30 =
      pow-le-pow_right {n = 2} (omega arith) {i = m} {j = 30} (omega arith) in
    let e : 2 ^ (31 - n) ≡ 2 * 2 ^ m = ap (λ k. 2 ^ k) (omega arith) ∙ pow-succ' 2 m in
    let doubled : 2 ^ (31 - n) ≡ u32 (2 ^ m * 2) = omega (arith, small, e) in
    Diverges-next least (2 ^ m) (omega (arith, small, big)) (
      subst (λ c. (rounds : ℕ) → double_loop rounds least c ≡ none) doubled
        (Diverges-power least n big (omega arith)))

-- On a request of more than 2 ^ 31 bytes the loop of `swap_file_grow` does not end, from the capacity of
-- 512 bytes that a new swap file starts with: whatever the number of rounds, the capacity is below the
-- request.
pub double_loop-diverges : (rounds least : ℕ) → 2 ^ 31 < least → double_loop rounds least 512 ≡ none
unfolding Diverges
double_loop-diverges rounds least big = Diverges-power least 22 big (omega arith) rounds
