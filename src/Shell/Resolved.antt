-- ===== src/Shell/Resolved.antt =====
-- Strings in arrays, and what `shell_normalize_path` of src/kernel/shell/shell.c does to one.
use lux_kernel.Base.{
  ℕ, zero, suc, ◌+◌, ◌-◌, ◌≤◌, ◌<◌, ◌≡◌, refl, sym, ◌∙◌, ap, false, ◌&&◌, List, [], ◌∷◌, ltb, ◌==◌,
  if◌then◌else◌, get_or, set, length, length-set, arith, Bool-cases, inl, inr,
}
use lux_kernel.Strings.{strlen, memcpy}
use lux_kernel.Strings.Copy.{get_or-set, get_or-memcpy}
use lux_kernel.Shell.Text.{shell_strnlen, normalize_loop, shell_normalize_path}

-- An array that holds a text and a NUL behind it.
pub record IsString (text str : List ℕ) : Type 0 where
  pub bytes : (i : ℕ) → i < length text → get_or str i 0 ≡ get_or text i 0
  pub nonzero : (i : ℕ) → i < length text → (get_or text i 0 == 0) ≡ false
  pub ends : get_or str (length text) 0 ≡ 0

-- The string is the text without the slashes at its end, of which the first byte stays.
pub record Stripped (text str : List ℕ) : Type 0 where
  pub kept : ℕ
  pub within : kept ≤ length text
  pub ends : get_or str kept 0 ≡ 0
  pub bytes : (i : ℕ) → i < kept → get_or str i 0 ≡ get_or text i 0
  pub slashes : (i : ℕ) → kept ≤ i → i < length text → get_or text i 0 ≡ b'/'
  pub last : 1 < kept → (get_or text (kept - 1) 0 == b'/') ≡ false
  pub some_bytes : 0 < length text → 0 < kept
  pub nonzero : (i : ℕ) → i < length text → (get_or text i 0 == 0) ≡ false

normalize_loop-Stripped :
    (len : ℕ) (text path : List ℕ)
    → len ≤ length text
    → length text < length path
    → get_or path len 0 ≡ 0
    → ((i : ℕ) → i < len → get_or path i 0 ≡ get_or text i 0)
    → ((i : ℕ) → len ≤ i → i < length text → get_or text i 0 ≡ b'/')
    → (0 < length text → 0 < len)
    → ((i : ℕ) → i < length text → (get_or text i 0 == 0) ≡ false)
    → Stripped text (normalize_loop len path)
unfolding normalize_loop
normalize_loop-Stripped zero text path le room ends bytes slashes nonempty nonzero = record {
  kept = 0;
  within = le;
  ends = ends;
  bytes = bytes;
  slashes = slashes;
  last = λ lt. absurd (omega (arith, lt));
  some_bytes = nonempty;
  nonzero = nonzero;
}
normalize_loop-Stripped (suc len) text path le room ends bytes slashes nonempty nonzero =
    let read = λ (i : ℕ). get_or-set path len i 0 (omega (arith, le, room)) in
    let byte = bytes len (omega arith) in
    elim (Bool-cases (ltb 1 (suc len) && get_or path len 0 == b'/')) [
      | inl e ↦ rw e (
          normalize_loop-Stripped len text (set path len 0) (omega arith)
            (omega (arith, length-set path len 0, room)) (ground (arith, read len))
            (λ i lt. ground (arith, read i, bytes i (omega arith)))
            (λ i ge lt. from_here i ge lt (ground (arith, byte, e))) (λ lt. ground (arith, e))
            nonzero)
      | inr e ↦ rw e record {
        kept = suc len;
        within = le;
        ends = ends;
        bytes = bytes;
        slashes = slashes;
        last = λ lt.
            ap (λ j. get_or text j 0 == b'/') {x = suc len - 1} {y = len} (omega arith)
            ∙ ap (λ c. c == b'/') (sym byte)
            ∙ ground (arith, e, lt);
        some_bytes = λ lt. omega arith;
        nonzero = nonzero;
      }
    ]
  where
    from_here :
        (i : ℕ) → len ≤ i → i < length text → get_or text len 0 ≡ b'/' → get_or text i 0 ≡ b'/'
    from_here i ge lt e = elim (Bool-cases (i == len)) [
      | inl f ↦ ap (λ j. get_or text j 0) {x = i} {y = len} (ground (arith, f)) ∙ e
      | inr f ↦ slashes i (ground (arith, f, ge)) lt
    ]

IsString-tail : (x c : ℕ) (xs str : List ℕ) → IsString (x ∷ xs) (c ∷ str) → IsString xs str
IsString-tail x c xs str s = record {
  bytes = λ i lt. s.bytes (suc i) (omega arith);
  nonzero = λ i lt. s.nonzero (suc i) (omega arith);
  ends = s.ends;
}

pub IsString-strlen : (text str : List ℕ) → IsString text str → strlen str ≡ length text
unfolding strlen
IsString-strlen [] [] s = refl
IsString-strlen [] (c ∷ str) s = rw (ap (λ b. b == 0) s.ends) refl
IsString-strlen (x ∷ xs) [] s =
    absurd (ground (arith, s.bytes 0 (omega arith), s.nonzero 0 (omega arith)))
IsString-strlen (x ∷ xs) (c ∷ str) s =
    let nonzero : (c == 0) ≡ false =
      ground (arith, s.bytes 0 (omega arith), s.nonzero 0 (omega arith)) in
    rw nonzero (ap suc (IsString-strlen xs str (IsString-tail x c xs str s)))

pub IsString-strnlen :
    (text str : List ℕ) (m : ℕ)
    → IsString text str
    → shell_strnlen str m ≡ (if ltb m (length text) then m else length text)
unfolding shell_strnlen
IsString-strnlen text str zero s = ground arith
IsString-strnlen [] [] (suc m) s = ground arith
IsString-strnlen [] (c ∷ str) (suc m) s = rw (ap (λ b. b == 0) s.ends) (ground arith)
IsString-strnlen (x ∷ xs) [] (suc m) s =
    absurd (ground (arith, s.bytes 0 (omega arith), s.nonzero 0 (omega arith)))
IsString-strnlen (x ∷ xs) (c ∷ str) (suc m) s =
    let nonzero : (c == 0) ≡ false =
      ground (arith, s.bytes 0 (omega arith), s.nonzero 0 (omega arith)) in
    rw nonzero (ground (arith, IsString-strnlen xs str m (IsString-tail x c xs str s)))

pub shell_normalize_path-Stripped :
    (text path : List ℕ)
    → IsString text path
    → length text < length path
    → Stripped text (shell_normalize_path path)
unfolding shell_normalize_path
shell_normalize_path-Stripped text path s room = rw (IsString-strlen text path s) (
    normalize_loop-Stripped (length text) text path (omega arith) room s.ends s.bytes
      (λ i ge lt. absurd (omega (arith, ge, lt))) (λ lt. lt) s.nonzero)

-- A whole string is copied with its NUL.
pub memcpy-IsString :
    (text str out : List ℕ)
    → IsString text str
    → length text < length out
    → IsString text (memcpy out 0 str 0 (length text + 1))
memcpy-IsString text str out s room =
    let read = λ (i : ℕ). get_or-memcpy out 0 str 0 (length text + 1) i (omega (arith, room)) in
    let same = λ (i : ℕ). ap (λ j. get_or str j 0) {x = 0 + (i - 0)} {y = i} (omega arith) in
    record {
      bytes = λ i lt. ground (arith, read i, same i, s.bytes i lt, lt);
      nonzero = s.nonzero;
      ends = ground (arith, read (length text), same (length text), s.ends);
    }
