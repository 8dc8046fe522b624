-- ===== src/Bytes.antt =====
-- Arrays of bytes as texts: their first bytes, and the bytes from an index on.
use lux_kernel.Base.{
  ℕ, zero, suc, ◌+◌, ◌-◌, ◌≤◌, ◌<◌, ◌≡◌, refl, subst, ap, ap₂, ◌∙◌, List, [], ◌∷◌, ◌++◌, get_or,
  take, length, length-append, arith, ltb, if◌then◌else◌,
}

pub take-bytes :
    (text bytes : List ℕ)
    → length text ≤ length bytes
    → ((i : ℕ) → i < length text → get_or bytes i 0 ≡ get_or text i 0)
    → take (length text) bytes ≡ text
take-bytes [] bytes le h = refl
take-bytes (x ∷ xs) [] le h = absurd (omega arith)
take-bytes (x ∷ xs) (b ∷ bs) le h =
    ap₂ ◌∷◌ (h 0 (omega arith)) (take-bytes xs bs (omega arith) (λ i lt. h (suc i) (omega arith)))

pub take-at : (n i : ℕ) (xs : List ℕ) → i < n → get_or (take n xs) i 0 ≡ get_or xs i 0
take-at zero i xs lt = elim lt [ ]
take-at (suc n) i [] lt = refl
take-at (suc n) zero (x ∷ xs) lt = refl
take-at (suc n) (suc i) (x ∷ xs) lt = take-at n i xs (omega arith)

pub length-take_le : (n : ℕ) (xs : List ℕ) → n ≤ length xs → length (take n xs) ≡ n
length-take_le zero xs le = refl
length-take_le (suc n) [] le = absurd (omega arith)
length-take_le (suc n) (x ∷ xs) le = ap suc (length-take_le n xs (omega arith))

pub get_or-append :
    (xs ys : List ℕ) (i : ℕ)
    → get_or (xs ++ ys) i 0
      ≡ (if ltb i (length xs) then get_or xs i 0 else get_or ys (i - length xs) 0)
get_or-append [] ys i = ap (λ j. get_or ys j 0) {y = i - 0} (omega arith) ∙ ground arith
get_or-append (x ∷ xs) ys zero = ground arith
get_or-append (x ∷ xs) ys (suc i) =
    get_or-append xs ys i
    ∙ ground (
      arith,
      ap (λ j. get_or ys j 0) {x = i - length xs} {y = suc i - suc (length xs)} (omega arith),
    )

pub take-all : (n : ℕ) (xs : List ℕ) → length xs ≤ n → take n xs ≡ xs
take-all zero [] le = refl
take-all (suc n) [] le = refl
take-all zero (x ∷ xs) le = elim le [ ]
take-all (suc n) (x ∷ xs) le = ap (◌∷◌ x) (take-all n xs (omega arith))

pub append-snoc : (xs : List ℕ) (x : ℕ) (ys : List ℕ) → (xs ++ x ∷ []) ++ ys ≡ xs ++ x ∷ ys
append-snoc [] x ys = refl
append-snoc (y ∷ xs) x ys = ap (◌∷◌ y) (append-snoc xs x ys)

-- An array has these bytes from the index on.
abbrev pub At : ℕ → List ℕ → List ℕ → Type 0
At k text array = (i : ℕ) → i < length text → get_or array (k + i) 0 ≡ get_or text i 0

pub At-left : (k : ℕ) (a b line : List ℕ) → At k (a ++ b) line → At k a line
At-left k a b line at i lt =
    at i (omega (arith, length-append a b, lt)) ∙ ground (arith, get_or-append a b i, lt)

pub At-right : (k : ℕ) (a b line : List ℕ) → At k (a ++ b) line → At (k + length a) b line
At-right k a b line at i lt =
    ap (λ j. get_or line j 0) {x = k + length a + i} {y = k + (length a + i)} (omega arith)
    ∙ at (length a + i) (omega (arith, length-append a b, lt))
    ∙ get_or-append a b (length a + i)
    ∙ ground (arith, ap (λ j. get_or b j 0) {x = length a + i - length a} {y = i} (omega arith))

pub At-move : (k k' : ℕ) (text array : List ℕ) → k ≡ k' → At k text array → At k' text array
At-move k k' text array e at = subst (λ j. At j text array) e at
