-- ===== src/Strings/Compare.antt =====
-- `strcmp`, `strlen` and `memcmp` of src/kernel/lib/string.c against the strings that arrays hold.
use lux_kernel.Base.{
  ℕ, zero, suc, ◌+◌, ◌<◌, ◌≡◌, refl, List, [], ◌∷◌, ◌==◌, arith, if◌then◌else◌, get_or, length, pos,
  sub_ℕ,
}
use lux_kernel.Strings.{strcmp, strlen, memcmp}

-- The string at the start of an array: the bytes before the first NUL.
unfoldable pub cstr : List ℕ → List ℕ
cstr [] = []
cstr (x ∷ xs) = let rest = cstr xs in if x == 0 then [] else x ∷ rest

pub strlen-length : (xs : List ℕ) → strlen xs ≡ length (cstr xs)
unfolding strlen cstr
strlen-length [] = refl
strlen-length (x ∷ xs) = ground (arith, strlen-length xs)

sub-zero : (a b : ℕ) → sub_ℕ a b ≡ pos 0 → a ≡ b
sub-zero a b h = ground arith

-- `strcmp` gives 0 on equal strings, whatever stands behind their ends.
pub strcmp-eq : (xs ys : List ℕ) → cstr xs ≡ cstr ys → strcmp xs ys ≡ pos 0
unfolding strcmp cstr
strcmp-eq [] [] e = refl
strcmp-eq [] (y ∷ ys) e = ground arith
strcmp-eq (x ∷ xs) [] e = ground arith
strcmp-eq (x ∷ xs) (y ∷ ys) e = ground (arith, strcmp-eq xs ys)

-- And only on those.
pub cstr-eq : (xs ys : List ℕ) → strcmp xs ys ≡ pos 0 → cstr xs ≡ cstr ys
unfolding strcmp cstr
cstr-eq [] [] e = refl
cstr-eq [] (y ∷ ys) e = ground (arith, sub-zero 0 y)
cstr-eq (x ∷ xs) [] e = ground (arith, sub-zero x 0)
cstr-eq (x ∷ xs) (y ∷ ys) e = ground (arith, cstr-eq xs ys, sub-zero x y)

-- `strcmp` gives 0 on two arrays exactly when they hold the same string before the first NUL.
pub strcmp_iff :
    (xs ys : List ℕ)
    → (strcmp xs ys ≡ pos 0 → cstr xs ≡ cstr ys) × (cstr xs ≡ cstr ys → strcmp xs ys ≡ pos 0)
strcmp_iff xs ys = (cstr-eq xs ys, strcmp-eq xs ys)

-- `memcmp` gives 0 only where the two ranges agree.
pub memcmp-eq :
    (a : List ℕ) (i : ℕ) (b : List ℕ) (j n k : ℕ)
    → memcmp a i b j n ≡ pos 0
    → k < n
    → get_or a (i + k) 0 ≡ get_or b (j + k) 0
unfolding memcmp
memcmp-eq a i b j zero k h lt = elim lt [ ]
memcmp-eq a i b j (suc n) zero h lt = ground (arith, sub-zero (get_or a i 0) (get_or b j 0))
memcmp-eq a i b j (suc n) (suc k) h lt =
    let rest : memcmp a (i + 1) b (j + 1) n ≡ pos 0 =
      ground (arith, sub-zero (get_or a i 0) (get_or b j 0)) in
    let e : get_or a (i + 1 + k) 0 ≡ get_or b (j + 1 + k) 0 =
      memcmp-eq a (i + 1) b (j + 1) n k rest (omega arith) in
    ground arith
