-- ===== src/Strings.antt =====
-- src/kernel/lib/string.c over arrays of bytes. A pointer is an array and an index; where two
-- pointers are into one array (`memmove`), there is one array and two indices. A string is an array
-- whose end stands for a NUL. Reads behind the end of an array give 0 and writes there are lost: the
-- callers keep within their arrays.
pub mod Copy
pub mod Compare
mod Tests
use lux_kernel.Base.{
  ℕ, zero, suc, ◌+◌, ◌%◌, Bool, true, false, not, ◌&&◌, ◌||◌, List, [], ◌∷◌, ltb, ◌==◌,
  if◌then◌else◌, get_or, set, ℤ, pos, sub_ℕ,
}

unfoldable pub memset : List ℕ → ℕ → ℕ → ℕ → List ℕ
memset ptr i value zero = ptr
memset ptr i value (suc len) = memset (set ptr i (value % 256)) (i + 1) value len

unfoldable pub memcpy : List ℕ → ℕ → List ℕ → ℕ → ℕ → List ℕ
memcpy dst d src s zero = dst
memcpy dst d src s (suc len) = memcpy (set dst d (get_or src s 0)) (d + 1) src (s + 1) len

-- The two loops of `memmove`, upwards and downwards.
pub move_up : List ℕ → ℕ → ℕ → ℕ → List ℕ
move_up mem d s zero = mem
move_up mem d s (suc len) = move_up (set mem d (get_or mem s 0)) (d + 1) (s + 1) len

-- The pointers start at the end, and are decremented before each byte.
pub move_down : List ℕ → ℕ → ℕ → ℕ → List ℕ
move_down mem d s zero = mem
move_down mem d s (suc len) = move_down (set mem (d + len) (get_or mem (s + len) 0)) d s len

unfoldable pub memmove : List ℕ → ℕ → ℕ → ℕ → List ℕ
unfolding move_up move_down
memmove mem d s len =
    if d == s || len == 0
    then mem
    else if ltb d s
    then move_up mem d s len
    else move_down mem d s len

unfoldable pub memcmp : List ℕ → ℕ → List ℕ → ℕ → ℕ → ℤ
memcmp a i b j zero = pos 0
memcmp a i b j (suc len) =
    let rest = memcmp a (i + 1) b (j + 1) len in
    let va = get_or a i 0 in let vb = get_or b j 0 in if not (va == vb) then sub_ℕ va vb else rest

unfoldable pub strcmp : List ℕ → List ℕ → ℤ
strcmp [] [] = pos 0
strcmp [] (y ∷ ys) = sub_ℕ 0 y
strcmp (x ∷ xs) [] = sub_ℕ x 0
strcmp (x ∷ xs) (y ∷ ys) =
    let rest = strcmp xs ys in if not (x == 0) && x == y then rest else sub_ℕ x y

unfoldable pub strlen : List ℕ → ℕ
strlen [] = 0
strlen (x ∷ xs) = let rest = strlen xs in if x == 0 then 0 else suc rest
