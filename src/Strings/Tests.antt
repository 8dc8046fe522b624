-- ===== src/Strings/Tests.antt =====
-- Runs of src/kernel/lib/string.c, and the theorems at them.
use lux_kernel.Base.{ℕ, ◌+◌, ◌-◌, ◌≡◌, refl, List, [], ◌∷◌, arith, get_or, if◌then◌else◌, negsuc}
use lux_kernel.Strings.{memset, memmove, memcmp}
use lux_kernel.Strings.Copy
use lux_kernel.Strings.Copy.{within}

abbrev digits : List ℕ
digits = 1 ∷ 2 ∷ 3 ∷ 4 ∷ 5 ∷ []

move_overlap_up : memmove digits 1 0 4 ≡ 1 ∷ 1 ∷ 2 ∷ 3 ∷ 4 ∷ []
unfolding memmove
move_overlap_up = refl

move_overlap_down : memmove digits 0 1 4 ≡ 2 ∷ 3 ∷ 4 ∷ 5 ∷ 5 ∷ []
unfolding memmove
move_overlap_down = refl

memset_fills : memset digits 1 258 2 ≡ 1 ∷ 2 ∷ 2 ∷ 4 ∷ 5 ∷ []
unfolding memset
memset_fills = refl

compare_bytes : memcmp digits 0 (1 ∷ 2 ∷ 9 ∷ []) 0 3 ≡ negsuc 5
unfolding memcmp
compare_bytes = refl

get_or-memmove_example :
    get_or (memmove digits 1 0 4) 3 0
    ≡ (if within 1 4 3 then get_or digits (0 + (3 - 1)) 0 else get_or digits 3 0)
get_or-memmove_example = Copy.get_or-memmove digits 1 0 4 3 (omega arith) (omega arith)
