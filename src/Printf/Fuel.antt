-- ===== src/Printf/Fuel.antt =====
-- The main loop of `kvprintf` of src/kernel/lib/printf.c ends: more rounds than bytes of the format change
-- nothing.
use lux_kernel.Base.{
  ℕ, zero, suc, ◌+◌, ◌≤◌, ◌<◌, ◌≡◌, refl, Bool, true, false, not, ◌&&◌, Option, none, some, List,
  [], ◌∷◌, ltb, ◌==◌, if◌then◌else◌, get_or, drop, length, arith, Bool-cases, inl, inr, length-drop,
}
use lux_kernel.Printf.{Emit, Out, Arg, count_l, directive, followed, format_loop, kvprintf}

count_l-length : (n : ℕ) (fmt : List ℕ) → length (count_l n fmt).1 ≤ length fmt
unfolding count_l
count_l-length n [] = omega arith
count_l-length n (c ∷ fmt) = elim (Bool-cases (c == 108 && ltb n 2)) [
  | inl e ↦ rw e (omega (arith, count_l-length (n + 1) fmt))
  | inr e ↦ rw e (omega arith)
]

if-cong :
    {A : Type 0} (b : Bool) (x y u v : A)
    → x ≡ u
    → y ≡ v
    → (if b then x else y) ≡ (if b then u else v)
if-cong true x y u v e f = e
if-cong false x y u v e f = f

followed-cong :
    {S : Type 0} (r : Option (Out S × List Arg)) (f g : List Arg → Out S → Option (Out S))
    → ((args : List Arg) (out : Out S) → f args out ≡ g args out)
    → followed r f ≡ followed r g
followed-cong none f g e = refl
followed-cong (some (out, args)) f g e = e args out

format_loop-agree :
    {S : Type 0} (emit : Emit S) (m n : ℕ) (fmt : List ℕ) (args : List Arg) (out : Out S)
    → length fmt < m
    → length fmt < n
    → format_loop emit m fmt args out ≡ format_loop emit n fmt args out
unfolding format_loop
format_loop-agree emit zero n fmt args out lm ln = absurd (omega (arith, lm))
format_loop-agree emit (suc m) zero fmt args out lm ln = absurd (omega (arith, ln))
format_loop-agree emit (suc m) (suc n) [] args out lm ln = refl
format_loop-agree emit (suc m) (suc n) (ch ∷ fmt) args out lm ln =
    let (length, rest) = count_l 0 fmt in
    let short = count_l-length 0 fmt in
    if-cong (ch == 0) _ _ _ _ refl (
      if-cong (not (ch == 37)) _ _ _ _
        (format_loop-agree emit m n fmt args _ (omega (arith, lm)) (omega (arith, ln)))
        (if-cong (get_or fmt 0 0 == 37) _ _ _ _
          (format_loop-agree emit m n (drop 1 fmt) args _ (omega (arith, lm, length-drop 1 fmt))
            (omega (arith, ln, length-drop 1 fmt)))
          (if-cong (get_or rest 0 0 == 0) _ _ _ _ refl (
            followed-cong (directive emit (get_or rest 0 0) length args out) _ _ λ args' out'.
              format_loop-agree emit m n (drop 1 rest) args' out'
                (omega (arith, lm, short, length-drop 1 rest))
                (omega (arith, ln, short, length-drop 1 rest))))))

-- The loop of `kvprintf` never stops for want of fuel: with any number of rounds above the length of the
-- format it gives what `kvprintf` gives.
pub kvprintf-format_loop :
    {S : Type 0} (emit : Emit S) (fmt : List ℕ) (args : List Arg) (context : S) (rounds : ℕ)
    → length fmt < rounds
    → kvprintf emit (some fmt) args context
      ≡ format_loop emit rounds fmt args (record { context = context; written = 0 })
unfolding kvprintf
kvprintf-format_loop emit fmt args context rounds enough =
    format_loop-agree emit (length fmt + 1) rounds fmt args _ (omega arith) enough
