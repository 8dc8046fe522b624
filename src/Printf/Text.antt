-- ===== src/Printf/Text.antt =====
-- The functions of src/kernel/lib/printf.c that take a callback call it on the characters of a text that
-- does not depend on it.
use lux_kernel.Base.{
  ℕ, zero, suc, ◌+◌, ◌%◌, ◌^◌, ◌≡◌, refl, sym, ap, ◌∙◌, Bool, true, false, not, ◌||◌, Option, none,
  some, List, [], ◌∷◌, ◌++◌, ltb, ◌==◌, if◌then◌else◌, get_or, drop, length, ℤ, pos, negsuc, arith,
  length-append,
}
use lux_kernel.Printf.{
  Emit, Out, Arg, number, string, digit_buffer, null_text, fetch_unsigned, fetch_signed, count_l,
  emit_char, emit_chars, emit_string, emit_back, emit_unsigned_base, emit_signed, number_arg,
  string_arg, directive, followed, format_loop, kvprintf,
}

-- The callback on each character of a text, in order.
unfoldable pub emit_all : {S : Type 0} → Emit S → List ℕ → S → S
emit_all emit [] s = s
emit_all emit (c ∷ cs) s = emit_all emit cs (emit c s)

abbrev pub say : {S : Type 0} → Emit S → List ℕ → Out S → Out S
say emit t out = record { context = emit_all emit t out.context; written = out.written + length t }

-- A function that emits one text, whatever the callback and its context.
abbrev pub Says : ((S : Type 0) → Emit S → Out S → Out S) → Type 1
Says F = (t : List ℕ) × ((S : Type 0) (emit : Emit S) (out : Out S) → F S emit out ≡ say emit t out)

abbrev told : {S : Type 0} → Emit S → Option (List ℕ × List Arg) → Out S → Option (Out S × List Arg)
told emit none out = none
told emit (some (t, args)) out = some (say emit t out, args)

abbrev SaysArgs : ((S : Type 0) → Emit S → Out S → Option (Out S × List Arg)) → Type 1
SaysArgs F =
    (r : Option (List ℕ × List Arg)) × ((S : Type 0) (emit : Emit S) (out : Out S)
      → F S emit out ≡ told emit r out)

abbrev pub said : {S : Type 0} → Emit S → Option (List ℕ) → Out S → Option (Out S)
said emit none out = none
said emit (some t) out = some (say emit t out)

abbrev SaysText : ((S : Type 0) → Emit S → Out S → Option (Out S)) → Type 1
SaysText F =
    (r : Option (List ℕ)) × ((S : Type 0) (emit : Emit S) (out : Out S)
      → F S emit out ≡ said emit r out)

emit_all-append :
    {S : Type 0} (emit : Emit S) (s t : List ℕ) (c : S)
    → emit_all emit (s ++ t) c ≡ emit_all emit t (emit_all emit s c)
unfolding emit_all
emit_all-append emit [] t c = refl
emit_all-append emit (x ∷ s) t c = emit_all-append emit s t (emit x c)

pub out_eq :
    {S : Type 0} (c d : S) (m n : ℕ)
    → c ≡ d
    → m ≡ n
    → Path (Out S) (record { context = c; written = m }) (record { context = d; written = n })
out_eq c d m n e f i = record { context = e i; written = f i }

say-append :
    {S : Type 0} (emit : Emit S) (s t : List ℕ) (out : Out S)
    → say emit t (say emit s out) ≡ say emit (s ++ t) out
say-append emit s t out =
    out_eq _ _ _ _ (sym (emit_all-append emit s t out.context)) (omega (arith, length-append s t))

Says-char : (c : ℕ) → Says (λ S emit out. emit_char emit c out)
unfolding emit_char emit_all
Says-char c = (c ∷ [], λ S emit out. refl)

Says-then :
    (F G : (S : Type 0) → Emit S → Out S → Out S)
    → Says F
    → Says G
    → Says (λ S emit out. G S emit (F S emit out))
Says-then F G (s, f) (t, g) = (
  s ++ t,
  λ S emit out. g S emit (F S emit out) ∙ ap (say emit t) (f S emit out) ∙ say-append emit s t out,
)

Says-nothing : Says (λ S emit out. out)
unfolding emit_all
Says-nothing = ([], λ S emit out. out_eq _ _ _ _ refl (omega arith))

Says-if :
    (b : Bool) (F G : (S : Type 0) → Emit S → Out S → Out S)
    → Says F
    → Says G
    → Says (λ S emit out. if b then F S emit out else G S emit out)
Says-if true F G f g = f
Says-if false F G f g = g

Says-chars : (cs : List ℕ) → Says (λ S emit out. emit_chars emit cs out)
unfolding emit_chars
Says-chars [] = Says-nothing
Says-chars (c ∷ cs) = Says-if (c == 0) _ _ Says-nothing (
    Says-then (λ S emit out. emit_char emit c out) (λ S emit out. emit_chars emit cs out)
      (Says-char c) (Says-chars cs))

Says-string : (s : Option (List ℕ)) → Says (λ S emit out. emit_string emit s out)
unfolding emit_string
Says-string none = Says-chars null_text
Says-string (some s) = Says-chars s

Says-back : (buffer : List ℕ) (n : ℕ) → Says (λ S emit out. emit_back emit buffer n out)
unfolding emit_back
Says-back buffer zero = Says-nothing
Says-back buffer (suc n) =
    Says-then (λ S emit out. emit_char emit (get_or buffer n 0) out)
      (λ S emit out. emit_back emit buffer n out) (Says-char _) (Says-back buffer n)

pub Says-unsigned :
    (value base : ℕ) (uppercase : Bool)
    → Says (λ S emit out. emit_unsigned_base emit value base uppercase out)
unfolding emit_unsigned_base
Says-unsigned value base uppercase =
    let b = if ltb base 2 || ltb 16 base then 10 else base in
    Says-back (digit_buffer uppercase b value) (length (digit_buffer uppercase b value))

Says-signed : (z : ℤ) → Says (λ S emit out. emit_signed emit z out)
unfolding emit_signed
Says-signed (pos n) = Says-unsigned (n % 2 ^ 64) 10 false
Says-signed (negsuc n) =
    Says-then (λ S emit out. emit_char emit 45 out)
      (λ S emit out. emit_unsigned_base emit ((n + 1) % 2 ^ 64) 10 false out) (Says-char 45)
      (Says-unsigned ((n + 1) % 2 ^ 64) 10 false)

SaysArgs-if :
    (b : Bool) (F G : (S : Type 0) → Emit S → Out S → Option (Out S × List Arg))
    → SaysArgs F
    → SaysArgs G
    → SaysArgs (λ S emit out. if b then F S emit out else G S emit out)
SaysArgs-if true F G f g = f
SaysArgs-if false F G f g = g

SaysArgs-number :
    (args : List Arg) (F : ℕ → (S : Type 0) → Emit S → Out S → Out S)
    → ((n : ℕ) → Says (F n))
    → SaysArgs (λ S emit out. number_arg emit args (λ n. F n S emit out))
unfolding number_arg
SaysArgs-number (number n ∷ args) F f =
    (some ((f n).0, args), λ S emit out. ap (λ o. some (o, args)) ((f n).1 S emit out))
SaysArgs-number (string s ∷ args) F f = (none, λ S emit out. refl)
SaysArgs-number [] F f = (none, λ S emit out. refl)

SaysArgs-string :
    (args : List Arg) (F : Option (List ℕ) → (S : Type 0) → Emit S → Out S → Out S)
    → ((s : Option (List ℕ)) → Says (F s))
    → SaysArgs (λ S emit out. string_arg emit args (λ s. F s S emit out))
unfolding string_arg
SaysArgs-string (string s ∷ args) F f =
    (some ((f s).0, args), λ S emit out. ap (λ o. some (o, args)) ((f s).1 S emit out))
SaysArgs-string (number n ∷ args) F f = (none, λ S emit out. refl)
SaysArgs-string [] F f = (none, λ S emit out. refl)

SaysArgs-out :
    (args : List Arg) (F : (S : Type 0) → Emit S → Out S → Out S)
    → Says F
    → SaysArgs (λ S emit out. some (F S emit out, args))
SaysArgs-out args F (t, f) = (some (t, args), λ S emit out. ap (λ o. some (o, args)) (f S emit out))

SaysArgs-directive :
    (spec length : ℕ) (args : List Arg)
    → SaysArgs (λ S emit out. directive emit spec length args out)
unfolding directive
SaysArgs-directive spec length args =
    SaysArgs-if (spec == 99) _ _
      (SaysArgs-number args (λ n S emit out. emit_char emit (n % 256) out) λ n. Says-char (n % 256))
      (SaysArgs-if (spec == 115) _ _
        (SaysArgs-string args (λ s S emit out. emit_string emit s out) Says-string)
        (SaysArgs-if (spec == 100 || spec == 105) _ _
          (SaysArgs-number args (λ n S emit out. emit_signed emit (fetch_signed length n) out)
            λ n. Says-signed (fetch_signed length n))
          (SaysArgs-if (spec == 117) _ _
            (SaysArgs-number args
              (λ n S emit out. emit_unsigned_base emit (fetch_unsigned length n) 10 false out)
              λ n. Says-unsigned (fetch_unsigned length n) 10 false)
            (SaysArgs-if (spec == 120) _ _
              (SaysArgs-number args
                (λ n S emit out. emit_unsigned_base emit (fetch_unsigned length n) 16 false out)
                λ n. Says-unsigned (fetch_unsigned length n) 16 false)
              (SaysArgs-if (spec == 88) _ _
                (SaysArgs-number args
                  (λ n S emit out. emit_unsigned_base emit (fetch_unsigned length n) 16 true out)
                  λ n. Says-unsigned (fetch_unsigned length n) 16 true)
                (SaysArgs-if (spec == 112) _ _
                  (SaysArgs-number args
                    (λ n S emit out.
                      emit_unsigned_base emit (n % 2 ^ 32) 16 false
                        (emit_string emit (some (48 ∷ 120 ∷ [])) out))
                    λ n.
                      Says-then (λ S emit out. emit_string emit (some (48 ∷ 120 ∷ [])) out)
                        (λ S emit out. emit_unsigned_base emit (n % 2 ^ 32) 16 false out)
                        (Says-string (some (48 ∷ 120 ∷ []))) (Says-unsigned (n % 2 ^ 32) 16 false))
                  (SaysArgs-out args (λ S emit out. emit_char emit spec (emit_char emit 37 out))
                    (Says-then (λ S emit out. emit_char emit 37 out)
                      (λ S emit out. emit_char emit spec out) (Says-char 37)
                      (Says-char spec)))))))))

SaysText-if :
    (b : Bool) (F G : (S : Type 0) → Emit S → Out S → Option (Out S))
    → SaysText F
    → SaysText G
    → SaysText (λ S emit out. if b then F S emit out else G S emit out)
SaysText-if true F G f g = f
SaysText-if false F G f g = g

SaysText-out :
    (F : (S : Type 0) → Emit S → Out S → Out S)
    → Says F
    → SaysText (λ S emit out. some (F S emit out))
SaysText-out F (t, f) = (some t, λ S emit out. ap some (f S emit out))

-- One text in front of another.
SaysText-then :
    (F : (S : Type 0) → Emit S → Out S → Out S) (G : (S : Type 0) → Emit S → Out S → Option (Out S))
    → Says F
    → SaysText G
    → SaysText (λ S emit out. G S emit (F S emit out))
SaysText-then F G (s, f) (none, g) = (none, λ S emit out. g S emit (F S emit out))
SaysText-then F G (s, f) (some t, g) = (
  some (s ++ t),
  λ S emit out.
      g S emit (F S emit out)
      ∙ ap (λ o. some (say emit t o)) (f S emit out)
      ∙ ap some (say-append emit s t out),
)

SaysText-followed :
    (F : (S : Type 0) → Emit S → Out S → Option (Out S × List Arg))
    → (G : List Arg → (S : Type 0) → Emit S → Out S → Option (Out S)) → SaysArgs F
    → ((args : List Arg) → SaysText (G args))
    → SaysText (λ S emit out. followed (F S emit out) (λ args o. G args S emit o))
SaysText-followed F G (none, f) g =
    (none, λ S emit out. ap (λ r. followed r (λ args o. G args S emit o)) (f S emit out))
SaysText-followed F G (some (t, args), f) g =
    let (r, k) =
      SaysText-then (λ S emit out. say emit t out) (G args) (t, λ S emit out. refl) (g args) in
    (
      r,
      λ S emit out. ap (λ r. followed r (λ args o. G args S emit o)) (f S emit out) ∙ k S emit out,
    )

SaysText-loop :
    (fuel : ℕ) (fmt : List ℕ) (args : List Arg)
    → SaysText (λ S emit out. format_loop emit fuel fmt args out)
unfolding format_loop
SaysText-loop zero fmt args = (none, λ S emit out. refl)
SaysText-loop (suc fuel) [] args = SaysText-out _ Says-nothing
SaysText-loop (suc fuel) (ch ∷ fmt) args =
    let (length, rest) = count_l 0 fmt in
    SaysText-if (ch == 0) _ _ (SaysText-out _ Says-nothing) (
      SaysText-if (not (ch == 37)) _ _
        (SaysText-then (λ S emit out. emit_char emit ch out)
          (λ S emit out. format_loop emit fuel fmt args out) (Says-char ch)
          (SaysText-loop fuel fmt args))
        (SaysText-if (get_or fmt 0 0 == 37) _ _
          (SaysText-then (λ S emit out. emit_char emit 37 out)
            (λ S emit out. format_loop emit fuel (drop 1 fmt) args out) (Says-char 37)
            (SaysText-loop fuel (drop 1 fmt) args))
          (SaysText-if (get_or rest 0 0 == 0) _ _ (SaysText-out _ (Says-char 37)) (
            SaysText-followed (λ S emit out. directive emit (get_or rest 0 0) length args out)
              (λ args' S emit out. format_loop emit fuel (drop 1 rest) args' out)
              (SaysArgs-directive (get_or rest 0 0) length args)
              (λ args'. SaysText-loop fuel (drop 1 rest) args')))))

-- For each format and arguments there is one text or none, whatever the callback and its context:
-- `kvprintf` calls the callback on the characters of that text in order and counts them, or has no
-- result.
pub kvprintf-say :
    (fmt : Option (List ℕ)) (args : List Arg)
    → (text : Option (List ℕ)) × ((S : Type 0) (emit : Emit S) (context : S)
        → kvprintf emit fmt args context
          ≡ said emit text (record { context = context; written = 0 }))
unfolding kvprintf emit_all
kvprintf-say none args = (some [], λ S emit context. refl)
kvprintf-say (some fmt) args =
    let (text, run) = SaysText-loop (length fmt + 1) fmt args in
    (text, λ S emit context. run S emit (record { context = context; written = 0 }))
