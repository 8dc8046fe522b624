-- ===== src/Printf.antt =====
-- src/kernel/lib/printf.c. A callback is a function on its context; what is emitted and the count
-- `written` go together. An argument list is a list: `%s` wants a string, the other directives a number,
-- and an argument that is missing or of the other kind, which C leaves undefined, is `none`.
pub mod Text
pub mod Digits
pub mod Buffer
pub mod Fuel
mod Tests
use lux_kernel.Base.{
  ℕ, zero, suc, ◌+◌, ◌-◌, ◌*◌, ◌/◌, ◌%◌, ◌^◌, Bool, true, false, not, ◌&&◌, ◌||◌, Option, none,
  some, List, [], ◌∷◌, leb, ltb, ◌==◌, if◌then◌else◌, get_or, set, drop, length, ℤ, pos, negsuc,
}

abbrev pub Emit : Type 0 → Type 0
Emit S = ℕ → S → S

pub record Out (S : Type 0) : Type 0 where
  pub context : S
  pub written : ℕ

-- A number is given by its bits; a string is `none` for a null pointer.
pub data Arg : Type 0 where
  number : ℕ → Arg
  string : Option (List ℕ) → Arg

abbrev pub lower_digits : List ℕ
lower_digits = 48 ∷ 49 ∷ 50 ∷ 51 ∷ 52 ∷ 53 ∷ 54 ∷ 55 ∷ 56 ∷ 57 ∷ 97 ∷ 98 ∷ 99 ∷ 100 ∷ 101 ∷ 102 ∷ []

abbrev pub upper_digits : List ℕ
upper_digits = 48 ∷ 49 ∷ 50 ∷ 51 ∷ 52 ∷ 53 ∷ 54 ∷ 55 ∷ 56 ∷ 57 ∷ 65 ∷ 66 ∷ 67 ∷ 68 ∷ 69 ∷ 70 ∷ []

unfoldable pub digit_char : Bool → ℕ → ℕ
digit_char uppercase d = get_or (if uppercase then upper_digits else lower_digits) d 0

-- The bytes that the digit loop puts into `buffer`, which has room for so many more.
unfoldable pub digit_loop : Bool → ℕ → ℕ → ℕ → List ℕ
digit_loop uppercase base zero value = []
digit_loop uppercase base (suc room) value =
    let rest = digit_loop uppercase base room (value / base) in
    if value == 0 then [] else digit_char uppercase (value % base) ∷ rest

unfoldable pub digit_buffer : Bool → ℕ → ℕ → List ℕ
digit_buffer uppercase base value =
    if value == 0 then 48 ∷ [] else digit_loop uppercase base 65 value

-- `"(null)"`
abbrev pub null_text : List ℕ
null_text = 40 ∷ 110 ∷ 117 ∷ 108 ∷ 108 ∷ 41 ∷ []

-- Two's complement on `w` bits.
unfoldable pub signed : ℕ → ℕ → ℤ
signed w n = let v = n % 2 ^ w in if ltb v (2 ^ (w - 1)) then pos v else negsuc (2 ^ w - 1 - v)

unfoldable pub fetch_unsigned : ℕ → ℕ → ℕ
fetch_unsigned length n = if leb 2 length then n % 2 ^ 64 else n % 2 ^ 32

unfoldable pub fetch_signed : ℕ → ℕ → ℤ
fetch_signed length n = if leb 2 length then signed 64 n else signed 32 n

-- `while (*fmt == 'l' && length < 2)`: the length and the rest of the format.
unfoldable pub count_l : ℕ → List ℕ → ℕ × List ℕ
count_l length [] = (length, [])
count_l length (c ∷ fmt) =
    let rest = count_l (length + 1) fmt in
    if c == 108 && ltb length 2 then rest else (length, c ∷ fmt)

-- The rest of a format, with the arguments that a directive left.
abbrev pub followed :
    {S : Type 0} → Option (Out S × List Arg) → (List Arg → Out S → Option (Out S)) → Option (Out S)
followed none next = none
followed (some (out, args)) next = next args out

module _ {S : Type 0} (emit : Emit S) where
  unfoldable pub emit_char : ℕ → Out S → Out S
  emit_char c out = record { context = emit c out.context; written = out.written + 1 }

  unfoldable pub emit_chars : List ℕ → Out S → Out S
  emit_chars [] out = out
  emit_chars (c ∷ cs) out =
      let rest = emit_chars cs (emit_char c out) in if c == 0 then out else rest

  unfoldable pub emit_string : Option (List ℕ) → Out S → Out S
  emit_string none out = emit_chars null_text out
  emit_string (some str) out = emit_chars str out

  -- `while (len--)`
  unfoldable pub emit_back : List ℕ → ℕ → Out S → Out S
  emit_back buffer zero out = out
  emit_back buffer (suc len) out = emit_back buffer len (emit_char (get_or buffer len 0) out)

  unfoldable pub emit_unsigned_base : ℕ → ℕ → Bool → Out S → Out S
  emit_unsigned_base value base uppercase out =
      let b = if ltb base 2 || ltb 16 base then 10 else base in
      let buffer = digit_buffer uppercase b value in emit_back buffer (length buffer) out

  unfoldable pub emit_signed : ℤ → Out S → Out S
  emit_signed (pos n) out = emit_unsigned_base (n % 2 ^ 64) 10 false out
  emit_signed (negsuc n) out = emit_unsigned_base ((n + 1) % 2 ^ 64) 10 false (emit_char 45 out)

  unfoldable pub number_arg : List Arg → (ℕ → Out S) → Option (Out S × List Arg)
  number_arg (number n ∷ args) f = some (f n, args)
  number_arg (string s ∷ args) f = none
  number_arg [] f = none

  unfoldable pub string_arg : List Arg → (Option (List ℕ) → Out S) → Option (Out S × List Arg)
  string_arg (string s ∷ args) f = some (f s, args)
  string_arg (number n ∷ args) f = none
  string_arg [] f = none

  -- The `switch`.
  unfoldable pub directive : ℕ → ℕ → List Arg → Out S → Option (Out S × List Arg)
  directive spec length args out =
      if spec == 99
      then number_arg args (λ n. emit_char (n % 256) out)
      else if spec == 115
      then string_arg args (λ s. emit_string s out)
      else if spec == 100 || spec == 105
      then number_arg args (λ n. emit_signed (fetch_signed length n) out)
      else if spec == 117
      then number_arg args (λ n. emit_unsigned_base (fetch_unsigned length n) 10 false out)
      else if spec == 120
      then number_arg args (λ n. emit_unsigned_base (fetch_unsigned length n) 16 false out)
      else if spec == 88
      then number_arg args (λ n. emit_unsigned_base (fetch_unsigned length n) 16 true out)
      else if spec == 112
      then number_arg args
          (λ n. emit_unsigned_base (n % 2 ^ 32) 16 false (emit_string (some (48 ∷ 120 ∷ [])) out))
      else some (emit_char spec (emit_char 37 out), args)

  -- The main loop; each round takes at least one byte of the format.
  unfoldable pub format_loop : ℕ → List ℕ → List Arg → Out S → Option (Out S)
  format_loop zero fmt args out = none
  format_loop (suc fuel) [] args out = some out
  format_loop (suc fuel) (ch ∷ fmt) args out =
      let next = format_loop fuel in
      let (length, rest) = count_l 0 fmt in
      if ch == 0
      then some out
      else if not (ch == 37)
      then next fmt args (emit_char ch out)
      else if get_or fmt 0 0 == 37
      then next (drop 1 fmt) args (emit_char 37 out)
      else if get_or rest 0 0 == 0
      then some (emit_char 37 out)
      else followed (directive (get_or rest 0 0) length args out) (next (drop 1 rest))

  unfoldable pub kvprintf : Option (List ℕ) → List Arg → S → Option (Out S)
  kvprintf none args context = some (record { context = context; written = 0 })
  kvprintf (some fmt) args context =
      format_loop (length fmt + 1) fmt args (record { context = context; written = 0 })

-- `struct buffer_ctx`; the buffer is `none` for a null pointer.
pub record BufferCtx : Type 0 where
  pub buffer : Option (List ℕ)
  pub size : ℕ
  pub pos : ℕ

unfoldable pub buffer_emit : Emit BufferCtx
buffer_emit c ctx = elim ctx.buffer [
  | none ↦ record ctx { pos = ctx.pos + 1 }
  | some bytes ↦
      if ctx.size == 0 || not (ltb (ctx.pos + 1) ctx.size)
      then record ctx { pos = ctx.pos + 1 }
      else record ctx { buffer = some (set bytes ctx.pos c); pos = ctx.pos + 1 }
]

-- The NUL that `vsnprintf` writes behind the text; the buffer, and the result.
abbrev pub terminated : ℕ → Option (Out BufferCtx) → Option (Option (List ℕ) × ℕ)
terminated size none = none
terminated size (some out) = some (elim out.context.buffer [
  | none ↦ (none, out.context.pos)
  | some bytes ↦
      let index = if ltb out.context.pos (size - 1) then out.context.pos else size - 1 in
      ((if size == 0 then some bytes else some (set bytes index 0)), out.context.pos)
])

unfoldable pub vsnprintf :
    Option (List ℕ) → ℕ → Option (List ℕ) → List Arg → Option (Option (List ℕ) × ℕ)
vsnprintf buffer size fmt args =
    terminated size
      (kvprintf buffer_emit fmt args (record { buffer = buffer; size = size; pos = 0 }))
