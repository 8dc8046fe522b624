-- ===== src/Printf/Tests.antt =====
-- Runs of src/kernel/lib/printf.c, and the theorems at them.
use lux_kernel.Base.{
  ℕ, ◌≡◌, refl, true, Option, some, List, [], ◌∷◌, ◌==◌, if◌then◌else◌, get_or, length, ltb, arith,
  min,
}
use lux_kernel.Printf.{
  Emit, Out, Arg, number, kvprintf, vsnprintf, format_loop, directive, count_l, emit_char,
  emit_chars, emit_string, emit_back, emit_unsigned_base, emit_signed, number_arg, string_arg,
  digit_char, digit_loop, digit_buffer, signed, fetch_signed, fetch_unsigned, buffer_emit,
}
use lux_kernel.Printf.Text
use lux_kernel.Printf.Text.{said, say, emit_all}
use lux_kernel.Printf.Buffer
use lux_kernel.Printf.Buffer.{collect}
use lux_kernel.Printf.Digits
use lux_kernel.Printf.Digits.{read_number, digit_value}
use lux_kernel.Printf.Fuel

-- "%d=0x%X" with -7 and 255
abbrev fmt : List ℕ
fmt = 37 ∷ 100 ∷ 61 ∷ 48 ∷ 120 ∷ 37 ∷ 88 ∷ []

abbrev args : List Arg
args = number 4294967289 ∷ number 255 ∷ []

-- "-7=0xFF"
abbrev text : List ℕ
text = 45 ∷ 55 ∷ 61 ∷ 48 ∷ 120 ∷ 70 ∷ 70 ∷ []

prints : kvprintf collect (some fmt) args [] ≡ some (record { context = text; written = 7 })
unfolding kvprintf format_loop directive count_l emit_char emit_chars emit_string emit_back
    emit_unsigned_base emit_signed number_arg string_arg digit_char digit_loop digit_buffer signed
    fetch_signed fetch_unsigned
prints = refl

abbrev five : List ℕ
five = 9 ∷ 9 ∷ 9 ∷ 9 ∷ 9 ∷ 9 ∷ []

-- "-7=0" and a NUL
cuts : vsnprintf (some five) 5 (some fmt) args ≡ some (some (45 ∷ 55 ∷ 61 ∷ 48 ∷ 0 ∷ 9 ∷ []), 7)
unfolding vsnprintf buffer_emit kvprintf format_loop directive count_l emit_char emit_chars
    emit_string emit_back emit_unsigned_base emit_signed number_arg string_arg digit_char digit_loop
    digit_buffer signed fetch_signed fetch_unsigned
cuts = refl

kvprintf-say_example :
    (t : Option (List ℕ)) × ((S : Type 0) (emit : Emit S) (context : S)
      → kvprintf emit (some fmt) args context
        ≡ said emit t (record { context = context; written = 0 }))
kvprintf-say_example = Text.kvprintf-say (some fmt) args

vsnprintf-cut_example :
    (bytes' : List ℕ) × (vsnprintf (some five) 5 (some fmt) args ≡ some (some bytes', 7))
    × (length bytes' ≡ 6)
    × ((i : ℕ)
        → get_or bytes' i 0 ≡ (
            if ltb i (min 7 4)
            then get_or text i 0
            else if i == min 7 4
            then 0
            else get_or five i 0))
vsnprintf-cut_example =
    Buffer.vsnprintf-cut five 5 (some fmt) args (record { context = text; written = 7 })
      (omega arith) (omega arith) prints

read_number-emit_unsigned_base_example :
    (t : List ℕ) × (read_number 16 0 t ≡ 48879)
    × ((S : Type 0) (emit : Emit S) (out : Out S)
        → emit_unsigned_base emit 48879 16 true out ≡ say emit t out)
read_number-emit_unsigned_base_example =
    Digits.read_number-emit_unsigned_base 48879 16 true (omega arith) (omega arith) (omega arith)

kvprintf-format_loop_example :
    kvprintf collect (some fmt) args []
    ≡ format_loop collect 100 fmt args (record { context = []; written = 0 })
kvprintf-format_loop_example = Fuel.kvprintf-format_loop collect fmt args [] 100 (omega arith)
