-- ===== src/Printf/Buffer.antt =====
-- `vsnprintf` of src/kernel/lib/printf.c writes the text of `kvprintf`, cut to the buffer's size.
use lux_kernel.Base.{
  ℕ, suc, ◌+◌, ◌-◌, ◌≤◌, ◌<◌, ◌≡◌, refl, sym, ap, ◌∙◌, not, ◌&&◌, ◌||◌, Option, none, some, List,
  [], ◌∷◌, ◌++◌, leb, ltb, ◌==◌, if◌then◌else◌, get_or, set, length, arith, Bool-cases, inl, inr,
  length-set, min, gt→==,
}
use lux_kernel.Printf.{Emit, Out, Arg, BufferCtx, buffer_emit, terminated, kvprintf, vsnprintf}
use mathlib.Core.List.{append-nil, append_assoc}
use lux_kernel.Strings.Copy.{get_or-set}
use lux_kernel.Printf.Text.{emit_all, said, kvprintf-say}

abbrev ctx : List ℕ → ℕ → ℕ → BufferCtx
ctx bytes size pos = record { buffer = some bytes; size = size; pos = pos }

-- The bytes after a text was emitted at `pos`.
unfoldable filled : List ℕ → ℕ → ℕ → List ℕ → List ℕ
filled bytes size pos [] = bytes
filled bytes size pos (c ∷ t) =
    filled (if size == 0 || not (ltb (pos + 1) size) then bytes else set bytes pos c) size (pos + 1)
      t

buffer_emit-ctx :
    (c : ℕ) (bytes : List ℕ) (size pos : ℕ)
    → buffer_emit c (ctx bytes size pos)
      ≡ ctx
          (if size == 0 || not (ltb (pos + 1) size) then bytes else set bytes pos c)
          size
          (pos + 1)
unfolding buffer_emit
buffer_emit-ctx c bytes size pos = elim (Bool-cases (size == 0 || not (ltb (pos + 1) size))) [
  | inl e ↦ rw e
  | inr e ↦ rw e
]

emit_all-filled :
    (t bytes : List ℕ) (size pos : ℕ)
    → emit_all buffer_emit t (ctx bytes size pos)
      ≡ ctx (filled bytes size pos t) size (pos + length t)
unfolding emit_all filled
emit_all-filled [] bytes size pos = ap (λ n. ctx bytes size n) (omega arith)
emit_all-filled (c ∷ t) bytes size pos =
    let next = if size == 0 || not (ltb (pos + 1) size) then bytes else set bytes pos c in
    ap (emit_all buffer_emit t) (buffer_emit-ctx c bytes size pos)
    ∙ emit_all-filled t next size (pos + 1)
    ∙ ap (λ n. ctx (filled next size (pos + 1) t) size n) (omega arith)

length-filled : (t bytes : List ℕ) (size pos : ℕ) → length (filled bytes size pos t) ≡ length bytes
unfolding filled
length-filled [] bytes size pos = refl
length-filled (c ∷ t) bytes size pos =
    length-filled t _ size (pos + 1) ∙ elim (Bool-cases (size == 0 || not (ltb (pos + 1) size))) [
      | inl e ↦ rw e
      | inr e ↦ rw e (length-set bytes pos c)
    ]

get_or-cons_later :
    (c : ℕ) (t : List ℕ) (pos i : ℕ)
    → pos < i
    → get_or (c ∷ t) (i - pos) 0 ≡ get_or t (i - (pos + 1)) 0
get_or-cons_later c t pos i lt =
    let e : i - pos ≡ suc (i - (pos + 1)) = omega arith in ap (λ k. get_or (c ∷ t) k 0) e

get_or-cons_now : (c : ℕ) (t : List ℕ) (pos i : ℕ) → pos ≡ i → get_or (c ∷ t) (i - pos) 0 ≡ c
get_or-cons_now c t pos i same = let e : i - pos ≡ 0 = omega arith in ap (λ k. get_or (c ∷ t) k 0) e

get_or-filled :
    (t bytes : List ℕ) (size pos i : ℕ)
    → size ≤ length bytes
    → get_or (filled bytes size pos t) i 0 ≡ (
        if leb pos i && ltb i (pos + length t) && ltb (i + 1) size
        then get_or t (i - pos) 0
        else get_or bytes i 0)
unfolding filled
get_or-filled [] bytes size pos i fits = ground arith
get_or-filled (c ∷ t) bytes size pos i fits = elim (Bool-cases (ltb pos i)) [
  | inl later ↦
      let tail = get_or-cons_later c t pos i (ground arith) in
      elim (Bool-cases (size == 0 || not (ltb (pos + 1) size))) [
        | inl e ↦ rw e (get_or-filled t bytes size (pos + 1) i fits ∙ ground (arith, tail))
        | inr e ↦
            let step = get_or-set bytes pos i c (ground arith) in
            rw e (
              get_or-filled t (set bytes pos c) size (pos + 1) i
                (omega (arith, fits, length-set bytes pos c))
              ∙ ground (arith, tail, step))
      ]
  | inr before ↦ elim (Bool-cases (size == 0 || not (ltb (pos + 1) size))) [
    | inl e ↦ rw e (get_or-filled t bytes size (pos + 1) i fits ∙ ground arith)
    | inr e ↦
        let step = get_or-set bytes pos i c (ground arith) in
        rw e (
          get_or-filled t (set bytes pos c) size (pos + 1) i
            (omega (arith, fits, length-set bytes pos c))
          ∙ elim (Bool-cases (pos == i)) [
            | inl same ↦
                let head = get_or-cons_now c t pos i (ground arith) in ground (arith, step, head)
            | inr far ↦ ground (arith, step)
          ])
  ]
]

vsnprintf_lem :
    (bytes t : List ℕ) (size : ℕ) (fmt : Option (List ℕ)) (args : List Arg)
    → kvprintf buffer_emit fmt args (ctx bytes size 0)
      ≡ some
          (record { context = emit_all buffer_emit t (ctx bytes size 0); written = 0 + length t })
    → 0 < size
    → vsnprintf (some bytes) size fmt args
      ≡ some (
        some (
            set
              (filled bytes size 0 t)
              (if ltb (0 + length t) (size - 1) then 0 + length t else size - 1)
              0),
        0 + length t,
      )
unfolding vsnprintf
vsnprintf_lem bytes t size fmt args run pos =
    ap (terminated size) run
    ∙ ap (λ c. terminated size (some (record { context = c; written = 0 + length t })))
        (emit_all-filled t bytes size 0)
    ∙ rw (gt→== size 0 pos)

-- A callback that collects the characters.
abbrev pub collect : Emit (List ℕ)
collect c cs = cs ++ c ∷ []

emit_all-collect : (t s : List ℕ) → emit_all collect t s ≡ s ++ t
unfolding emit_all
emit_all-collect [] s = sym (append-nil s)
emit_all-collect (c ∷ t) s = emit_all-collect t (s ++ c ∷ []) ∙ append_assoc s (c ∷ []) t

text-said :
    (text : Option (List ℕ)) (out : Out (List ℕ))
    → said collect text (record { context = []; written = 0 }) ≡ some out
    → {S : Type 0} (emit : Emit S) (s : S)
    → said emit text (record { context = s; written = 0 })
      ≡ some (record { context = emit_all emit out.context s; written = 0 + length out.context })
text-said none out e emit s = cc
text-said (some t) out e emit s =
    let same : emit_all collect t [] ≡ out.context = ap context_of e in
    let t_eq : t ≡ out.context = sym (emit_all-collect t []) ∙ same in
    ap (λ x. some (record { context = emit_all emit x s; written = 0 + length x })) t_eq
  where
    context_of : Option (Out (List ℕ)) → List ℕ
    context_of none = []
    context_of (some o) = o.context

-- The text that a run collects is the one of every run.
text-collect :
    (fmt : Option (List ℕ)) (args : List Arg) (out : Out (List ℕ))
    → kvprintf collect fmt args [] ≡ some out
    → {S : Type 0} (emit : Emit S) (s : S)
    → kvprintf emit fmt args s
      ≡ some (record { context = emit_all emit out.context s; written = 0 + length out.context })
text-collect fmt args out run emit s =
    let (text, every) = kvprintf-say fmt args in
    every _ emit s ∙ text-said text out (sym (every (List ℕ) collect []) ∙ run) emit s

-- `vsnprintf` into a buffer of `size` bytes: it returns the length of the text that `kvprintf` emits for
-- the same format and arguments; the buffer holds the text's first bytes, at most `size` less one, then a
-- NUL, and is as it was behind that.
pub vsnprintf-cut :
    (bytes : List ℕ) (size : ℕ) (fmt : Option (List ℕ)) (args : List Arg) (out : Out (List ℕ))
    → 0 < size
    → size ≤ length bytes
    → kvprintf collect fmt args [] ≡ some out
    → let text = out.context in
      let n = min (length text) (size - 1) in
      (bytes' : List ℕ) × (vsnprintf (some bytes) size fmt args ≡ some (some bytes', length text))
      × (length bytes' ≡ length bytes)
      × ((i : ℕ)
          → get_or bytes' i 0
            ≡ (if ltb i n then get_or text i 0 else if i == n then 0 else get_or bytes i 0))
vsnprintf-cut bytes size fmt args out pos fits run =
    let text = out.context in
    let index = if ltb (0 + length text) (size - 1) then 0 + length text else size - 1 in
    let body = filled bytes size 0 text in
    (
      set body index 0,
      vsnprintf_lem bytes text size fmt args
            (text-collect fmt args out run buffer_emit (ctx bytes size 0)) pos
          ∙ ap (λ n. some (some (set body index 0), n)) (omega arith),
      length-set body index 0 ∙ length-filled text bytes size 0,
      λ i.
          get_or-set body index i 0 (ground (arith, fits, pos, length-filled text bytes size 0))
          ∙ ground (arith, get_or-filled text bytes size 0 i fits),
    )
