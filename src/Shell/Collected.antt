-- ===== src/Shell/Collected.antt =====
-- The pipe buffer of src/kernel/shell/shell.c collects the output of a command.
use lux_kernel.Base.{
  ℕ, ◌+◌, ◌-◌, ◌≤◌, ◌<◌, ◌≡◌, refl, sym, ◌∙◌, ap, Bool, true, List, [], ◌∷◌, ◌++◌, ltb, ◌==◌,
  get_or, take, length, length-set, length-append, arith, Bool-cases, inl, inr, min,
}
use lux_kernel.Strings.{memcpy}
use lux_kernel.Strings.Copy.{get_or-set, get_or-memcpy, length-memcpy}
use lux_kernel.Bytes.{take-bytes, take-at, take-all, length-take_le, get_or-append}
use lux_kernel.Shell.Pipe.{PipeBuffer, pipe_buffer_init, pipe_buffer_writer, append_bytes}

-- The writes of a command, one after another.
unfoldable pub write_all : List (List ℕ) → PipeBuffer → PipeBuffer
write_all [] b = b
write_all (w ∷ ws) b = write_all ws (pipe_buffer_writer w (length w) b)

unfoldable pub joined : List ℕ → List (List ℕ) → List ℕ
joined text [] = text
joined text (w ∷ ws) = joined (text ++ w) ws

record Collects (text : List ℕ) (b : PipeBuffer) : Type 0 where
  size : length b.bytes ≡ 1024
  length_is : b.length ≡ min 1023 (length text)
  lost : b.overflowed ≡ ltb 1023 (length text)
  bytes : (i : ℕ) → i < b.length → get_or b.bytes i 0 ≡ get_or text i 0
  ends : get_or b.bytes b.length 0 ≡ 0

appended-Collects :
    (text w : List ℕ) (len : ℕ) (b : PipeBuffer)
    → Collects text b
    → length text ≤ 1023
    → len ≤ length w
    → b.length + len ≡ min 1023 (length text + length w)
    → (over : Bool) → over ≡ ltb 1023 (length text + length w)
    → Collects (text ++ w) (append_bytes w len (record b { overflowed = over }))
unfolding append_bytes
appended-Collects text w len b c small le same over is_over =
    let copy = memcpy b.bytes b.length w 0 len in
    let copy_size = length-memcpy b.bytes b.length w 0 len in
    let both = length-append text w in
    let room : b.length + len ≤ 1023 = omega (arith, same) in
    record {
      size = length-set copy (b.length + len) 0 ∙ copy_size ∙ c.size;
      length_is = same ∙ ap (min 1023) (sym both);
      lost = is_over ∙ ap (ltb 1023) (sym both);
      bytes = λ i lt. ground (
        arith,
        get_or-set copy (b.length + len) i 0 (omega (arith, copy_size, c.size, room)),
        get_or-memcpy b.bytes b.length w 0 len i (omega (arith, c.size, room)),
        get_or-append text w i,
        c.bytes i,
        c.length_is,
        ap (λ j. get_or w j 0) {x = 0 + (i - b.length)} {y = i - length text}
            (omega (arith, c.length_is, small)),
      );
      ends = ground (
        arith,
        get_or-set copy (b.length + len) (b.length + len) 0
            (omega (arith, copy_size, c.size, room)),
      );
    }

full-Collects :
    (text w : List ℕ) (b : PipeBuffer)
    → Collects text b
    → 1023 ≤ length text
    → 0 < length w
    → Collects (text ++ w) (record b { overflowed = true })
full-Collects text w b c full some_bytes = record {
  size = c.size;
  length_is = omega (arith, c.length_is, length-append text w);
  lost = ground (arith, length-append text w);
  bytes = λ i lt. c.bytes i lt ∙ ground (arith, get_or-append text w i, c.length_is);
  ends = c.ends;
}

nothing-Collects :
    (text w : List ℕ) (b : PipeBuffer) → Collects text b → length w ≡ 0 → Collects (text ++ w) b
nothing-Collects text w b c none_new = record {
  size = c.size;
  length_is = omega (arith, c.length_is, length-append text w);
  lost = c.lost ∙ ap (ltb 1023) (omega (arith, length-append text w));
  bytes = λ i lt. c.bytes i lt ∙ ground (arith, get_or-append text w i, c.length_is);
  ends = c.ends;
}

writer-Collects :
    (text w : List ℕ) (b : PipeBuffer)
    → Collects text b
    → Collects (text ++ w) (pipe_buffer_writer w (length w) b)
unfolding pipe_buffer_writer
writer-Collects text w b c = elim (Bool-cases (length w == 0)) [
  | inl e ↦ rw e (nothing-Collects text w b c (ground (arith, e)))
  | inr e ↦ rw e (elim (Bool-cases (1024 - 1 - b.length == 0)) [
    | inl f ↦ rw f (full-Collects text w b c (ground (arith, c.length_is)) (ground (arith, e)))
    | inr f ↦ rw f (elim (Bool-cases (ltb (1024 - 1 - b.length) (length w))) [
      | inl g ↦ rw g (
          appended-Collects text w (1024 - 1 - b.length) b c (ground (arith, c.length_is))
            (ground arith) (ground (arith, c.length_is)) true (ground (arith, c.length_is)))
      | inr g ↦ rw g (
          appended-Collects text w (length w) b c (ground (arith, c.length_is)) (omega arith)
            (ground (arith, c.length_is, f, g)) b.overflowed
            (c.lost ∙ ground (arith, c.length_is, f, g)))
    ])
  ])
]

write_all-Collects :
    (ws : List (List ℕ)) (text : List ℕ) (b : PipeBuffer)
    → Collects text b
    → Collects (joined text ws) (write_all ws b)
unfolding write_all joined
write_all-Collects [] text b c = c
write_all-Collects (w ∷ ws) text b c =
    write_all-Collects ws (text ++ w) (pipe_buffer_writer w (length w) b)
      (writer-Collects text w b c)

fresh-Collects : (b : PipeBuffer) → length b.bytes ≡ 1024 → Collects [] (pipe_buffer_init b)
unfolding pipe_buffer_init
fresh-Collects b size = record {
  size = length-set b.bytes 0 0 ∙ size;
  length_is = refl;
  lost = refl;
  bytes = λ i lt. elim lt [ ];
  ends = ground (arith, get_or-set b.bytes 0 0 0 (omega (arith, size)));
}

Collects-take :
    (text : List ℕ) (b : PipeBuffer) → Collects text b → take b.length b.bytes ≡ take 1023 text
Collects-take text b c = elim (Bool-cases (ltb (length text) 1023)) [
  | inl e ↦
      ap (λ n. take n b.bytes) (ground (arith, c.length_is, e))
      ∙ take-bytes text b.bytes (ground (arith, c.size, e))
          (λ i lt. c.bytes i (ground (arith, c.length_is, e, lt)))
      ∙ sym (take-all 1023 text (ground (arith, e)))
  | inr e ↦
      let long : 1023 ≤ length text = ground (arith, e) in
      let kept = length-take_le 1023 text long in
      ap (λ n. take n b.bytes) (omega (arith, c.length_is, kept, long))
      ∙ take-bytes (take 1023 text) b.bytes (omega (arith, kept, c.size)) (λ i lt.
        c.bytes i (omega (arith, c.length_is, kept, long))
        ∙ sym (take-at 1023 i text (omega (arith, kept))))
]

-- After any writes to a fresh buffer of 1,024 bytes, it holds the first 1,023 bytes of all that was
-- written, in order, with a NUL behind them; its length is the number of these; and it has overflowed
-- exactly if more than 1,023 bytes were written.
pub write_all-collects :
    (ws : List (List ℕ)) (b : PipeBuffer)
    → length b.bytes ≡ 1024
    → let b' = write_all ws (pipe_buffer_init b) in
      (take b'.length b'.bytes ≡ take 1023 (joined [] ws))
      × (b'.length ≡ min 1023 (length (joined [] ws)))
      × (b'.overflowed ≡ ltb 1023 (length (joined [] ws)))
      × (get_or b'.bytes b'.length 0 ≡ 0)
write_all-collects ws b size =
    let c = write_all-Collects ws [] (pipe_buffer_init b) (fresh-Collects b size) in
    (
      Collects-take (joined [] ws) (write_all ws (pipe_buffer_init b)) c,
      c.length_is,
      c.lost,
      c.ends,
    )
