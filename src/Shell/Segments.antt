-- ===== src/Shell/Segments.antt =====
-- The rounds of `parse_pipeline` of src/kernel/shell/shell.c.
use lux_kernel.Base.{
  ℕ, zero, suc, ◌+◌, ◌-◌, ◌<◌, ◌≡◌, refl, ◌∙◌, ap, Bool, true, false, not, ◌&&◌, ◌||◌, some, List,
  [], ◌∷◌, ◌++◌, leb, ltb, ◌==◌, if◌then◌else◌, get_or, set, length, length-set, arith, Bool-cases,
  inl, inr,
}
use lux_kernel.Strings.Copy.{get_or-set}
use lux_kernel.Bytes.{At}
use lux_kernel.Shell.Pipeline.{
  parsed, refused, skip_spaces, find_pipe, trim_end, finish_pipeline, pipeline_loop, trailing_pipe,
}

-- Neither the end of a string nor a pipe.
abbrev pub is_plain : ℕ → Bool
is_plain c = not (c == 0) && not (c == b'|')

abbrev pub is_blank : ℕ → Bool
is_blank c = c == b' ' || c == 9

-- A command without a pipe, that begins with no space, and ends with no space or tab.
pub record IsCommand (c : List ℕ) : Type 0 where
  pub some_bytes : 0 < length c
  pub plain : (i : ℕ) → i < length c → is_plain (get_or c i 0) ≡ true
  pub first : (get_or c 0 0 == b' ') ≡ false
  pub last : is_blank (get_or c (length c - 1) 0) ≡ false

pub skip_spaces-stay :
    (rounds : ℕ) (line : List ℕ) (cursor : ℕ)
    → (get_or line cursor 0 == b' ') ≡ false
    → skip_spaces rounds line cursor ≡ cursor
unfolding skip_spaces
skip_spaces-stay zero line cursor e = refl
skip_spaces-stay (suc rounds) line cursor e = rw e refl

pub skip_spaces-one :
    (rounds : ℕ) (line : List ℕ) (cursor : ℕ)
    → 0 < rounds
    → get_or line cursor 0 ≡ b' '
    → (get_or line (cursor + 1) 0 == b' ') ≡ false
    → skip_spaces rounds line cursor ≡ cursor + 1
unfolding skip_spaces
skip_spaces-one zero line cursor lt e f = elim lt [ ]
skip_spaces-one (suc rounds) line cursor lt e f = rw e (skip_spaces-stay rounds line (cursor + 1) f)

find_pipe-at :
    (rounds n : ℕ) (line : List ℕ) (start : ℕ)
    → n < rounds
    → ((i : ℕ) → i < n → is_plain (get_or line (start + i) 0) ≡ true)
    → is_plain (get_or line (start + n) 0) ≡ false
    → find_pipe rounds line start ≡ start + n
unfolding find_pipe
find_pipe-at zero n line start lt h e = elim lt [ ]
find_pipe-at (suc rounds) zero line start lt h e = rw (here ∙ e) (omega arith)
  where
    here : is_plain (get_or line start 0) ≡ is_plain (get_or line (start + 0) 0)
    here = ap (λ j. is_plain (get_or line j 0)) (omega arith)
find_pipe-at (suc rounds) (suc n) line start lt h e = rw (here ∙ h 0 (omega arith)) (
    find_pipe-at rounds n line (start + 1) (omega arith)
      (λ i lt'. ap is_plain (shift i) ∙ h (suc i) (omega arith)) (ap is_plain (shift n) ∙ e)
    ∙ omega arith)
  where
    here : is_plain (get_or line start 0) ≡ is_plain (get_or line (start + 0) 0)
    here = ap (λ j. is_plain (get_or line j 0)) (omega arith)

    shift : (i : ℕ) → get_or line (start + 1 + i) 0 ≡ get_or line (start + suc i) 0
    shift i = ap (λ j. get_or line j 0) (omega arith)

trim_end-blank :
    (len start : ℕ) (line : List ℕ)
    → is_blank (get_or line (start + len) 0) ≡ true
    → trim_end (suc len) start line ≡ trim_end len start line
unfolding trim_end
trim_end-blank len start line e = rw e refl

-- The end of a command that stands in the line.
trim_end-At :
    (c line : List ℕ) (start : ℕ)
    → IsCommand c
    → At start c line
    → trim_end (length c) start line ≡ start + length c
unfolding trim_end
trim_end-At [] line start v at = elim v.some_bytes [ ]
trim_end-At (x ∷ xs) line start v at =
    rw
      (ap is_blank (
          at (length xs) (omega arith)
          ∙ ap (λ j. get_or (x ∷ xs) j 0) {x = length xs} {y = suc (length xs) - 1} (omega arith))
        ∙ v.last)
      refl

find_pipe-At :
    (rounds : ℕ) (c line : List ℕ) (start : ℕ)
    → IsCommand c
    → At start c line
    → length c < rounds
    → is_plain (get_or line (start + length c) 0) ≡ false
    → find_pipe rounds line start ≡ start + length c
find_pipe-At rounds c line start v at lt e =
    find_pipe-at rounds (length c) line start lt (λ i lt'. ap is_plain (at i lt') ∙ v.plain i lt') e

-- A command in the line, from where the spaces have been skipped.
pub record Stands (c line : List ℕ) (cursor start : ℕ) : Type 0 where
  pub command : IsCommand c
  pub there : At start c line
  pub fits : start + length c < length line
  pub begins : skip_spaces (length line) line cursor ≡ start
  pub goes_on : (get_or line cursor 0 == 0) ≡ false

module _ (rounds : ℕ) (segments : List ℕ) (c line : List ℕ) (cursor start : ℕ)
    (s : Stands c line cursor start) (room : length segments < 4) where
  -- A round takes the command, whose end is overwritten before the byte behind it is looked at.
  round-takes :
      (bar : ℕ)
      → find_pipe (length line) line start ≡ bar
      → trim_end (bar - start) start line ≡ start + length c
      → pipeline_loop (suc rounds) segments cursor line ≡ (
          let cut = set line (start + length c) 0 in
          if get_or cut bar 0 == b'|'
          then (if get_or (set cut bar 0) (bar + 1) 0 == 0
              then some (refused trailing_pipe)
              else pipeline_loop rounds (segments ++ start ∷ []) (bar + 1) (set cut bar 0))
          else pipeline_loop rounds (segments ++ start ∷ []) bar cut)
  unfolding pipeline_loop
  round-takes bar found trimmed =
      let v = s.command in
      let first : (get_or line start 0 == 0) ≡ false = ground (
        arith,
        ap (λ j. get_or line j 0) {x = start} {y = start + 0} (omega arith),
        s.there 0 v.some_bytes,
        v.plain 0 v.some_bytes,
      ) in
      let fewer : leb 4 (length segments) ≡ false = ground (arith, room) in
      let longer : (start + length c == start) ≡ false = ground (arith, v.some_bytes) in
      rw (s.goes_on, s.begins, found, trimmed, first, fewer, longer) refl

finish-snoc :
    (line segments : List ℕ) (start : ℕ)
    → finish_pipeline line (segments ++ start ∷ []) ≡ parsed line (segments ++ start ∷ [])
unfolding finish_pipeline
finish-snoc line [] start = refl
finish-snoc line (s ∷ segments) start = refl

-- The loop at the end of the line.
loop-end :
    (rounds : ℕ) (segments line : List ℕ) (cursor : ℕ)
    → get_or line cursor 0 ≡ 0
    → pipeline_loop (suc rounds) segments cursor line ≡ some (finish_pipeline line segments)
unfolding pipeline_loop
loop-end rounds segments line cursor e = rw e refl

module _ (rounds : ℕ) (segments : List ℕ) (c line : List ℕ) (cursor start : ℕ)
    (s : Stands c line cursor start) (room : length segments < 4) where
  -- With a pipe, or the end of the line, right behind the command, it is the last one that is taken.
  pub round-ends :
      is_plain (get_or line (start + length c) 0) ≡ false
      → pipeline_loop (suc (suc rounds)) segments cursor line
        ≡ some (parsed (set line (start + length c) 0) (segments ++ start ∷ []))
  round-ends e =
      let bar = start + length c in
      let cut = set line bar 0 in
      let v = s.command in
      let found = find_pipe-At (length line) c line start v s.there (omega (arith, s.fits)) e in
      let trimmed =
        ap (λ n. trim_end n start line) {x = bar - start} {y = length c} (omega arith)
        ∙ trim_end-At c line start v s.there in
      let gone : get_or cut bar 0 ≡ 0 = ground (arith, get_or-set line bar bar 0 s.fits) in
      round-takes (suc rounds) segments c line cursor start s room bar found trimmed
      ∙ rw gone (
          loop-end rounds (segments ++ start ∷ []) cut bar gone
          ∙ ap some (finish-snoc cut segments start))

  space_too :
      (i : ℕ)
      → i < suc (length c)
      → get_or line (start + length c) 0 ≡ b' '
      → is_plain (get_or line (start + i) 0) ≡ true
  space_too i lt e = elim (Bool-cases (ltb i (length c))) [
    | inl f ↦
        let before : i < length c = ground (arith, f) in
        ap is_plain (s.there i before) ∙ s.command.plain i before
    | inr f ↦
        ap (λ j. is_plain (get_or line (start + j) 0)) {x = i} {y = length c}
          (ground (arith, f, lt))
        ∙ ap is_plain e
  ]

  -- With a space, a pipe and a space behind the command, the next one begins behind these.
  pub round-goes :
      start + length c + 2 < length line
      → get_or line (start + length c) 0 ≡ b' '
      → get_or line (start + length c + 1) 0 ≡ b'|'
      → get_or line (start + length c + 2) 0 ≡ b' '
      → pipeline_loop (suc rounds) segments cursor line
        ≡ pipeline_loop rounds
            (segments ++ start ∷ [])
            (start + length c + 2)
            (set (set line (start + length c) 0) (start + length c + 1) 0)
  round-goes fits e f g =
      let end = start + length c in
      let cut = set line end 0 in
      let v = s.command in
      let found : find_pipe (length line) line start ≡ end + 1 =
        find_pipe-at (length line) (suc (length c)) line start (omega (arith, fits))
          (λ i lt. space_too i lt e)
          (ap (λ j. is_plain (get_or line j 0)) {x = start + suc (length c)} {y = end + 1}
              (omega arith)
            ∙ ap is_plain f)
        ∙ omega arith in
      let trimmed : trim_end (end + 1 - start) start line ≡ end =
        ap (λ n. trim_end n start line) {x = end + 1 - start} {y = suc (length c)} (omega arith)
        ∙ trim_end-blank (length c) start line (ap is_blank e)
        ∙ trim_end-At c line start v s.there in
      let at = λ (i : ℕ). get_or-set line end i 0 (omega (arith, fits)) in
      let bar : get_or cut (end + 1) 0 ≡ b'|' = ground (arith, at (end + 1), f) in
      let more : (get_or (set cut (end + 1) 0) (end + 1 + 1) 0 == 0) ≡ false = ground (
        arith,
        get_or-set cut (end + 1) (end + 1 + 1) 0 (omega (arith, length-set line end 0, fits)),
        at (end + 1 + 1),
        ap (λ j. get_or line j 0) {x = end + 1 + 1} {y = end + 2} (omega arith),
        g,
      ) in
      round-takes rounds segments c line cursor start s room (end + 1) found trimmed
      ∙ rw (bar, more)
          (ap (λ j. pipeline_loop rounds (segments ++ start ∷ []) j (set cut (end + 1) 0))
            {x = end + 1 + 1} {y = end + 2} (omega arith))
