-- ===== src/Shell/Split.antt =====
-- What `parse_pipeline` of src/kernel/shell/shell.c makes of a line of commands.
use lux_kernel.Base.{
  ℕ, suc, ◌+◌, ◌-◌, ◌≤◌, ◌<◌, ◌≡◌, sym, ◌∙◌, ap, true, false, Option, none, some, List, [], ◌∷◌,
  ◌++◌, ◌==◌, if◌then◌else◌, get_or, set, length, length-set, length-append, arith, subst,
}
use lux_kernel.Strings.{strlen}
use lux_kernel.Strings.Copy.{get_or-set}
use lux_kernel.Bytes.{At, At-left, At-right, append-snoc}
use lux_kernel.Shell.Pipeline.{Pipeline, parsed, refused, pipeline_loop, parse_pipeline}
use lux_kernel.Shell.Segments.{
  IsCommand, Stands, is_plain, skip_spaces-stay, skip_spaces-one, round-ends, round-goes,
}

-- What follows a command: the others, each behind a space, a pipe and a space, and the NUL.
unfoldable pub piped : List (List ℕ) → List ℕ
piped [] = 0 ∷ []
piped (d ∷ ds) = b' ' ∷ b'|' ∷ b' ' ∷ (d ++ piped ds)

abbrev pub AllCommands : List (List ℕ) → Type 0
AllCommands [] = Unit
AllCommands (c ∷ cs) = IsCommand c × AllCommands cs

-- A string, up to its NUL.
abbrev pub StringAt : ℕ → List ℕ → List ℕ → Type 0
StringAt start c line = At start c line × (get_or line (start + length c) 0 ≡ 0)

-- A segment for each command.
abbrev pub Each : List ℕ → List (List ℕ) → List ℕ → Type 0
Each [] [] line = Unit
Each [] (c ∷ cs) line = ⊥
Each (s ∷ segments) [] line = ⊥
Each (s ∷ segments) (c ∷ cs) line = StringAt s c line × Each segments cs line

abbrev pub Splits : List (List ℕ) → Option Pipeline → Type 0
Splits cs none = ⊥
Splits cs (some (refused why)) = ⊥
Splits cs (some (parsed line segments)) = Each segments cs line

At-set :
    (k j : ℕ) (text line : List ℕ)
    → j < length line
    → j < k
    → At k text line
    → At k text (set line j 0)
At-set k j text line fits before at i lt = ground (arith, get_or-set line j (k + i) 0 fits, at i lt)

piped-nonempty : (ds : List (List ℕ)) → 0 < length (piped ds)
unfolding piped
piped-nonempty [] = omega arith
piped-nonempty (d ∷ ds) = omega arith

-- The segments that start from here, and what stays before them.
record Continues (segments : List ℕ) (start : ℕ) (cs : List (List ℕ)) (line : List ℕ)
    (r : Option Pipeline) : Type 0 where
  line_is : List ℕ
  starts : List ℕ
  result : r ≡ some (parsed line_is (segments ++ starts))
  each : Each starts cs line_is
  before : (i : ℕ) → i < start → get_or line_is i 0 ≡ get_or line i 0

-- The line behind a round that goes on at the next command.
abbrev after_pipe : List ℕ → ℕ → List ℕ
after_pipe line end = set (set line end 0) (end + 1) 0

get_or-after_pipe :
    (line : List ℕ) (end i : ℕ)
    → end + 1 < length line
    → get_or (after_pipe line end) i 0
      ≡ (if end + 1 == i then 0 else if end == i then 0 else get_or line i 0)
get_or-after_pipe line end i fits = ground (
  arith,
  get_or-set (set line end 0) (end + 1) i 0 (omega (arith, length-set line end 0, fits)),
  get_or-set line end i 0 (omega (arith, fits)),
)

length-after_pipe : (line : List ℕ) (end : ℕ) → length (after_pipe line end) ≡ length line
length-after_pipe line end = length-set (set line end 0) (end + 1) 0 ∙ length-set line end 0

-- The next command stands behind the space that follows the pipe.
next-Stands :
    (d text line : List ℕ) (end : ℕ)
    → IsCommand d
    → At (end + 3) (d ++ text) line
    → end + 3 + length d < length line
    → get_or line (end + 2) 0 ≡ b' '
    → Stands d (after_pipe line end) (end + 2) (end + 3)
next-Stands d text line end v at fits e =
    let line' = after_pipe line end in
    let read = λ (i : ℕ). get_or-after_pipe line end i (omega (arith, fits)) in
    let size = length-after_pipe line end in
    let there : At (end + 3) d line' =
      λ i lt. ground (arith, read (end + 3 + i), At-left (end + 3) d text line at i lt) in
    let space : get_or line' (end + 2) 0 ≡ b' ' = ground (arith, read (end + 2), e) in
    let first : get_or line' (end + 2 + 1) 0 ≡ get_or d 0 0 =
      ap (λ j. get_or line' j 0) {x = end + 2 + 1} {y = end + 3 + 0} (omega arith)
      ∙ there 0 v.some_bytes in
    record {
      command = v;
      there = there;
      fits = omega (arith, size, fits);
      begins =
          skip_spaces-one (length line') line' (end + 2) (omega (arith, size, fits)) space
            (ap (λ b. b == b' ') first ∙ v.first)
          ∙ omega arith;
      goes_on = ap (λ b. b == 0) space;
    }

loop-Continues :
    (ds : List (List ℕ)) (c : List ℕ) (rounds : ℕ) (segments line : List ℕ) (cursor start : ℕ)
    → Stands c line cursor start
    → AllCommands ds
    → At start (c ++ piped ds) line
    → start + length (c ++ piped ds) ≤ length line
    → length segments + length (c ∷ ds) ≤ 4
    → length (c ∷ ds) < rounds
    → Continues segments start (c ∷ ds) line (pipeline_loop rounds segments cursor line)
unfolding piped
loop-Continues [] c (suc (suc rounds)) segments line cursor start s cs at fits room enough =
    let end : get_or line (start + length c) 0 ≡ 0 =
      ap (λ j. get_or line j 0) {x = start + length c} {y = start + length c + 0} (omega arith)
      ∙ At-right start c (0 ∷ []) line at 0 (omega arith) in
    let read = λ (i : ℕ). get_or-set line (start + length c) i 0 s.fits in
    record {
      line_is = set line (start + length c) 0;
      starts = start ∷ [];
      result =
          round-ends rounds segments c line cursor start s (omega (arith, room)) (ap is_plain end);
      each = (
        (
          λ i lt. ground (arith, read (start + i), s.there i lt),
          ground (arith, read (start + length c)),
        ),
        tt,
      );
      before = λ i lt. ground (arith, read i);
    }
loop-Continues (d ∷ ds) c (suc rounds) segments line cursor start s cs at fits room enough =
    let end = start + length c in
    let after = At-right start c (piped (d ∷ ds)) line at in
    let sizes = length-append c (piped (d ∷ ds)) in
    let sizes' = length-append d (piped ds) in
    let fits' : end + 3 + length (d ++ piped ds) ≤ length line = omega (arith, fits, sizes) in
    let ends = piped-nonempty ds in
    let read = λ (i : ℕ). get_or-after_pipe line end i (omega (arith, fits')) in
    let behind = λ (i : ℕ) (lt : i < length (d ++ piped ds)).
      ap (λ j. get_or line j 0) {x = end + 3 + i} {y = end + suc (suc (suc i))} (omega arith)
      ∙ after (suc (suc (suc i))) (omega (arith, lt)) in
    let space : get_or line (end + 2) 0 ≡ b' ' = after 2 (omega arith) in
    let start_read : get_or line end 0 ≡ b' ' =
      ap (λ j. get_or line j 0) {x = end} {y = end + 0} (omega arith) ∙ after 0 (omega arith) in
    let r =
      loop-Continues ds d rounds (segments ++ start ∷ []) (after_pipe line end) (end + 2) (end + 3)
        (next-Stands d (piped ds) line end cs.0 behind (omega (arith, fits', sizes', ends)) space)
        cs.1 (λ i lt. ground (arith, read (end + 3 + i), behind i lt))
        (omega (arith, fits', length-after_pipe line end))
        (omega (arith, room, length-append segments (start ∷ []))) (omega (arith, enough)) in
    record {
      line_is = r.line_is;
      starts = start ∷ r.starts;
      result =
          round-goes rounds segments c line cursor start s (omega (arith, room))
            (omega (arith, fits', sizes', ends)) start_read (after 1 (omega arith)) space
          ∙ r.result
          ∙ ap (λ ss. some (parsed r.line_is ss)) (append-snoc segments start r.starts);
      each = (
        (
          (λ i lt.
              r.before (start + i) (omega (arith, lt))
              ∙ ground (arith, read (start + i), lt, s.there i lt)),
          r.before end (omega arith) ∙ ground (arith, read end),
        ),
        r.each,
      );
      before = λ i lt. r.before i (omega (arith, lt)) ∙ ground (arith, read i, lt);
    }
loop-Continues ds c rounds segments line cursor start s cs at fits room enough =
    absurd (omega arith)

strlen-append :
    (c text : List ℕ)
    → ((i : ℕ) → i < length c → is_plain (get_or c i 0) ≡ true)
    → strlen (c ++ text) ≡ length c + strlen text
unfolding strlen
strlen-append [] text plain = omega arith
strlen-append (x ∷ xs) text plain =
    let nonzero : (x == 0) ≡ false = ground (arith, plain 0 (omega arith)) in
    rw nonzero (omega (arith, strlen-append xs text (λ i lt. plain (suc i) (omega arith))))

strlen-piped : (ds : List (List ℕ)) → AllCommands ds → length ds ≤ strlen (piped ds)
unfolding strlen piped
strlen-piped [] cs = omega arith
strlen-piped (d ∷ ds) cs =
    omega (arith, strlen-append d (piped ds) cs.0.plain, strlen-piped ds cs.1)

whole : (line : List ℕ) → At 0 line line
whole line i lt = ap (λ j. get_or line j 0) (omega arith)

Continues-Splits :
    (cs : List (List ℕ)) (line : List ℕ) (r : Option Pipeline)
    → Continues [] 0 cs line r
    → Splits cs r
Continues-Splits cs line r h = subst (Splits cs) (sym h.result) h.each

-- The command at the start of the line.
first-Stands : (c text : List ℕ) → IsCommand c → 0 < length text → Stands c (c ++ text) 0 0
first-Stands c text v more =
    let line = c ++ text in
    let there = At-left 0 c text line (whole line) in
    let first : get_or line 0 0 ≡ get_or c 0 0 = there 0 v.some_bytes in
    record {
      command = v;
      there = there;
      fits = omega (arith, length-append c text, more);
      begins = skip_spaces-stay (length line) line 0 (ap (λ b. b == b' ') first ∙ v.first);
      goes_on = ap (λ b. b == 0) first ∙ ground (arith, v.plain 0 v.some_bytes);
    }

-- A line of one to four commands, with a space, a pipe and a space between two, and a NUL: the parser ends
-- without running out of rounds, takes the line, and gives as many segments as commands; each segment is
-- the string of its command in the line as it is left. A command has one byte at least and no pipe,
-- begins with no space and ends with no space or tab.
pub parse_pipeline-Splits :
    (c : List ℕ) (ds : List (List ℕ))
    → IsCommand c
    → AllCommands ds
    → length ds ≤ 3
    → Splits (c ∷ ds) (parse_pipeline (c ++ piped ds))
unfolding parse_pipeline
parse_pipeline-Splits c ds v vs few =
    let line = c ++ piped ds in
    Continues-Splits (c ∷ ds) line (parse_pipeline line) (
      loop-Continues ds c (strlen line + 1) [] line 0 0
        (first-Stands c (piped ds) v (piped-nonempty ds)) vs (whole line) (omega arith)
        (omega (arith, few))
        (omega (arith, strlen-append c (piped ds) v.plain, strlen-piped ds vs, v.some_bytes)))

-- A command with a pipe right behind it, no space between: whatever follows the pipe, the parser takes the
-- line, with the command as its only segment, and the pipe overwritten by the NUL.
pub parse_pipeline-drops :
    (c rest : List ℕ)
    → IsCommand c
    → parse_pipeline (c ++ b'|' ∷ rest)
      ≡ some (parsed (set (c ++ b'|' ∷ rest) (length c) 0) (0 ∷ []))
unfolding parse_pipeline
parse_pipeline-drops c rest v =
    let line = c ++ b'|' ∷ rest in
    let rounds : strlen line + 1 ≡ suc (suc (strlen line - 1)) =
      omega (arith, strlen-append c (b'|' ∷ rest) v.plain, v.some_bytes) in
    rw rounds (
      round-ends (strlen line - 1) [] c line 0 0 (first-Stands c (b'|' ∷ rest) v (omega arith))
        (omega arith)
        (ap is_plain (
          ap (λ j. get_or line j 0) {x = 0 + length c} {y = 0 + length c + 0} (omega arith)
          ∙ At-right 0 c (b'|' ∷ rest) line (whole line) 0 (omega arith)))
      ∙ ap (λ n. some (parsed (set line n 0) (0 ∷ []))) (omega arith))
