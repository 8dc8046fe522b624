-- ===== src/Shell/Pipeline.antt =====
-- `parse_pipeline` of src/kernel/shell/shell.c. The line is an array of bytes, and a pointer into it an index;
-- behind its end a byte is read as 0.
use lux_kernel.Base.{
  ℕ, zero, suc, ◌+◌, ◌-◌, not, ◌&&◌, ◌||◌, Option, none, some, List, [], ◌∷◌, ◌++◌, leb, ◌==◌,
  if◌then◌else◌, get_or, set, length,
}
use lux_kernel.Strings.{strlen}

abbrev pub max_pipe_segments : ℕ
max_pipe_segments = 4

-- What is written to the terminal when a line is refused; an empty line is refused without a word.
pub data Refusal : Type 0 where
  no_command : Refusal
  too_many : Refusal
  empty_command : Refusal
  trailing_pipe : Refusal

-- The line as it is left, with `segments`, or why the result is false.
pub data Pipeline : Type 0 where
  parsed : List ℕ → List ℕ → Pipeline
  refused : Refusal → Pipeline

unfoldable pub skip_spaces : ℕ → List ℕ → ℕ → ℕ
skip_spaces zero line cursor = cursor
skip_spaces (suc rounds) line cursor =
    let next = skip_spaces rounds line (cursor + 1) in
    if get_or line cursor 0 == b' ' then next else cursor

unfoldable pub find_pipe : ℕ → List ℕ → ℕ → ℕ
find_pipe zero line cursor = cursor
find_pipe (suc rounds) line cursor =
    let next = find_pipe rounds line (cursor + 1) in
    if not (get_or line cursor 0 == 0) && not (get_or line cursor 0 == b'|') then next else cursor

-- The end of a segment of so many bytes, without the spaces and tabs before it.
unfoldable pub trim_end : ℕ → ℕ → List ℕ → ℕ
trim_end zero start line = start
trim_end (suc len) start line =
    let shorter = trim_end len start line in
    let c = get_or line (start + len) 0 in if c == b' ' || c == 9 then shorter else start + suc len

unfoldable pub finish_pipeline : List ℕ → List ℕ → Pipeline
finish_pipeline line [] = refused no_command
finish_pipeline line (start ∷ segments) = parsed line (start ∷ segments)

unfoldable pub pipeline_loop : ℕ → List ℕ → ℕ → List ℕ → Option Pipeline
pipeline_loop zero segments cursor line = none
pipeline_loop (suc rounds) segments cursor line =
    let start = skip_spaces (length line) line cursor in
    let bar = find_pipe (length line) line start in
    let end = trim_end (bar - start) start line in
    let cut = set line end 0 in
    let longer = segments ++ start ∷ [] in
    let next = pipeline_loop rounds longer (bar + 1) (set cut bar 0) in
    let last = pipeline_loop rounds longer bar cut in
    if get_or line cursor 0 == 0
    then some (finish_pipeline line segments)
    else if get_or line start 0 == 0
    then some (finish_pipeline line segments)
    else if leb max_pipe_segments (length segments)
    then some (refused too_many)
    else if end == start
    then some (refused empty_command)
    else if get_or cut bar 0 == b'|'
    then (if get_or (set cut bar 0) (bar + 1) 0 == 0 then some (refused trailing_pipe) else next)
    else last

-- A round goes on behind a byte, so that there are no more rounds than bytes, and the last.
unfoldable pub parse_pipeline : List ℕ → Option Pipeline
parse_pipeline line = pipeline_loop (strlen line + 1) [] 0 line
