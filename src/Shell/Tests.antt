-- ===== src/Shell/Tests.antt =====
-- Runs of src/kernel/shell/shell.c, and the theorems at them.
use lux_kernel.Base.{
  ℕ, zero, suc, ◌<◌, ◌++◌, ◌≡◌, refl, List, [], ◌∷◌, some, take, replicate, arith, length, get_or,
  set, min, ltb, true, false, ◌==◌,
}
use lux_kernel.Strings.{strlen, memcpy}
use lux_kernel.Tty.Draw.{Vga}
use lux_kernel.Tty.{Tty, blank}
use lux_kernel.Shell.Text.{shell_strnlen, shell_normalize_path, normalize_loop}
use lux_kernel.Shell.History.{history_get}
use lux_kernel.Shell.Pipe.{PipeBuffer, pipe_buffer_init}
use lux_kernel.Shell.Complete.{Line, handle_tab_completion}
use lux_kernel.Shell.Editor.{read_line}
use lux_kernel.Shell.Edits.{insert_at, delete_at}
use lux_kernel.Shell.Keys.{type_key, type_keys}
use lux_kernel.Shell.Recall
use lux_kernel.Shell.Recall.{Recalls, remembered, is_noted, add_all, no_history}
use lux_kernel.Shell.Collected
use lux_kernel.Shell.Collected.{write_all, joined}
use lux_kernel.Shell.Typed
use lux_kernel.Shell.Typed.{Reads}
use lux_kernel.Shell.Pipeline.{
  parsed, parse_pipeline, pipeline_loop, skip_spaces, find_pipe, trim_end, finish_pipeline,
}
use lux_kernel.Shell.Segments.{IsCommand, is_plain}
use lux_kernel.Shell.Split
use lux_kernel.Shell.Split.{Splits, piped}
use lux_kernel.Device.{Device}
use lux_kernel.Fs.{Sys}
use lux_kernel.Fs.Sound.Reach.{boot_fs}
use lux_kernel.Shell.Moved
use lux_kernel.Shell.Moved.{IsAbsolute, Moves}
use lux_kernel.Shell.Cwd.{shell_set_cwd, shell_resolve_path, join_path}
use lux_kernel.Shell.Resolved.{IsString}
use lux_kernel.Shell.Absolute
use lux_kernel.Shell.Absolute.{Resolves}
use lux_kernel.Shell.Tab
use lux_kernel.Shell.Tab.{Completes}

abbrev card : Vga ℕ
card = record { outb = λ port b v. v; poke = λ i b v. b }

abbrev font : ℕ → ℕ → ℕ
font ch y = ch

abbrev screen : Tty ℕ
screen = record {
  cursor_row = 0;
  cursor_col = 0;
  current_color = 0x1F;
  cells = λ i. blank 0x1F;
  overlay_row = 0;
  overlay_col = 0;
  framebuffer = λ i. 0;
  video = 0;
}

-- "/", with its NUL.
abbrev root : List ℕ
root = 47 ∷ 0 ∷ []

abbrev hello : List ℕ
hello = 104 ∷ 101 ∷ 108 ∷ 108 ∷ 111 ∷ 0 ∷ []

-- "bc", home, "a", delete, backspace at the end: "a" is left of "bc" and its "b" is deleted.
abbrev keys : List ℕ
keys = 98 ∷ 99 ∷ 0x85 ∷ 97 ∷ 0x84 ∷ []

keys_text : (type_keys 4 keys (record { text = []; at = 0 })).text ≡ 97 ∷ 99 ∷ []
unfolding type_keys type_key insert_at delete_at
keys_text = refl

read_line-types_example :
    Reads 4 (type_keys 4 keys (record { text = []; at = 0 })).text (120 ∷ []) (
      read_line font card root 4 no_history
        (hello ∷ [])
        (replicate 4 0)
        (replicate 4 0)
        (98 ∷ 99 ∷ 0x85 ∷ 97 ∷ 0x84 ∷ 10 ∷ 120 ∷ [])
        screen)
read_line-types_example =
    Typed.read_line-types font card root 4 no_history (hello ∷ []) keys (120 ∷ []) (replicate 4 0)
      (replicate 4 0) screen refl (omega arith) (refl, (refl, (refl, (refl, (refl, tt)))))

-- "a", spaces only, and "b".
abbrev lines : List (List ℕ)
lines = (97 ∷ 0 ∷ []) ∷ (32 ∷ 9 ∷ 0 ∷ []) ∷ (98 ∷ 0 ∷ []) ∷ []

lines_text : remembered lines [] ≡ (98 ∷ []) ∷ (97 ∷ []) ∷ []
unfolding remembered is_noted shell_strnlen
lines_text = refl

history_get-Recalls_example :
    Recalls 1 (remembered lines []) (history_get 1 (add_all lines no_history))
history_get-Recalls_example = Recall.history_get-Recalls lines 1

abbrev pipe : PipeBuffer
pipe = record { bytes = replicate 1024 7; length = 5; overflowed = true }

abbrev writes : List (List ℕ)
writes = (97 ∷ 98 ∷ []) ∷ [] ∷ (99 ∷ []) ∷ []

writes_text : joined [] writes ≡ 97 ∷ 98 ∷ 99 ∷ []
unfolding joined
writes_text = refl

write_all-collects_example :
    let b' = write_all writes (pipe_buffer_init pipe) in
    (take b'.length b'.bytes ≡ take 1023 (joined [] writes))
    × (b'.length ≡ min 1023 (length (joined [] writes)))
    × (b'.overflowed ≡ ltb 1023 (length (joined [] writes)))
    × (get_or b'.bytes b'.length 0 ≡ 0)
write_all-collects_example = Collected.write_all-collects writes pipe refl

-- "he", in a buffer for sixteen.
abbrev he : Line
he = record { buffer = 104 ∷ 101 ∷ replicate 14 0; len = 2; cursor_pos = 2 }

handle_tab_completion-Extends_example :
    Completes font card root 16
      (hello ∷ [])
      he
      (handle_tab_completion font card root 16 (hello ∷ []) (he, screen))
handle_tab_completion-Extends_example =
    Tab.handle_tab_completion-Extends font card root 16 (hello ∷ []) he screen refl (omega arith)
      (omega arith)

abbrev ls : List ℕ
ls = 108 ∷ 115 ∷ []

ls-IsCommand : IsCommand ls
ls-IsCommand = record { some_bytes = omega arith; plain = plain; first = refl; last = refl }
  where
    plain : (i : ℕ) → i < 2 → is_plain (get_or ls i 0) ≡ true
    plain zero lt = refl
    plain (suc zero) lt = refl
    plain (suc (suc i)) lt = absurd (omega arith)

parse_pipeline-Splits_example : Splits (ls ∷ ls ∷ []) (parse_pipeline (ls ++ piped (ls ∷ [])))
parse_pipeline-Splits_example =
    Split.parse_pipeline-Splits ls (ls ∷ []) ls-IsCommand (ls-IsCommand, tt) (omega arith)

-- "ls|ls"
parse_pipeline-drops_example :
    parse_pipeline (ls ++ b'|' ∷ 108 ∷ 115 ∷ 0 ∷ [])
    ≡ some (parsed (set (ls ++ b'|' ∷ 108 ∷ 115 ∷ 0 ∷ []) (length ls) 0) (0 ∷ []))
parse_pipeline-drops_example = Split.parse_pipeline-drops ls (108 ∷ 115 ∷ 0 ∷ []) ls-IsCommand

-- "ls | " is taken, with one segment.
ls_trailing :
    parse_pipeline (ls ++ b' ' ∷ b'|' ∷ b' ' ∷ 0 ∷ [])
    ≡ some (parsed (ls ++ 0 ∷ 0 ∷ b' ' ∷ 0 ∷ []) (0 ∷ []))
unfolding parse_pipeline pipeline_loop skip_spaces find_pipe trim_end finish_pipeline strlen
ls_trailing = refl

-- "/" and "ls/", in a result of eight bytes.
abbrev here : List ℕ
here = b'/' ∷ []

root-IsString : IsString here root
root-IsString = record { bytes = bytes; nonzero = nonzero; ends = refl }
  where
    bytes : (i : ℕ) → i < 1 → get_or root i 0 ≡ get_or here i 0
    bytes zero lt = refl
    bytes (suc i) lt = absurd (omega arith)

    nonzero : (i : ℕ) → i < 1 → (get_or here i 0 == 0) ≡ false
    nonzero zero lt = refl
    nonzero (suc i) lt = absurd (omega arith)

ls_path :
    shell_resolve_path root (some (108 ∷ 115 ∷ b'/' ∷ 0 ∷ [])) (replicate 8 9) 8
    ≡ some (b'/' ∷ 108 ∷ 115 ∷ 0 ∷ 0 ∷ 9 ∷ 9 ∷ 9 ∷ [])
unfolding shell_resolve_path join_path shell_strnlen shell_normalize_path normalize_loop strlen
    memcpy
ls_path = refl

shell_resolve_path-Resolves_example :
    Resolves here here 8 (shell_resolve_path root (some root) (replicate 8 9) 8)
shell_resolve_path-Resolves_example =
    Absolute.shell_resolve_path-Resolves here root (replicate 8 9) 8 root-IsString refl
      (omega arith) (omega arith) (λ lt. absurd (omega (arith, lt))) here (some root) root-IsString

-- "/", in the whole array.
abbrev top : List ℕ
top = b'/' ∷ replicate 255 0

top-IsString : IsString here top
top-IsString = record { bytes = bytes; nonzero = root-IsString.nonzero; ends = refl }
  where
    bytes : (i : ℕ) → i < 1 → get_or top i 0 ≡ get_or here i 0
    bytes zero lt = refl
    bytes (suc i) lt = absurd (omega arith)

top-IsAbsolute : IsAbsolute top
top-IsAbsolute = record {
  text = here;
  string = top-IsString;
  fits = omega arith;
  rooted = refl;
  last = λ lt. absurd (omega (arith, lt));
}

abbrev zero_disk : Device (Unit {0})
zero_disk = record {
  read = λ lba d. (some (replicate 512 0), d);
  write = λ lba bytes d. (true, d);
  ready = λ d. true;
  init = λ d. (true, d);
  total_sectors = λ d. 8192;
}

abbrev mounted_state : Sys (Unit {0})
mounted_state = record { fs = record boot_fs { mounted = true }; disk = tt }

shell_set_cwd-Moves_example :
    Moves (shell_set_cwd zero_disk (replicate 256 9) (some root) top mounted_state).0
shell_set_cwd-Moves_example =
    Moved.shell_set_cwd-Moves zero_disk here (replicate 256 9) top (some root) mounted_state
      root-IsString refl refl top-IsAbsolute
