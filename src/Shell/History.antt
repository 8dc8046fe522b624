-- ===== src/Shell/History.antt =====
-- The history of lines and the pending input of src/kernel/shell/shell.c, two rings.
use lux_kernel.Base.{
  ℕ, zero, suc, ◌+◌, ◌-◌, ◌%◌, Bool, true, false, not, ◌&&◌, Option, none, some, List, [], ◌∷◌, ltb,
  leb, ◌==◌, if◌then◌else◌, get_or, set, replicate,
}
use lux_kernel.Strings.{memcpy}
use lux_kernel.Shell.Text.{input_buffer_size, shell_strnlen}

abbrev pub history_size : ℕ
history_size = 16

-- `history`, `history_count` and `history_head`; an entry is an array of 128 bytes.
pub record History : Type 0 where
  pub entries : List (List ℕ)
  pub count : ℕ
  pub head : ℕ

abbrev pub no_line : List ℕ
no_line = replicate input_buffer_size 0

unfoldable pub has_content : ℕ → List ℕ → Bool
has_content zero line = false
has_content (suc len) [] = false
has_content (suc len) (c ∷ line) =
    let rest = has_content len line in if not (c == b' ') && not (c == 9) then true else rest

unfoldable pub history_add : List ℕ → History → History
unfolding has_content
history_add line h =
    let len = shell_strnlen line (input_buffer_size - 1) in
    let entry = set (memcpy (get_or h.entries h.head no_line) 0 line 0 len) len 0 in
    if get_or line 0 0 == 0
    then h
    else if len == 0
    then h
    else if not (has_content len line)
    then h
    else record {
      entries = set h.entries h.head entry;
      head = (h.head + 1) % history_size;
      count = if ltb h.count history_size then h.count + 1 else h.count;
    }

unfoldable pub history_get : ℕ → History → Option (List ℕ)
history_get offset h =
    if leb h.count offset
    then none
    else some (get_or h.entries ((h.head + history_size - 1 - offset) % history_size) no_line)

-- `pending_input` and its indices.
pub record Pending : Type 0 where
  pub input : List ℕ
  pub head : ℕ
  pub tail : ℕ
  pub count : ℕ

unfoldable pub pending_input_push : ℕ → Pending → Pending
pending_input_push c p =
    let full = leb input_buffer_size p.count in
    record {
      input = set p.input p.tail c;
      tail = (p.tail + 1) % input_buffer_size;
      head = if full then (p.head + 1) % input_buffer_size else p.head;
      count = if full then p.count - 1 + 1 else p.count + 1;
    }

unfoldable pub pending_input_pop : Pending → Option ℕ × Pending
pending_input_pop p = if p.count == 0 then (none, p) else (
  some (get_or p.input p.head 0),
  record p { head = (p.head + 1) % input_buffer_size; count = p.count - 1 },
)
