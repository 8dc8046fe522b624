-- ===== src/Shell/Pipe.antt =====
-- The buffer that takes the output of one command to the next, of src/kernel/shell/shell.c.
use lux_kernel.Base.{ℕ, ◌+◌, ◌-◌, Bool, true, false, List, ltb, ◌==◌, if◌then◌else◌, set}
use lux_kernel.Strings.{memcpy}

abbrev pub pipe_buffer_capacity : ℕ
pipe_buffer_capacity = 1024

-- `struct shell_pipe_buffer`
pub record PipeBuffer : Type 0 where
  pub bytes : List ℕ
  pub length : ℕ
  pub overflowed : Bool

unfoldable pub pipe_buffer_init : PipeBuffer → PipeBuffer
pipe_buffer_init b = record { bytes = set b.bytes 0 0; length = 0; overflowed = false }

-- `len` bytes of the text are appended, with a NUL.
unfoldable pub append_bytes : List ℕ → ℕ → PipeBuffer → PipeBuffer
append_bytes text len b = record b {
  bytes = set (memcpy b.bytes b.length text 0 len) (b.length + len) 0;
  length = b.length + len;
}

unfoldable pub pipe_buffer_writer : List ℕ → ℕ → PipeBuffer → PipeBuffer
pipe_buffer_writer text len b =
    let remaining = pipe_buffer_capacity - 1 - b.length in
    if len == 0
    then b
    else if remaining == 0
    then record b { overflowed = true }
    else if ltb remaining len
    then append_bytes text remaining (record b { overflowed = true })
    else append_bytes text len b
