-- ===== src/Lib.antt =====
-- lux-kernel: the heap, strings, printf, 64-bit division, the file system, swap files, the
-- keyboard, the text terminal, the shell and the interrupt table of a small x86 kernel in C.
--
-- The parts and the files that model them:
--   Malloc: src/kernel/lib/malloc.c. The memory maps an address to the header there, the pointers of
--   the C list are the addresses in the headers. Malloc.Blocks is the abstract heap, a list of
--   blocks in address order, with what allocation and release do to it; Malloc.Chain ties the
--   headers in memory to that list, and the modules below it follow the C steps through that tie.
--   Strings: src/kernel/lib/string.c over arrays of bytes.
--   Device: the block device that the file system calls (src/include/lux/ata.h), a record of
--   operations that the file system takes as a parameter.
--   Fs: src/kernel/fs/fs.c. `g_fs` and the state of the device are passed along by a monad whose
--   outcome is a result, `false` or a fault; Fs.Layout has the structures and their bytes,
--   Fs.Blocks the block input and output and `luxfs_format`, Fs.Alloc the allocators,
--   Fs.Path and Fs.Resolve the paths, Fs.Directory the directories, Fs.Api the public functions.
--   Fs.Keeps, Fs.Stable and Fs.Sound are about the invariants of `g_fs`, Fs.Supported about the check of
--   the superblock, Fs.Disk, Fs.Table and Fs.Persist about what is on the disk.
--   Printf: src/kernel/lib/printf.c over any callback; Printf.Text, Printf.Buffer, Printf.Digits and
--   Printf.Fuel are about what is emitted, what a buffer holds, the digits, and the rounds of the loop.
--   Swap: src/kernel/fs/swap.c over the heap of Malloc and the functions of Fs.Api.
--   Div64: src/kernel/lib/div64.c.
--   Interrupt: src/kernel/core/interrupt.c, the table of subscriptions.
--   Keyboard: src/kernel/drivers/input/keyboard.c and the interrupt handler of src/kernel/core/idt.c, over
--   ports that are a parameter. Keyboard.Queue is about the ring of events, Keyboard.Modifiers
--   about the modifier keys, and Keyboard.Polling about the polling loop against the interrupts.
--   Tty: src/kernel/drivers/video/tty.c. Tty.Draw has the pixels and the copy to the card, Tty.Pixels,
--   Tty.Render, Tty.Redraw and Tty.Screen what each drawing function leaves in the framebuffer,
--   Tty.Shown and Tty.Reached that the screen shows the text, Tty.Tape and Tty.Typing the terminal as
--   a window on a tape, and Tty.Planes the bytes for the card.
--   Shell: src/kernel/shell/shell.c over the terminal of Tty. Shell.Text has the string helpers,
--   Shell.History the ring of lines, Shell.Pipe the buffer of a pipe, Shell.Pipeline the
--   parser of a line of commands, Shell.Cwd the working directory, Shell.Prompt, Shell.Complete and
--   Shell.Editor the line editor. Shell.Edits, Shell.Keys and Shell.Typed are about the text
--   that keys leave in the line, Shell.Tab about the tab key, Shell.Recall about the history and
--   Shell.Collected about the pipe buffer;
--   Shell.Segments and Shell.Split are about the commands that a line is split into,
--   Shell.Resolved, Shell.Joined, Shell.Absolute and Shell.Moved about paths and the working directory.
-- Base has the C comparisons, arrays and bits over native numbers and their lemmas, Bytes those on arrays
-- that hold a text.
--
-- A function of the program has the name that it has in C, without the prefix `luxfs_`; its loops
-- are functions of their own. An unsigned number of 32 bits is a natural number, with `% 2 ^ 32`
-- where the source can wrap. The count of characters in printf is not bounded: `written` is an `int`, whose
-- overflow C leaves undefined, and `pos` of a buffer does not wrap before that. A structure is copied
-- to a sector and from it by `memcpy`; its bytes are those of a little-endian machine without padding.
--
-- Bounds and fuel: the heap loops take 4097 rounds, one more than the 65,536 bytes can hold
-- headers of 16 bytes; running out is `none`. The
-- path loop takes one round more than the path has bytes. The file loops take nine rounds, one
-- more than a file has blocks, and the append loop three, since a record of 36 bytes lies in two
-- sectors at most; running out of these is a fault. The loop of kvprintf takes
-- one round more than the format has bytes. The doubling loop of swap files takes 33 rounds; where
-- that is not enough, `none` says that the loop does not end. The polling loop of the keyboard takes one round more than bytes wait.
-- The pipeline parser takes one round more than
-- the line has bytes. The terminal's loops are counted.
--
-- Not modelled: the ATA driver and start-up code (ports and tables of the processor),
-- the terminal windows of term.c, the shell's tokenizer and redirection, how it runs commands
-- and handles an interrupt, the commands themselves, the delay loop, and the fonts.
mod Base
pub mod Bytes
pub mod Malloc
pub mod Strings
pub mod Device
pub mod Fs
pub mod Printf
pub mod Swap
pub mod Div64
pub mod Interrupt
pub mod Keyboard
pub mod Tty
pub mod Shell
