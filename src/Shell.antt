-- ===== src/Shell.antt =====
-- src/kernel/shell/shell.c, a part to a module: Shell.Text the string helpers, Shell.History the history
-- and the pending input, Shell.Pipe the buffer between two commands, Shell.Pipeline the parser of pipelines,
-- Shell.Cwd the working directory, Shell.Prompt what is drawn on the
-- terminal, Shell.Complete the completion of command names, Shell.Editor the line editor.
pub mod Text
pub mod History
pub mod Pipe
pub mod Pipeline
pub mod Segments
pub mod Split
pub mod Cwd
pub mod Resolved
pub mod Joined
pub mod Absolute
pub mod Moved
pub mod Prompt
pub mod Complete
pub mod Editor
pub mod Recall
pub mod Collected
pub mod Edits
pub mod Keys
pub mod Typed
pub mod Tab
mod Tests
