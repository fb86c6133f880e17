-- ===== src/Annotate.antt =====
-- lib/tgdb/annotate-two: separating gdb's annotations from its other output.
pub mod Context
pub mod Commands
pub mod Issue
pub mod Data
pub mod Table
pub mod Machine
pub mod Keeps
pub mod Stream
pub mod Frames
pub mod Silent
pub mod Names
mod Tests
pub mod Prepare
pub mod Position
pub mod Located
pub mod Breakpoints
pub mod Prompt
pub mod Dispatch
