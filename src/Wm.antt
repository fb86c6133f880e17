-- ===== src/Wm.antt =====
-- lib/wm: windows side by side in splitters.
pub mod Resize
pub mod Tree
mod Tests
