-- ===== src/Kui.antt =====
-- lib/kui: keyboard input with key mappings.
pub mod Tree
pub mod Keycode
pub mod Term
pub mod Munch
pub mod MapSet
pub mod Context
mod Tests
