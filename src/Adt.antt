-- ===== src/Adt.antt =====
-- lib/adt: the containers of cgdb.
pub mod Ibuf
mod Tests
pub mod TgdbList
