-- ===== src/Partitioner.antt =====
-- mdhimMods/src/partitioner.c: which slice, and which range server, a key belongs to.
pub mod Alphabet
pub mod Keys
pub mod Servers
pub mod Stats
pub mod Cursor
mod Tests
