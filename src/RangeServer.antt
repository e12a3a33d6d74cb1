-- ===== src/RangeServer.antt =====
-- mdhimMods/src/range_server.c: what a range server keeps.
pub mod Stats
pub mod Queue
pub mod Records
pub mod Bulk
pub mod Fixture
pub mod Threads
