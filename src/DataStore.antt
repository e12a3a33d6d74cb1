-- ===== src/DataStore.antt =====
-- mdhimMods/src/ds_leveldb.c: what the data store does beside its calls of LevelDB.
pub mod Compare
pub mod LevelDb
