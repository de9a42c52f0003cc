-- ===== src/Race.antt =====
-- engine_race/engine_race.h and engine_race.cc: the engine with ordered buckets.
-- One bucket is the pair of an index file, which is mapped into memory, and a data file.
pub mod Bucket
pub mod Records
pub mod Live
pub mod Log
pub mod Reading
pub mod Opening
pub mod Routing
pub mod Store
pub mod Ranging
pub mod Locking
pub mod Session
pub mod Faults
