-- ===== src/Tth.antt =====
-- engine_tth: the engine with hashed buckets, a temporary index file that is mapped while the engine
-- runs, and an index file that is written when it is closed.
pub mod Bucket
pub mod Indexing
pub mod Entries
pub mod Appending
pub mod Live
pub mod Log
pub mod Reopening
pub mod Restarts
pub mod Saving
pub mod Closed
pub mod Store
pub mod Ending
pub mod Faults
pub mod Opening
pub mod Closing
pub mod Routing
