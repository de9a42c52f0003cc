-- ===== src/Example.antt =====
-- engine_example: the engine with one hash table of items and data files of bounded size.
pub mod Util
pub mod DataStore
pub mod DoorPlate
pub mod Engine
pub mod Opening
pub mod Directory
