-- ===== src/Lib.antt =====
-- A model of the key-value engines of nvm-kv, and what is proved about them.
--
-- The program. `include/` holds the interface (Engine, PolarString, RetCode). Four engines implement
-- it. engine_race hashes a key by its first byte to a bucket; a bucket has a data file, to which
-- values are appended, a mapped index file, to which a record (size of the key, key, location of the
-- value) is copied, a map from keys to pointers into the mapping, and a mutex. Open reads the index
-- files again. engine_mp keeps all pairs in maps and appends each pair as whole pages to one of 256
-- files. engine_example is the engine of the contest: a mapped hash table of keys (DoorPlate), and
-- values in numbered files (DataStore). engine_tth is a variant of engine_race.
--
-- The files of this development, with the code they are about:
--   Prelude, Prelude/*: Boolean tests, lists over the native numbers, byte strings, memory regions
--     (a function from offsets to bytes, with `load` and `store`), and the order of byte strings
--   Engine: include/engine.h (RetCode), and `Run`, the outcome of an operation: `ok`, a `fault`
--     (undefined behaviour, a deadlock or exit), or `stuck`
--   Polar, Polar/Order: include/polar_string.h
--   OrdMap, OrdMap/Laws, OrdMap/Span: std::map from strings, as the list of its entries in order
--   Posix, Posix/Append: FileAppend of engine_race/util.h and engine_example/util.cc
--   Race/Bucket: EngineRace::Write of engine_race/engine_race.cc within its bucket
--   Race/Reading: get_string_from_location and EngineRace::Read within its bucket
--   Race/Opening: one round of EngineRace::Open, and the files that the destructor leaves
--   Race/Routing, Race/Routing/Bounds: which_bucket, and Open, Write, Read and the destructor over
--     the array of buckets
--   Race/Ranging, Race/Ranging/*: EngineRace::Range
--   Race/Records: the records of the index file as bytes
--   Race/Live, Race/Live/*: the value of a key in a running bucket, and Write and Read on it
--   Race/Log, Race/Log/*: the index file as the log of the writes, Open and crashes
--   Race/Store, Race/Store/Operations: the engine as one map from keys to values
--   Race/Session, Race/Session/*: a session of many writes between two calls of Open
--   Race/Locking, Race/Locking/*: the mutexes of the buckets while several threads are in engine_race
--   Race/Faults: inputs and failures that the engine does not deal with
--   Mp, Mp/*, Mp/Scanning/Bounds: engine_mp/engine_race.h
--   Example/Util: StrHash and FileAppend of engine_example/util.cc
--   Example/DataStore, Example/DataStore/*: engine_example/data_store.cc
--   Example/DoorPlate, Example/DoorPlate/*: engine_example/door_plate.cc
--   Example/Engine, Example/Engine/Sequences: engine_example/engine_example.cc
--   Example/Opening, Example/Opening/Restart: DoorPlate::Init and EngineExample::Open
--   Example/Directory, Example/Directory/Excluding: GetDirFiles, LockFile and UnlockFile of
--     engine_example/util.cc
--   Tth/Bucket: the state of a bucket of engine_tth/engine_race.cc, Write and Read in it, and the
--     FileAppend of engine_tth/util.h on a descriptor with an offset
--   Tth/Indexing, Tth/Opening, Tth/Closing: read_index_file, a round of Open and one of the destructor
--   Tth/Routing: calculate_bucket_id, and the operations over the array of buckets
--   Tth/Live, Tth/Live/*, Tth/Store: the values of a running engine_tth
--   Tth/Entries, Tth/Appending, Tth/Log, Tth/Saving: the bytes of the index files and of the data file
--   Tth/Reopening, Tth/Restarts, Tth/Closed: what Open finds after the death of the process or a close
--   Tth/Ending, Tth/Faults: the end of read_index_file, and a failing write(2)
--   Tests, Tests/*: runs of the code on concrete inputs, and the theorems at concrete inputs
--
-- State. A file stands beside its descriptor, as a list of bytes; a mapped file is a region and the
-- number of bytes behind it. `Location*` is an offset in the region, so a pointer of the map sees what
-- is stored there later. A PolarString is the list of bytes that can be read from its pointer, with a
-- size. Operations take the state and give the new one; `std::string*` results are the string before
-- and after. The number of buckets is the length of the list of buckets (BUCKET_NUM is a macro). What
-- nextLoc of engine_tth holds before any code sets it, the hash function and the order of the hash map
-- of that engine are arguments.
--
-- An index behind the buffer of a PolarString is a fault. A PolarString whose buffer is shorter than its
-- size is a mistake of its caller that no engine makes from a std::string: `to_string` then gives only
-- the bytes that are there, and the model says nothing about the code.
--
-- The operating system. Each call of read(2) or write(2) takes the next event of a list: it moves some
-- bytes, is interrupted, or fails. The answers of open, mmap, posix_fallocate and mkdir are arguments,
-- and the open, fcntl and close of the lock file are parameters over a state of the system.
-- A lock is a flag or a count of readers: a second lock by the same thread is the fault `deadlock`.
--
-- Bounds and fuel. u8, u32 and `char` wrap where the code stores them. The loops around read(2) and
-- write(2) recur on the list of events. The loop of Open over an index file has as much fuel as the
-- mapping has bytes, and one more: each record takes at least 20 bytes. The loop over a file of
-- engine_mp has the length of the file and one more: each round moves on by a page. CalcIndex has as
-- many rounds as items, which is where its counter stops. The u8 loop of Range has 257 rounds, one more
-- than it can make if it ends; the loop over the 256 files has 258. The loop of read_index_file has as
-- many rounds as the file has bytes, and one more.
--
-- Several threads. The locking of engine_race is a step relation: each step of a thread takes a mutex,
-- releases one, or moves on. The work of a call between its locks is one step that is always possible,
-- so the theorems on the locking assume that this work ends; the loop of Read at the end of a data file
-- does not (Race/Faults). The operations themselves are the calls of one thread.
--
-- The death of the process. `Write` of engine_race is a list of steps in the order of its statements,
-- and `left_by` is the bucket after any number of them, or after some calls of write(2) within
-- FileAppend. The memcpy of a record to the mapping is one effect.
--
-- Not modelled: the data of the buckets while several threads are inside an operation; a record
-- of which the process copied only a part to the mapping when it died; the munmap that the destructor
-- of engine_tth makes with a pointer that was never set, which is a fault; the tests, the benchmark
-- (bench/zipf.h is a third-party copy) and the build files.
pub mod Prelude
pub mod Polar
pub mod OrdMap
pub mod Posix
pub mod Engine
pub mod Race
pub mod Mp
pub mod Example
pub mod Tth
mod Tests
