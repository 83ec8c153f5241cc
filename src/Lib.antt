-- ===== src/Lib.antt =====
-- Models of the storage engine's parts, translated from the C++ sources, with their properties.
--
-- A write goes through the engine (src/engine.cpp) into the write-ahead log (src/wal.cpp), then into
-- the active memtable (src/memtable.cpp). A full memtable is frozen and handed through the
-- thread-safe queue (include/kronos/thread_safe_queue.hpp) to a worker that writes it out as an
-- SSTable (src/sstable.cpp) with a Bloom filter (src/bloom_filter.cpp). The manifest
-- (src/manifest.cpp) names the live SSTables and the checkpoint through which the log is no longer
-- needed; the log is then reclaimed. The compaction policy (src/compaction_policy.cpp) picks the
-- SSTables that the compactor (src/compactor.cpp) merges. At a start the log is recovered into a
-- new memtable.
--
-- Modules:
--   Prelude      names of the libraries, Boolean tests, lists, byte strings, results
--   Types        include/kronos/types.hpp
--   OrderedMap   `std::map<std::string, V>`: `find`, and assignment through `operator[]`
--   Memtable     src/memtable.cpp: `put_entry` is `put`, `remove_entry` is `remove`,
--                `lookup_entry` is `lookupEntry`; the other operations keep their names
--   Codec        `encode_to_le` and `decode_from_le` of src/sstable.cpp, `appendBytes` of src/wal.cpp
--   Io           the loops around `write` and `fsync`
--   Wal          src/wal.cpp: Wal/Format is the layout, Wal/Scan the reading of one record, Wal/Log
--                the operations (`write_record` is `writeRecord`, `recover_loop` the loop of
--                `recover`, `reclaim_through` is `reclaimThrough`)
--   Queue        include/kronos/thread_safe_queue.hpp: Queue/Order runs whole operations,
--                Queue/Waking splits them at the mutex, with the condition variable (`push_locked`
--                and `shutdown_locked` are `push` and `shutdown` up to their notification)
--   Bloom        src/bloom_filter.cpp: `may_contain` is `mayContain`
--   Files        the order of SSTable metadata, and `std::sort` by it
--   Policy       src/compaction_policy.cpp: `pick_compaction` is `pickCompaction`
--   Manifest     src/manifest.cpp: `apply_edit` is `applyEdit`, `persist_snapshot` is
--                `persistSnapshot`, without the text of the file
--   Sstable      src/sstable.cpp: Sstable/Format is the layout, Sstable/Builder the builder
--                (`add_entry` is `add`), Sstable/Reader the opening of a table, Sstable/Lookup
--                `lookupEntry` and Sstable/Iterator the iterator; Sstable/Build puts the calls of
--                the builder together as `flushMemtable` does
--   Engine       src/engine.cpp: `put_value` is `put`, `remove_value` is `remove`, Engine/Reading
--                has `get` (`get_value`), Engine/Flush `flushMemtable` and Engine/Restart
--                `recover` (`recover_engine`)
--   Compactor    src/compactor.cpp: `merge` is the K-way merge of `compact`, on what the iterators
--                of the tables read; its fuel is the number of entries, one for each round
--
-- Unsigned integers are natural numbers with their wrap-around written out. A string is a list of
-- bytes. What the operating system answers to `write` and `fsync` is an argument of the operation, a
-- list with one answer for each call; where the list ends, the process stopped. zlib's `crc32`,
-- `MurmurHash3_x86_32` and the floating-point rounding of the probe count are parameters. The loop
-- of `recover` runs on fuel, one round more than the file has bytes: a record takes at least 21.
--
-- A table's file is built as a list of bytes, and a reader's cursor is the list of those left; the
-- loop over an iterator (Sstable/Scanning) runs on fuel, one round more than there are entries. The
-- engine's operations are split where they take a mutex: a step goes on, throws, or sleeps until it
-- is run again. What each path holds is a function that `get` reads.
--
-- Not modelled: the failures of `open`, `lseek`, `fstat`, `ftruncate` and `read` but where an argument
-- stands for them, the text of the manifest, the checks of a compaction request, the names of new
-- tables, the worker with its compactions and the shutdown, the settings, the logger and the
-- benchmark programs.
pub mod Prelude
pub mod Types
pub mod OrderedMap
pub mod Memtable
pub mod Codec
pub mod Io
pub mod Wal
pub mod Queue
pub mod Bloom
pub mod Files
pub mod Policy
pub mod Manifest
pub mod Compactor
pub mod Sstable
pub mod Engine
