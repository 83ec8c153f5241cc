-- ===== src/Sstable.antt =====
-- src/sstable.cpp and include/kronos/sstable.hpp: immutable tables on disk. `Format` has the bytes,
-- `Builder` writes a table, `Reader` opens one, `Lookup` and `Iterator` read it; the other modules
-- prove that what was added is what is read.
pub mod Format
pub mod Writing
pub mod Builder
pub mod Reader
pub mod Lookup
pub mod Iterator
pub mod Fields
pub mod Blocks
pub mod Index
pub mod Scanning
pub mod Layout
pub mod Building
pub mod Adding
pub mod Parts
pub mod Finished
pub mod Tables
pub mod Build
mod Examples
