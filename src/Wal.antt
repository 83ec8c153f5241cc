-- ===== src/Wal.antt =====
-- include/kronos/wal.hpp and src/wal.cpp: the write-ahead log. `Format` is the file format, `Scan`
-- the reading of one record, `Log` the operations; the other modules hold the proofs.
pub mod Format
pub mod Scan
mod Record
pub mod Torn
pub mod Sound
pub mod Log
pub mod Replay
pub mod Append
pub mod Ends
pub mod Exact
pub mod Reclaim
pub mod Repeated
pub mod Opening
mod Examples
