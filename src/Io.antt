-- ===== src/Io.antt =====
-- The I/O manager of src/io.c, by its parts: the parsing of device names, the choice of a partition,
-- the cache of sectors, and the reading of sectors through it.
pub mod Errno
pub mod Path
pub mod Partition
pub mod Cache
pub mod Sector
mod Tests
