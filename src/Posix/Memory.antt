-- ===== src/Posix/Memory.antt =====
-- A disk in memory that meets `IsHealthy`: files by their paths, a table of descriptors, and the
-- messages on the error stream.
pub mod Disk
pub mod Laws
pub mod Progress
pub mod Host
pub mod Guards
