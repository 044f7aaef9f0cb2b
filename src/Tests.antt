-- ===== src/Tests.antt =====
-- The theorems at concrete inputs, over disks in memory.
pub mod Worlds
pub mod Images
pub mod Sectors
pub mod Tables
pub mod Times
pub mod Programs
pub mod Samples
pub mod Commands
pub mod Endings
pub mod Puts
