-- ===== src/Volume.antt =====
-- src/volume_container.h: something that acts as a disk.
pub mod Dispatch
pub mod Offsets
use hdfmonkey.Base.{ℕ, Option, none, some}

-- The function pointers of the struct are told by the constructor: those of src/image_file.c, or
-- those that `partition_open` of src/mbr.c sets. That function sets neither `close` nor
-- `sector_count`, so a partition has none.
pub data Volume : Type 0 where
  image_file : (fd data_offset bytes_per_sector sector_count : ℕ) → Volume
  partition : (parent : Volume) (data_offset bytes_per_sector : ℕ) → Volume

abbrev pub bytes_per_sector : Volume → ℕ
bytes_per_sector (image_file _ _ b _) = b
bytes_per_sector (partition _ _ b) = b

-- `none` where the field was never set.
abbrev pub sector_count : Volume → Option ℕ
sector_count (image_file _ _ _ n) = some n
sector_count (partition _ _ _) = none
