-- ===== src/Tests/Tables.antt =====
-- A partition table: the first entry is a bootable FAT partition of four sectors from sector 1 on.
use hdfmonkey.Base.{
  ◌+◌, ◌*◌, ℕ, [], ◌∷◌, List, ◌++◌, ◌+◌, ◌-◌, ◌^◌, ◌≡◌, some, none, same_bytes, refl, arith, ok,
  replicate,
}
use hdfmonkey.Base.Slices.{slice}
use hdfmonkey.Posix.Memory.Disk.{Disk, memory, memory_view}
use hdfmonkey.Volume.{Volume, image_file}
use hdfmonkey.Mbr.{PartitionInfo, read_word, mbr_partition_info}
use hdfmonkey.Mbr.Table.{
  IsEntry, four_bytes, read_word_lem, mbr_partition_info_lem, mbr_partition_info-none,
}
use hdfmonkey.Tests.Worlds.{ten, healthy, open_disk, descriptor}

abbrev entry : List ℕ
entry = 0x80 ∷ 0 ∷ 0 ∷ 0 ∷ 6 ∷ 0 ∷ 0 ∷ 0 ∷ 1 ∷ 0 ∷ 0 ∷ 0 ∷ 4 ∷ 0 ∷ 0 ∷ 0 ∷ []

abbrev table : List ℕ
table = replicate {A = ℕ} 446 0 ++ entry ++ replicate {A = ℕ} 48 0 ++ (0x55 ∷ 0xaa ∷ [])

abbrev blank : List ℕ
blank = replicate {A = ℕ} 512 0

abbrev disk : Volume
disk = image_file 0 0 512 1

read_word_lem_example : read_word 1 2 3 0x84 ≡ four_bytes 1 2 3 0x84 + (2 ^ 64 - 2 ^ 32)
read_word_lem_example =
    read_word_lem 1 2 3 0x84 (omega arith) (omega arith) (omega arith) (omega arith)

mbr_partition_info_lem_example :
    (p : PartitionInfo) × (w' : Disk) × (mbr_partition_info (memory ten) disk 0 (open_disk table)
      ≡ ok (some p) w')
    × IsEntry disk table (0x1be + 0 * 16) p
    × ((memory_view ten).files w' ≡ (memory_view ten).files (open_disk table))
unfolding slice same_bytes
mbr_partition_info_lem_example =
    mbr_partition_info_lem (memory ten) (memory_view ten) healthy (open_disk table) disk descriptor
      table refl refl (omega arith) (omega arith) (omega arith) 0 (omega arith) refl

mbr_partition_info-none_example :
    (w' : Disk) × (mbr_partition_info (memory ten) disk 0 (open_disk blank) ≡ ok none w')
    × ((memory_view ten).files w' ≡ (memory_view ten).files (open_disk blank))
unfolding slice same_bytes
mbr_partition_info-none_example =
    mbr_partition_info-none (memory ten) (memory_view ten) healthy (open_disk blank) disk descriptor
      blank refl refl (omega arith) (omega arith) (omega arith) 0 refl
