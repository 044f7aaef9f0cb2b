-- ===== src/Tests/Sectors.antt =====
-- Reads and writes of volumes and of sectors.
use hdfmonkey.Base.{false, [], ◌∷◌, ◌≡◌, some, same_bytes, pos, refl, arith, inl, ok}
use hdfmonkey.Base.Slices.{slice, splice}
use hdfmonkey.Posix.{update, update_file}
use hdfmonkey.Posix.Views.{advance, Returns}
use hdfmonkey.Posix.Memory.Disk.{Disk, memory, memory_view}
use hdfmonkey.Volume.Dispatch.{volume_read, volume_write}
use hdfmonkey.Volume.Offsets.{volume_read-eq, volume_read-Returns, volume_write-Returns}
use hdfmonkey.ImageFile.Io.{image_file_read}
use hdfmonkey.Machine.{Machine}
use hdfmonkey.Diskio.{res_ok, res_parerr, disk_read, disk_write}
use hdfmonkey.Diskio.Sectors.{
  DiskReturns, IsMapped, InRange, disk_read-DiskReturns, disk_write-DiskReturns,
}
use hdfmonkey.Diskio.RoundTrip.{
  disk_read-disk_write_self, disk_read-disk_write_other, disk_read_beyond, disk_write_beyond,
}
use hdfmonkey.Posix.Memory.Guards.{memory-IsGuarded}
use hdfmonkey.Diskio.ReadOnly.{disk_write_read_only}
use hdfmonkey.Tests.Worlds.{
  ten, healthy, open_disk, descriptor, small_bytes, small_partition, machine,
}

abbrev small_disk : Disk
small_disk = open_disk small_bytes

abbrev m : Machine Disk (Unit {0})
m = machine small_partition small_disk

m-IsMapped : IsMapped (memory ten) (memory_view ten) Unit m 0 small_partition descriptor small_bytes
unfolding same_bytes
m-IsMapped = record { mapped = refl; opened = refl; present = refl }

some-InRange : InRange (memory ten) (memory_view ten) Unit small_partition small_bytes 3 2
some-InRange = record { begins = omega arith; size = omega arith; ends = omega arith }

first-InRange : InRange (memory ten) (memory_view ten) Unit small_partition small_bytes 0 3
first-InRange = record { begins = omega arith; size = omega arith; ends = omega arith }

disk_read-DiskReturns_example :
    DiskReturns
      (memory ten)
      (memory_view ten)
      Unit
      m
      (disk_read (memory ten) Unit 0 3 2 m)
      (res_ok, slice 12 4 small_bytes)
      ((memory_view ten).files small_disk)
      (update ((memory_view ten).fds small_disk) 0 (some (advance descriptor 16)))
disk_read-DiskReturns_example =
    disk_read-DiskReturns (memory ten) (memory_view ten) Unit healthy m 0 small_partition descriptor
      small_bytes m-IsMapped 3 2 some-InRange

disk_write-DiskReturns_example :
    DiskReturns
      (memory ten)
      (memory_view ten)
      Unit
      m
      (disk_write (memory ten) Unit 0 (91 ∷ 92 ∷ 93 ∷ 94 ∷ []) 3 2 m)
      res_ok
      (update_file
        ((memory_view ten).files small_disk)
        (100 ∷ [])
        (splice 12 (91 ∷ 92 ∷ 93 ∷ 94 ∷ []) small_bytes))
      (update ((memory_view ten).fds small_disk) 0 (some (advance descriptor 16)))
disk_write-DiskReturns_example =
    disk_write-DiskReturns (memory ten) (memory_view ten) Unit healthy m 0 small_partition
      descriptor small_bytes m-IsMapped 3 2 (91 ∷ 92 ∷ 93 ∷ 94 ∷ []) refl refl some-InRange

disk_read-disk_write_self_example :
    (m' : Machine Disk (Unit {0})) × (m'' : Machine Disk (Unit {0})) × (disk_write
        (memory ten)
        Unit
        0
        (91 ∷ 92 ∷ 93 ∷ 94 ∷ [])
        3
        2
        m
      ≡ ok res_ok m')
    × (disk_read (memory ten) Unit 0 3 2 m' ≡ ok (res_ok, 91 ∷ 92 ∷ 93 ∷ 94 ∷ []) m'')
disk_read-disk_write_self_example =
    disk_read-disk_write_self (memory ten) (memory_view ten) Unit healthy m 0 small_partition
      descriptor small_bytes m-IsMapped 3 2 (91 ∷ 92 ∷ 93 ∷ 94 ∷ []) refl refl some-InRange

disk_read-disk_write_other_example :
    (m' : Machine Disk (Unit {0})) × (m'' : Machine Disk (Unit {0})) × (disk_write
        (memory ten)
        Unit
        0
        (91 ∷ 92 ∷ 93 ∷ 94 ∷ [])
        3
        2
        m
      ≡ ok res_ok m')
    × (disk_read (memory ten) Unit 0 0 3 m' ≡ ok (res_ok, slice 6 6 small_bytes) m'')
disk_read-disk_write_other_example =
    disk_read-disk_write_other (memory ten) (memory_view ten) Unit healthy m 0 small_partition
      descriptor small_bytes m-IsMapped 3 2 (91 ∷ 92 ∷ 93 ∷ 94 ∷ []) refl refl some-InRange 0 3
      first-InRange (inl (omega arith))

-- The first sector at 2GB.
disk_read_beyond_example :
    (m' : Machine Disk (Unit {0})) × (disk_read (memory ten) Unit 0 1073741821 1 m
      ≡ ok (res_parerr, []) m')
    × ((memory_view ten).files m'.world ≡ (memory_view ten).files small_disk)
disk_read_beyond_example =
    disk_read_beyond (memory ten) (memory_view ten) Unit healthy m 0 1073741821 1 small_partition
      descriptor refl refl (omega arith) (omega arith)

disk_write_beyond_example :
    (m' : Machine Disk (Unit {0})) × (disk_write (memory ten) Unit 0 (91 ∷ 92 ∷ []) 1073741821 1 m
      ≡ ok res_parerr m')
    × ((memory_view ten).files m'.world ≡ (memory_view ten).files small_disk)
disk_write_beyond_example =
    disk_write_beyond (memory ten) (memory_view ten) Unit healthy m 0 1073741821 1 small_partition
      descriptor refl refl (omega arith) (omega arith) (91 ∷ 92 ∷ [])

volume_read-eq_example :
    volume_read (memory ten) small_partition 3 5 ≡ image_file_read (memory ten) 0 6 3 5
volume_read-eq_example = volume_read-eq (memory ten) small_partition 3 5

-- The same with its image open for reading only.
abbrev read_only_disk : Disk
read_only_disk = record small_disk { table = some (record descriptor { writeable = false }) ∷ [] }

disk_write_read_only_example :
    (m' : Machine Disk (Unit {0})) × (disk_write
        (memory ten)
        Unit
        0
        (91 ∷ 92 ∷ [])
        3
        1
        (machine small_partition read_only_disk)
      ≡ ok res_parerr m')
    × ((memory_view ten).files m'.world ≡ (memory_view ten).files read_only_disk)
disk_write_read_only_example =
    disk_write_read_only (memory ten) (memory_view ten) Unit healthy (memory-IsGuarded ten)
      (machine small_partition read_only_disk) 0 3 1 small_partition
      (record descriptor { writeable = false }) refl refl refl (91 ∷ 92 ∷ []) (omega arith)
      (omega arith)

volume_read-Returns_example :
    Returns
      (memory ten)
      (memory_view ten)
      (volume_read (memory ten) small_partition 3 13 small_disk)
      (pos 13, slice 9 13 small_bytes)
      ((memory_view ten).files small_disk)
      (update ((memory_view ten).fds small_disk) 0 (some (advance descriptor 22)))
unfolding same_bytes
volume_read-Returns_example =
    volume_read-Returns (memory ten) (memory_view ten) healthy small_disk small_partition descriptor
      small_bytes refl refl 3 13 (omega arith) (omega arith) (omega arith)

volume_write-Returns_example :
    Returns
      (memory ten)
      (memory_view ten)
      (volume_write (memory ten) small_partition 3 (7 ∷ 8 ∷ []) small_disk)
      (pos 2)
      (update_file
        ((memory_view ten).files small_disk)
        (100 ∷ [])
        (splice 9 (7 ∷ 8 ∷ []) small_bytes))
      (update ((memory_view ten).fds small_disk) 0 (some (advance descriptor 11)))
unfolding same_bytes
volume_write-Returns_example =
    volume_write-Returns (memory ten) (memory_view ten) healthy small_disk small_partition
      descriptor small_bytes refl refl 3 (7 ∷ 8 ∷ []) refl (omega arith) (omega arith) (omega arith)
