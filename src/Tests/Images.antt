-- ===== src/Tests/Images.antt =====
-- Images made and opened.
use hdfmonkey.Base.{
  ℕ, List, ◌∷◌, ◌*◌, ◌≤◌, ◌<◌, ◌≡◌, some, none, true, same_bytes, pos, refl, arith, ok, replicate,
}
use hdfmonkey.Base.Slices.{slice, splice}
use hdfmonkey.Posix.{update, update_file}
use hdfmonkey.Posix.Views.{advance, Returns}
use hdfmonkey.Posix.Memory.Disk.{Disk, memory, memory_view}
use hdfmonkey.Volume.{image_file}
use hdfmonkey.ImageFile.Geometry.{Fits, geometry, geometry-Fits, geometry_bounds}
use hdfmonkey.ImageFile.Header.{Describes, hdf_signature, header_bytes, header_bytes-Describes}
use hdfmonkey.ImageFile.Io.{image_file_read, image_file_write}
use hdfmonkey.ImageFile.Io.Reads.{image_file_read-Returns}
use hdfmonkey.ImageFile.Io.Writes.{image_file_write-Returns}
use hdfmonkey.ImageFile.Images.{
  image_file_is_hdf, hdf_image_open, raw_image_create, hdf_image_create,
}
use hdfmonkey.ImageFile.Images.Create.{
  hdf_bytes, raw_image_create-Returns, hdf_image_create-Returns,
}
use hdfmonkey.ImageFile.Images.Open.{image_file_is_hdf-Returns}
use hdfmonkey.ImageFile.Images.RoundTrip.{hdf_image_open-hdf_image_create}
use hdfmonkey.ImageFile.Images.Fields.{hdf_image_open_fields}
use hdfmonkey.Tests.Worlds.{
  ten, healthy, prompt, disk_path, open_disk, descriptor, disk_of, small_bytes,
}

abbrev small_disk : Disk
small_disk = open_disk small_bytes

image_file_read-Returns_example :
    Returns
      (memory ten)
      (memory_view ten)
      (image_file_read (memory ten) 0 4 2 15 small_disk)
      (pos 15, slice 6 15 small_bytes)
      ((memory_view ten).files small_disk)
      (update ((memory_view ten).fds small_disk) 0 (some (advance descriptor 21)))
unfolding same_bytes
image_file_read-Returns_example =
    image_file_read-Returns (memory ten) (memory_view ten) healthy small_disk 0 4 2 15 descriptor
      refl small_bytes refl (omega arith) (omega arith) (omega arith)

image_file_write-Returns_example :
    Returns
      (memory ten)
      (memory_view ten)
      (image_file_write (memory ten) 0 4 2 (replicate {A = ℕ} 15 99) small_disk)
      (pos 15)
      (update_file
        ((memory_view ten).files small_disk)
        disk_path
        (splice 6 (replicate 15 99) small_bytes))
      (update ((memory_view ten).fds small_disk) 0 (some (advance descriptor 21)))
unfolding same_bytes
image_file_write-Returns_example =
    image_file_write-Returns (memory ten) (memory_view ten) healthy small_disk 0 4 2
      (replicate 15 99) descriptor refl small_bytes refl refl (omega arith) (omega arith)
      (omega arith)

hdf_image_create-Returns_example :
    (fd : ℕ) × ((memory_view ten).fds small_disk fd ≡ none)
    × Returns
        (memory ten)
        (memory_view ten)
        (hdf_image_create (memory ten) disk_path 3 small_disk)
        (some (image_file fd 0x0216 512 3))
        (update_file ((memory_view ten).files small_disk) disk_path (hdf_bytes 3))
        (update ((memory_view ten).fds small_disk) fd (some (advance descriptor 0x0216)))
hdf_image_create-Returns_example =
    hdf_image_create-Returns (memory ten) (memory_view ten) disk_path small_disk 3 healthy
      (omega arith)

raw_image_create-Returns_example :
    (fd : ℕ) × ((memory_view ten).fds small_disk fd ≡ none)
    × Returns
        (memory ten)
        (memory_view ten)
        (raw_image_create (memory ten) disk_path 3 small_disk)
        (some (image_file fd 0 512 3))
        (update_file ((memory_view ten).files small_disk) disk_path (replicate (3 * 512) 0))
        (update ((memory_view ten).fds small_disk) fd (some (advance descriptor 0)))
raw_image_create-Returns_example =
    raw_image_create-Returns (memory ten) (memory_view ten) disk_path small_disk 3 healthy
      (omega arith)

-- Two sectors of 256 bytes and a bit, right behind the 11 bytes.
abbrev halved_bytes : List ℕ
halved_bytes = 82 ∷ 83 ∷ 45 ∷ 73 ∷ 68 ∷ 69 ∷ 26 ∷ 16 ∷ 1 ∷ 11 ∷ 0 ∷ replicate {A = ℕ} 520 7

hdf_image_open_fields_example :
    (fd : ℕ) × ((memory_view ten).fds (disk_of halved_bytes) fd ≡ none)
    × Returns
        (memory ten)
        (memory_view ten)
        (hdf_image_open (memory ten) disk_path true (disk_of halved_bytes))
        (some (image_file fd 11 256 2))
        ((memory_view ten).files (disk_of halved_bytes))
        (update
          ((memory_view ten).fds (disk_of halved_bytes))
          fd
          (some (record { path = disk_path; offset = 11; writeable = true })))
unfolding same_bytes
hdf_image_open_fields_example =
    hdf_image_open_fields (memory ten) (memory_view ten) healthy disk_path (disk_of halved_bytes)
      halved_bytes refl true prompt (omega arith) (omega arith) (omega arith)

image_file_is_hdf-Returns_example :
    Returns
      (memory ten)
      (memory_view ten)
      (image_file_is_hdf (memory ten) disk_path small_disk)
      (same_bytes hdf_signature (slice 0 7 small_bytes))
      ((memory_view ten).files small_disk)
      ((memory_view ten).fds small_disk)
unfolding same_bytes
image_file_is_hdf-Returns_example =
    image_file_is_hdf-Returns (memory ten) (memory_view ten) healthy disk_path small_disk
      small_bytes refl prompt

hdf_image_open-hdf_image_create_example :
    (fd : ℕ) × (w' : Disk) × (hdf_image_create (memory ten) disk_path 3 small_disk
      ≡ ok (some (image_file fd 0x0216 512 3)) w')
    × Returns
        (memory ten)
        (memory_view ten)
        (image_file_is_hdf (memory ten) disk_path w')
        true
        ((memory_view ten).files w')
        ((memory_view ten).fds w')
    × ((fd' : ℕ) × ((memory_view ten).fds w' fd' ≡ none)
        × Returns
            (memory ten)
            (memory_view ten)
            (hdf_image_open (memory ten) disk_path true w')
            (some (image_file fd' 0x0216 512 3))
            ((memory_view ten).files w')
            (update ((memory_view ten).fds w') fd' (some (advance descriptor 11))))
hdf_image_open-hdf_image_create_example =
    hdf_image_open-hdf_image_create (memory ten) (memory_view ten) healthy prompt disk_path
      small_disk 3 true (omega arith)

geometry-Fits_example : Fits 131072 (geometry 131072)
geometry-Fits_example = geometry-Fits 131072

geometry_bounds_example :
    let g = geometry 131072 in
    (0 < g.head_count)
    × (g.head_count ≤ 16)
    × (0 < g.sectors_per_track)
    × (g.sectors_per_track ≤ 63)
    × (g.cyl_count ≤ 16384)
geometry_bounds_example = geometry_bounds 131072

header_bytes-Describes_example : Describes (header_bytes 131072) (geometry 131072) 131072
header_bytes-Describes_example = header_bytes-Describes 131072
