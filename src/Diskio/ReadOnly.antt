-- ===== src/Diskio/ReadOnly.antt =====
-- The sectors of a drive whose image is open for reading only: `disk_write` of src/diskio.c.
use hdfmonkey.Base.{
  ℕ, zero, suc, [], ◌∷◌, ◌*◌, ◌%◌, ◌^◌, ◌<◌, ◌≡◌, ap, ◌∙◌, List, false, some, length, take, ok,
  arith,
}
use hdfmonkey.Posix.{Posix, View, IsHealthy, IsGuarded, Descriptor}
use hdfmonkey.Volume.{Volume, bytes_per_sector}
use hdfmonkey.Volume.Offsets.{volume_fd, volume_offset, volume_write-eq}
use hdfmonkey.ImageFile.Io.Refused.{image_file_write_refused}
use hdfmonkey.Machine.{Machine}
use hdfmonkey.Diskio.{res_parerr, drive, disk_write, transfer_size, transfer_position, verdict}
use hdfmonkey.Diskio.Sectors.{write_run}

take_some : (n : ℕ) (xs : List ℕ) → 0 < n → 0 < length xs → 0 < length (take n xs)
take_some zero xs a b = absurd (omega arith)
take_some (suc n) [] a b = absurd (omega arith)
take_some (suc n) (x ∷ xs) a b = omega arith

module _ (P : Posix) (V : View P) (F : Type 0) (H : IsHealthy P V) (G : IsGuarded P V)
    (m : Machine P.World F) (drv sector count : ℕ) (v : Volume) (d : Descriptor)
    (mapped : drive m.drives drv ≡ some v) (opened : V.fds m.world (volume_fd v) ≡ some d)
    (closed : d.writeable ≡ false) where
  -- On a healthy disk, where a write to a descriptor that is not open for writing fails, writing
  -- some sectors to a mapped drive, partitions of partitions included, whose image is open for
  -- reading only, answers RES_PARERR, wherever the sectors lie, and leaves every file as it was.
  pub disk_write_read_only :
      (buff : List ℕ)
      → 0 < length buff
      → 0 < count * bytes_per_sector v % 2 ^ 32
      → (m' : Machine P.World F) × (disk_write P F drv buff sector count m ≡ ok res_parerr m')
        × (V.files m'.world ≡ V.files m.world)
  disk_write_read_only buff given some_sectors =
      let size = transfer_size P F v count in
      let bs = take size buff in
      let (r, w, run, large, files) =
        image_file_write_refused P V H G m.world (volume_fd v) (volume_offset v)
          (transfer_position P F v sector) d opened closed bs
          (take_some size buff some_sectors given) in
      let refused : verdict P F r size ≡ res_parerr = ground (arith, large) in
      (
        record m { world = w },
        write_run P F drv sector count buff m v r w mapped (rw volume_write-eq run)
            ∙ ap (λ t. ok t (record m { world = w })) refused,
        files,
      )
