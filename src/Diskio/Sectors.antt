-- ===== src/Diskio/Sectors.antt =====
-- What the sector interface of src/diskio.c promises to the FAT driver.
use hdfmonkey.Base.{
  ℕ, ◌+◌, ◌*◌, ◌^◌, ◌≤◌, ◌<◌, ◌≡◌, ◌∙◌, true, List, Option, some, length, take, take_all, ℤ, pos,
  to_word, Run, ok, arith,
}
use hdfmonkey.Base.Slices.{slice, splice}
use hdfmonkey.Posix.{Posix, View, IsHealthy, CString, Descriptor, update, update_file}
use hdfmonkey.Posix.Views.{advance}
use hdfmonkey.Volume.{Volume, bytes_per_sector}
use hdfmonkey.Volume.Dispatch.{volume_read, volume_write}
use hdfmonkey.Volume.Offsets.{volume_fd, volume_offset, volume_read-Returns, volume_write-Returns}
use hdfmonkey.Machine.{Machine}
use hdfmonkey.Diskio.{
  res_ok, drive, disk_read, disk_write, transfer_size, transfer_position, verdict,
}

to_word_small : (n : ℕ) → n < 2 ^ 64 → to_word (pos n) ≡ n
unfolding to_word
to_word_small n h = omega arith

module _ (P : Posix) (F : Type 0) where
  pub read_run :
      (drv sector count : ℕ) (m : Machine P.World F) (v : Volume) (r : ℤ) (buff : List ℕ)
      (w : P.World)
      → drive m.drives drv ≡ some v
      → volume_read P v (transfer_position P F v sector) (transfer_size P F v count) m.world
        ≡ ok (r, buff) w
      → disk_read P F drv sector count m
        ≡ ok (verdict P F r (transfer_size P F v count), buff) (record m { world = w })
  unfolding disk_read
  read_run drv sector count m v r buff w e f = ground arith

  pub write_run :
      (drv sector count : ℕ) (buff : List ℕ) (m : Machine P.World F) (v : Volume) (r : ℤ)
      (w : P.World)
      → drive m.drives drv ≡ some v
      → volume_write P v
          (transfer_position P F v sector)
          (take (transfer_size P F v count) buff)
          m.world
        ≡ ok r w
      → disk_write P F drv buff sector count m
        ≡ ok (verdict P F r (transfer_size P F v count)) (record m { world = w })
  unfolding disk_write
  write_run drv sector count buff m v r w e f = ground arith

module _ (P : Posix) (V : View P) (F : Type 0) where
  -- A run from `m` has returned `r`; these are then the files and descriptors, and the drives and
  -- the driver's state are as before.
  pub record DiskReturns {R : Type 0} (m : Machine P.World F) (run : Run (Machine P.World F) R)
      (r : R) (files : CString → Option (List ℕ)) (fds : ℕ → Option Descriptor) : Type 0 where
    pub world_after : P.World
    pub result : run ≡ ok r (record m { world = world_after })
    pub files_after : V.files world_after ≡ files
    pub fds_after : V.fds world_after ≡ fds

  -- A drive that is mapped to a volume over an open file.
  pub record IsMapped (m : Machine P.World F) (drv : ℕ) (v : Volume) (d : Descriptor)
      (bytes : List ℕ) : Type 0 where
    pub mapped : drive m.drives drv ≡ some v
    pub opened : V.fds m.world (volume_fd v) ≡ some d
    pub present : V.files m.world d.path ≡ some bytes

  -- The sectors lie in the file, below 2 ^ 31.
  pub record InRange (v : Volume) (bytes : List ℕ) (sector count : ℕ) : Type 0 where
    pub begins : sector * bytes_per_sector v + volume_offset v < 2 ^ 31
    pub size : count * bytes_per_sector v < 2 ^ 31
    pub ends :
        sector * bytes_per_sector v + volume_offset v + count * bytes_per_sector v ≤ length bytes

  module _ (H : IsHealthy P V) (m : Machine P.World F) (drv : ℕ) (v : Volume) (d : Descriptor)
      (bytes : List ℕ) (M : IsMapped m drv v d bytes) where
    abbrev start : ℕ → ℕ
    start sector = sector * bytes_per_sector v + volume_offset v

    abbrev bytes_of : ℕ → ℕ
    bytes_of count = count * bytes_per_sector v

    -- On a healthy disk, for sectors that lie in the file and begin below 2 ^ 31, `disk_read` of a
    -- mapped drive succeeds and delivers exactly the bytes of these sectors; no file changes.
    pub disk_read-DiskReturns :
        (sector count : ℕ)
        → InRange v bytes sector count
        → DiskReturns m
            (disk_read P F drv sector count m)
            (res_ok, slice (start sector) (bytes_of count) bytes)
            (V.files m.world)
            (update
              (V.fds m.world)
              (volume_fd v)
              (some (advance d (start sector + bytes_of count))))
    disk_read-DiskReturns sector count i =
        let x =
          volume_read-Returns P V H m.world v d bytes M.opened M.present
            (sector * bytes_per_sector v) (bytes_of count) i.begins i.size i.ends in
        let b = i.begins in
        let s = i.size in
        let p : transfer_position P F v sector ≡ sector * bytes_per_sector v = omega arith in
        let n : transfer_size P F v count ≡ bytes_of count = omega arith in
        record {
          world_after = x.after;
          result =
              read_run P F drv sector count m v (pos (bytes_of count))
                (slice (start sector) (bytes_of count) bytes) x.after M.mapped (rw (p, n) x.result)
              ∙ rw (n, to_word_small (bytes_of count) (omega arith)) (ground arith);
          files_after = x.files_after;
          fds_after = x.fds_after;
        }

    -- On a healthy disk, for sectors that lie in a file open for writing and begin below 2 ^ 31 and a
    -- buffer of as many bytes, `disk_write` of a mapped drive succeeds: exactly the bytes of these sectors become those of the buffer.
    pub disk_write-DiskReturns :
        (sector count : ℕ) (buff : List ℕ)
        → d.writeable ≡ true
        → length buff ≡ bytes_of count
        → InRange v bytes sector count
        → DiskReturns m
            (disk_write P F drv buff sector count m)
            res_ok
            (update_file (V.files m.world) d.path (splice (start sector) buff bytes))
            (update
              (V.fds m.world)
              (volume_fd v)
              (some (advance d (start sector + bytes_of count))))
    disk_write-DiskReturns sector count buff u l i =
        let b = i.begins in
        let s = i.size in
        let e = i.ends in
        let x =
          volume_write-Returns P V H m.world v d bytes M.opened M.present
            (sector * bytes_per_sector v) buff u i.begins (omega arith) (omega arith) in
        let p : transfer_position P F v sector ≡ sector * bytes_per_sector v = omega arith in
        let n : transfer_size P F v count ≡ bytes_of count = omega arith in
        let whole : take (bytes_of count) buff ≡ buff =
          take_all (bytes_of count) buff (omega arith) in
        record {
          world_after = x.after;
          result =
              write_run P F drv sector count buff m v (pos (length buff)) x.after M.mapped
                (rw (p, n, whole) x.result)
              ∙ rw (n, l, to_word_small (bytes_of count) (omega arith)) (ground arith);
          files_after = x.files_after;
          fds_after = x.fds_after ∙ rw l;
        }
