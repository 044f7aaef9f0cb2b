-- ===== src/Diskio/RoundTrip.antt =====
-- Sectors written through src/diskio.c are read back, and others are not touched; where the file is
-- 2GB or longer, both calls fail.
use mathlib.Core.Path.{subst}
use hdfmonkey.Base.{
  ℕ, sym, ◌-◌, to_int, to_word-to_int_large, ◌+◌, ◌*◌, ◌%◌, ◌^◌, ◌≤◌, ◌<◌, ◌≡◌, ap, ◌∙◌, ◌⊎◌, inl,
  inr, true, List, [], some, length, word_modulus, ok, arith, take,
}
use hdfmonkey.Base.Slices.{
  slice, splice, slice-splice_self, slice-splice_before, slice-splice_after, length-splice,
}
use hdfmonkey.Posix.{Posix, View, IsHealthy, Descriptor, update, update_file}
use hdfmonkey.Posix.Views.{advance, file-update, lookup-update}
use hdfmonkey.Volume.{Volume, bytes_per_sector}
use hdfmonkey.Volume.Offsets.{volume_fd, volume_offset, volume_read-eq, volume_write-eq}
use hdfmonkey.ImageFile.Io.Reads.{image_file_read_beyond}
use hdfmonkey.ImageFile.Io.Writes.{image_file_write_beyond}
use hdfmonkey.Machine.{Machine}
use hdfmonkey.Diskio.{res_ok, res_parerr, drive, disk_read, disk_write, transfer_size, verdict}
use hdfmonkey.Diskio.Sectors.{
  DiskReturns, IsMapped, InRange, disk_read-DiskReturns, disk_write-DiskReturns, read_run,
  write_run,
}

sum_times : (a n k b : ℕ) → a * b + n * b ≤ (a + n + k) * b
sum_times a n k b = omega arith

-- Sectors that end before others do so in bytes, too.
sectors_before : (a n c b : ℕ) → a + n ≤ c → a * b + n * b ≤ c * b
sectors_before a n c b h =
    let rest : c ≡ a + n + (c - (a + n)) = omega arith in
    subst (λ t. a * b + n * b ≤ t * b) (sym rest) (sum_times a n (c - (a + n)) b)

module _ (P : Posix) (V : View P) (F : Type 0) (H : IsHealthy P V) (m : Machine P.World F) (drv : ℕ)
    (v : Volume) (d : Descriptor) (bytes : List ℕ) (M : IsMapped P V F m drv v d bytes)
    (sector count : ℕ) (buff : List ℕ) (writeable : d.writeable ≡ true)
    (whole : length buff ≡ count * bytes_per_sector v)
    (range : InRange P V F v bytes sector count) where
  abbrev start : ℕ → ℕ
  start s = s * bytes_per_sector v + volume_offset v

  abbrev written : List ℕ
  written = splice (start sector) buff bytes

  -- A drive stays mapped over its file as written.
  still-IsMapped :
      (x : DiskReturns P V F m
        (disk_write P F drv buff sector count m)
        res_ok
        (update_file (V.files m.world) d.path written)
        (update
          (V.fds m.world)
          (volume_fd v)
          (some (advance d (start sector + count * bytes_per_sector v)))))
      → IsMapped P V F
          (record m { world = x.world_after })
          drv
          v
          (advance d (start sector + count * bytes_per_sector v))
          written
  still-IsMapped x = record {
    mapped = M.mapped;
    opened = rw x.fds_after (lookup-update (V.fds m.world) (volume_fd v) _);
    present = rw x.files_after (file-update (V.files m.world) d.path written);
  }

  range_written : (s n : ℕ) → InRange P V F v bytes s n → InRange P V F v written s n
  range_written s n r = record {
    begins = r.begins;
    size = r.size;
    ends = rw (length-splice (start sector) buff bytes) r.ends;
  }

  -- A read of sectors in range after the write.
  read_after :
      (s n : ℕ)
      → InRange P V F v bytes s n
      → (m' : Machine P.World F) × (m'' : Machine P.World F) × (disk_write P F drv buff sector count
            m
          ≡ ok res_ok m')
        × (disk_read P F drv s n m'
            ≡ ok (res_ok, slice (start s) (n * bytes_per_sector v) written) m'')
  read_after s n r =
      let x =
        disk_write-DiskReturns P V F H m drv v d bytes M sector count buff writeable whole range in
      let m' = record m { world = x.world_after } in
      let y =
        disk_read-DiskReturns P V F H m' drv v _ written (still-IsMapped x) s n
          (range_written s n r) in
      (m', record m { world = y.world_after }, x.result, y.result)

  -- On a healthy disk, sectors in range that are written to a drive succeed, and reading them again
  -- delivers what was written.
  pub disk_read-disk_write_self :
      (m' : Machine P.World F) × (m'' : Machine P.World F) × (disk_write P F drv buff sector count m
        ≡ ok res_ok m')
      × (disk_read P F drv sector count m' ≡ ok (res_ok, buff) m'')
  disk_read-disk_write_self =
      let (m', m'', w, r) = read_after sector count range in
      let e = range.ends in
      (
        m',
        m'',
        w,
        r
            ∙ ap (λ t. ok (res_ok, t) m'')
                (slice-splice_self (start sector) (count * bytes_per_sector v) buff bytes
                  (omega arith) (omega arith)),
      )

  -- On a healthy disk, after sectors in range are written to a drive, reading any sectors in range
  -- beside them delivers what the file held there before the write.
  pub disk_read-disk_write_other :
      (s n : ℕ)
      → InRange P V F v bytes s n
      → (s + n ≤ sector) ⊎ (sector + count ≤ s)
      → (m' : Machine P.World F) × (m'' : Machine P.World F) × (disk_write P F drv buff sector count
            m
          ≡ ok res_ok m')
        × (disk_read P F drv s n m'
            ≡ ok (res_ok, slice (start s) (n * bytes_per_sector v) bytes) m'')
  disk_read-disk_write_other s n r (inl before) =
      let (m', m'', w, e) = read_after s n r in
      (
        m',
        m'',
        w,
        e
            ∙ ap (λ t. ok (res_ok, t) m'')
                (slice-splice_before (start s) (n * bytes_per_sector v) (start sector) buff bytes
                  (omega (arith, sectors_before s n sector (bytes_per_sector v) before))),
      )
  disk_read-disk_write_other s n r (inr after) =
      let (m', m'', w, e) = read_after s n r in
      (
        m',
        m'',
        w,
        e
            ∙ ap (λ t. ok (res_ok, t) m'')
                (slice-splice_after (start s) (n * bytes_per_sector v) (start sector) buff bytes
                  (omega (arith, sectors_before sector count s (bytes_per_sector v) after))),
      )

module _ (P : Posix) (V : View P) (F : Type 0) (H : IsHealthy P V) (m : Machine P.World F)
    (drv sector count : ℕ) (v : Volume) (d : Descriptor) (mapped : drive m.drives drv ≡ some v)
    (opened : V.fds m.world (volume_fd v) ≡ some d) (in_word : sector * bytes_per_sector v < 2 ^ 64)
    (beyond : 2 ^ 31 ≤ (sector * bytes_per_sector v + volume_offset v) % 2 ^ 32) where
  abbrev offset : ℕ
  offset = sector * bytes_per_sector v + volume_offset v

  refused : verdict P F (to_int offset) (transfer_size P F v count) ≡ res_parerr
  refused = ground (arith, to_word-to_int_large offset beyond)

  -- Wherever bit 31 of the sectors' offset in the file is set, so in particular from 2GB to 4GB,
  -- `disk_read` of a mapped drive over an open file answers with the error code RES_PARERR and no
  -- data, also for sectors inside the file; no file changes.
  pub disk_read_beyond :
      (m' : Machine P.World F) × (disk_read P F drv sector count m ≡ ok (res_parerr, []) m')
      × (V.files m'.world ≡ V.files m.world)
  disk_read_beyond =
      let position = sector * bytes_per_sector v in
      let p : position % word_modulus ≡ position = omega arith in
      let (w, run, negative, files) =
        image_file_read_beyond P V H m.world (volume_fd v) (volume_offset v) position
          (transfer_size P F v count) d opened beyond in
      (
        record m { world = w },
        read_run P F drv sector count m v (to_int offset) [] w mapped (rw (p, volume_read-eq) run)
            ∙ ap (λ t. ok (t, []) (record m { world = w })) refused,
        files,
      )

  -- Wherever bit 31 of the sectors' offset in the file is set, `disk_write` of a mapped drive over an
  -- open file answers RES_PARERR and leaves every file as it was.
  pub disk_write_beyond :
      (buff : List ℕ)
      → (m' : Machine P.World F) × (disk_write P F drv buff sector count m ≡ ok res_parerr m')
        × (V.files m'.world ≡ V.files m.world)
  disk_write_beyond buff =
      let position = sector * bytes_per_sector v in
      let p : position % word_modulus ≡ position = omega arith in
      let (w, run, negative, files) =
        image_file_write_beyond P V H m.world (volume_fd v) (volume_offset v) position
          (take (transfer_size P F v count) buff) d opened beyond in
      (
        record m { world = w },
        write_run P F drv sector count buff m v (to_int offset) w mapped
              (rw (p, volume_write-eq) run)
            ∙ ap (λ t. ok t (record m { world = w })) refused,
        files,
      )
