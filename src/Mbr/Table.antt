-- ===== src/Mbr/Table.antt =====
-- What src/mbr.c reads in a partition table.
use hdfmonkey.Base.{
  ℕ, refl, ◌+◌, ◌-◌, ◌*◌, ◌^◌, ◌≤◌, ◌<◌, ◌≡◌, ap, ◌∙◌, Bool, true, false, ◌&&◌, List, some, none,
  length, get_or, text, pos, ok, arith, ltb, ◌==◌, if◌then◌else◌, le→ltb_false,
}
use hdfmonkey.Base.Bits.{disjoint_bit_or}
use hdfmonkey.Base.Slices.{slice, get_or-slice}
use hdfmonkey.Posix.{Posix, View, IsHealthy, Descriptor, update}
use hdfmonkey.Posix.Views.{advance, Returns, lookup-update}
use hdfmonkey.Volume.{Volume, bytes_per_sector}
use hdfmonkey.Volume.Dispatch.{volume_read}
use hdfmonkey.Volume.Offsets.{volume_fd, volume_offset, volume_read-Returns}
use hdfmonkey.Mbr.{
  PartitionInfo, read_word, parse_record, partition_open, volume_is_bootable, mbr_partition_info,
}

-- The number that four bytes stand for, the lowest first.
abbrev pub four_bytes : (b0 b1 b2 b3 : ℕ) → ℕ
four_bytes b0 b1 b2 b3 = b0 + b1 * 2 ^ 8 + b2 * 2 ^ 16 + b3 * 2 ^ 24

-- Four bytes are read as the number that they stand for in little-endian order if that is below
-- 2 ^ 31, and as that number with all bits of the upper half of the word set if it is not.
pub read_word_lem :
    (b0 b1 b2 b3 : ℕ)
    → b0 < 256
    → b1 < 256
    → b2 < 256
    → b3 < 256
    → read_word b0 b1 b2 b3
      ≡ (let n = four_bytes b0 b1 b2 b3 in if ltb n (2 ^ 31) then n else n + (2 ^ 64 - 2 ^ 32))
unfolding read_word
read_word_lem b0 b1 b2 b3 h0 h1 h2 h3 = rw (
  disjoint_bit_or 8 b1 b0 (omega arith),
  disjoint_bit_or 16 b2 (b0 + b1 * 2 ^ 8) (omega arith),
  disjoint_bit_or 24 b3 (b0 + b1 * 2 ^ 8 + b2 * 2 ^ 16) (omega arith),
)

-- A partition's data begins at the product of its first sector and the sector size, in its parent.
pub volume_offset-partition_open :
    (p : PartitionInfo)
    → p.start_sector * bytes_per_sector p.volume < 2 ^ 64
    → volume_offset (partition_open p)
      ≡ p.start_sector * bytes_per_sector p.volume + volume_offset p.volume
unfolding partition_open
volume_offset-partition_open p h = omega arith

module _ (P : Posix) where
  bootable_run :
      (v : Volume) (w w1 : P.World) (signature : List ℕ)
      → 512 ≤ bytes_per_sector v
      → volume_read P v 0x1fe 2 w ≡ ok (pos 2, signature) w1
      → volume_is_bootable P v w
        ≡ ok (get_or signature 0 0 == 0x55 && get_or signature 1 0 == 0xaa) w1
  unfolding volume_is_bootable
  bootable_run v w w1 signature b r = rw (le→ltb_false (bytes_per_sector v) 0x200 b, r)

  info_run :
      (v : Volume) (n : ℕ) (w w1 w2 : P.World) (record_data : List ℕ)
      → volume_is_bootable P v w ≡ ok true w1
      → volume_read P v (0x1be + n * 16) 16 w1 ≡ ok (pos 16, record_data) w2
      → mbr_partition_info P v n w ≡ ok (some (parse_record v record_data)) w2
  unfolding mbr_partition_info
  info_run v n w w1 w2 record_data b r = rw (b, r)

  no_info_run :
      (v : Volume) (n : ℕ) (w w1 : P.World)
      → volume_is_bootable P v w ≡ ok false w1
      → mbr_partition_info P v n w
        ≡ ok none (P.perror (text "Cannot fetch partition info - volume does not have an MBR") w1)
  unfolding mbr_partition_info
  no_info_run v n w w1 b = rw b

module _ (v : Volume) (bytes : List ℕ) where
  -- The byte of the file at this position of the volume.
  abbrev byte_at : ℕ → ℕ
  byte_at position = get_or bytes (position + volume_offset v) 0

  -- A table entry of 16 bytes as it lies in the file.
  pub record IsEntry (position : ℕ) (p : PartitionInfo) : Type 0 where
    pub volume : p.volume ≡ v
    pub status : p.status ≡ byte_at position
    pub kind : p.kind ≡ byte_at (position + 4)
    pub start_sector :
        p.start_sector
        ≡ read_word
            (byte_at (position + 8))
            (byte_at (position + 9))
            (byte_at (position + 10))
            (byte_at (position + 11))
    pub sector_count :
        p.sector_count
        ≡ read_word
            (byte_at (position + 12))
            (byte_at (position + 13))
            (byte_at (position + 14))
            (byte_at (position + 15))

module _ (P : Posix) (V : View P) (H : IsHealthy P V) (w : P.World) (v : Volume) (d : Descriptor)
    (bytes : List ℕ) (opened : V.fds w (volume_fd v) ≡ some d)
    (present : V.files w d.path ≡ some bytes) (large : 512 ≤ bytes_per_sector v)
    (low : volume_offset v + 512 < 2 ^ 31) (long : volume_offset v + 512 ≤ length bytes) where
  -- The bytes of the volume's first sector.
  abbrev at : (position count : ℕ) → List ℕ
  at position count = slice (position + volume_offset v) count bytes

  abbrev has_signature : Bool
  has_signature = get_or (at 0x1fe 2) 0 0 == 0x55 && get_or (at 0x1fe 2) 1 0 == 0xaa

  bootable-Returns :
      Returns P V
        (volume_is_bootable P v w)
        has_signature
        (V.files w)
        (update (V.fds w) (volume_fd v) (some (advance d (0x1fe + volume_offset v + 2))))
  bootable-Returns =
      let x =
        volume_read-Returns P V H w v d bytes opened present 0x1fe 2 (omega arith) (omega arith)
          (omega arith) in
      record {
        after = x.after;
        result = bootable_run P v w x.after (at 0x1fe 2) large x.result;
        files_after = x.files_after;
        fds_after = x.fds_after;
      }

  -- On a healthy disk, for a volume whose first sector of 512 bytes lies in its file,
  -- `volume_is_bootable` tells whether its last two bytes are 0x55 and 0xaa; no file changes.
  volume_is_bootable_lem :
      (w' : P.World) × (volume_is_bootable P v w ≡ ok has_signature w') × (V.files w' ≡ V.files w)
  volume_is_bootable_lem = let x = bootable-Returns in (x.after, x.result, x.files_after)

  parse_record-IsEntry : (position : ℕ) → IsEntry v bytes position (parse_record v (at position 16))
  unfolding parse_record
  parse_record-IsEntry position =
      let byte : (k : ℕ) → k < 16 → get_or (at position 16) k 0 ≡ byte_at v bytes (position + k) =
        λ k h.
          get_or-slice (position + volume_offset v) 16 k bytes h
          ∙ ap (λ i. get_or bytes i 0) (omega arith) in
      record {
        volume = refl;
        status = byte 0 (omega arith) ∙ ap (λ i. get_or bytes i 0) (omega arith);
        kind = byte 4 (omega arith);
        start_sector =
            rw
              (
                byte 8 (omega arith),
                byte 9 (omega arith),
                byte 10 (omega arith),
                byte 11 (omega arith),
              )
              refl;
        sector_count =
            rw
              (
                byte 12 (omega arith),
                byte 13 (omega arith),
                byte 14 (omega arith),
                byte 15 (omega arith),
              )
              refl;
      }

  -- On a healthy disk, for a volume whose first sector of 512 bytes lies in its file below 2 ^ 31 and
  -- ends in the signature, the entry of each of the four partitions is found at 0x1be and every 16
  -- bytes behind it: the status is its byte 0, the type its byte 4, the start sector the number that
  -- `read_word` makes of its bytes 8 to 11, and the sector count that of its bytes 12 to 15; no file
  -- changes.
  pub mbr_partition_info_lem :
      (n : ℕ)
      → n < 4
      → has_signature ≡ true
      → (p : PartitionInfo) × (w' : P.World) × (mbr_partition_info P v n w ≡ ok (some p) w')
        × IsEntry v bytes (0x1be + n * 16) p
        × (V.files w' ≡ V.files w)
  mbr_partition_info_lem n h signed =
      let b = bootable-Returns in
      let x =
        volume_read-Returns P V H b.after v (advance d (0x1fe + volume_offset v + 2)) bytes
          (rw b.fds_after (lookup-update (V.fds w) (volume_fd v) _)) (rw b.files_after present)
          (0x1be + n * 16) 16 (omega arith) (omega arith) (omega arith) in
      (
        parse_record v (at (0x1be + n * 16) 16),
        x.after,
        info_run P v n w b.after x.after (at (0x1be + n * 16) 16)
            (b.result ∙ ap (λ t. ok t b.after) signed) x.result,
        parse_record-IsEntry (0x1be + n * 16),
        x.files_after ∙ b.files_after,
      )

  -- On a healthy disk, for a volume whose first sector of 512 bytes lies in its file below 2 ^ 31 and
  -- does not end in the signature, there is no entry: the result is -1, and no file changes.
  pub mbr_partition_info-none :
      (n : ℕ)
      → has_signature ≡ false
      → (w' : P.World) × (mbr_partition_info P v n w ≡ ok none w') × (V.files w' ≡ V.files w)
  mbr_partition_info-none n unsigned =
      let b = bootable-Returns in
      let message = text "Cannot fetch partition info - volume does not have an MBR" in
      (
        P.perror message b.after,
        no_info_run P v n w b.after (b.result ∙ ap (λ t. ok t b.after) unsigned),
        (H.perror_same b.after message).files ∙ b.files_after,
      )
