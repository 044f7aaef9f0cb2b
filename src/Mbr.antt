-- ===== src/Mbr.antt =====
-- src/mbr.c: the partition table in the first sector of a volume.
pub mod Table
use Prim.Native.Nat.{bit_or}
use hdfmonkey.Base.{
  ℕ, ◌+◌, ◌-◌, ◌*◌, ◌%◌, ◌^◌, List, Bool, true, false, ◌&&◌, ◌||◌, Option, none, some, ltb, ◌==◌,
  if◌then◌else◌, get_or, text, ℤ, pos, negsuc, word_modulus, Cmd, pure, ◌>>=◌, ◌>>◌, perform,
}
use hdfmonkey.Posix.{Posix}
use hdfmonkey.Volume.{Volume, partition, bytes_per_sector}
use hdfmonkey.Volume.Dispatch.{volume_read}

pub record PartitionInfo : Type 0 where
  pub volume : Volume
  pub status : ℕ
  -- the source's `type`
  pub kind : ℕ
  pub start_sector : ℕ
  pub sector_count : ℕ

-- The result of a call compared with a size.
abbrev pub is_size : ℤ → ℕ → Bool
is_size (pos n) m = n == m
is_size (negsuc n) m = false

-- `b0 | (b1 << 8) | (b2 << 16) | (b3 << 24)`, which is an `int`, as an `unsigned long`: where bit 31
-- is set the `int` is negative, and its sign fills the upper half.
unfoldable pub read_word : (b0 b1 b2 b3 : ℕ) → ℕ
read_word b0 b1 b2 b3 =
    let n = bit_or (bit_or (bit_or b0 (b1 * 2 ^ 8)) (b2 * 2 ^ 16)) (b3 * 2 ^ 24) in
    if ltb n (2 ^ 31) then n else n + (word_modulus - 2 ^ 32)

unfoldable pub parse_record : Volume → List ℕ → PartitionInfo
unfolding read_word
parse_record v record_data =
    let byte = λ (i : ℕ). get_or record_data i 0 in
    record {
      volume = v;
      status = byte 0x00;
      kind = byte 0x04;
      start_sector = read_word (byte 0x08) (byte 0x09) (byte 0x0a) (byte 0x0b);
      sector_count = read_word (byte 0x0c) (byte 0x0d) (byte 0x0e) (byte 0x0f);
    }

unfoldable pub partition_info_is_fat : PartitionInfo → Bool
partition_info_is_fat p =
    p.status == 0x80
    && (p.kind == 0x01
        || p.kind == 0x04
        || p.kind == 0x05
        || p.kind == 0x06
        || p.kind == 0x0b
        || p.kind == 0x0c
        || p.kind == 0x0e)

-- Fills in the volume; the result is always 0.
unfoldable pub partition_open : PartitionInfo → Volume
partition_open p =
    let b = bytes_per_sector p.volume in partition p.volume (p.start_sector * b % word_modulus) b

abbrev pub partition_close : Volume → ℤ
partition_close v = pos 0

module _ (P : Posix) where
  unfoldable pub volume_is_bootable : Volume → Cmd P.World Bool
  unfolding volume_read
  volume_is_bootable v = if ltb (bytes_per_sector v) 0x200 then pure false else do
    (r, signature) ← volume_read P v 0x1fe 2
    if is_size r 2
        then pure (get_or signature 0 0 == 0x55 && get_or signature 1 0 == 0xaa)
        else (do perform (P.perror (text "Error reading volume boot record")); pure false)

  -- `none` stands for the result -1.
  unfoldable pub mbr_partition_info :
      Volume → (partition_number : ℕ) → Cmd P.World (Option PartitionInfo)
  unfolding volume_is_bootable parse_record
  mbr_partition_info v partition_number = do
    bootable ← volume_is_bootable v
    if bootable
        then (do
          (r, record_data) ← volume_read P v (0x1be + partition_number * 16) 16
          if is_size r 16
              then pure (some (parse_record v record_data))
              else (do perform (P.perror (text "Error reading volume boot record")); pure none))
        else (do
          perform (P.perror (text "Cannot fetch partition info - volume does not have an MBR"))
          pure none)
