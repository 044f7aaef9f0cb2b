-- ===== src/Volume/Dispatch.antt =====
-- The calls through a volume's function pointers, `v->read`, `v->write` and `v->close`, with the
-- functions of a partition, src/mbr.c.
use hdfmonkey.Base.{ℕ, ◌+◌, List, ℤ, fault, Cmd}
use hdfmonkey.Posix.{Posix}
use hdfmonkey.Volume.{Volume, image_file, partition}
use hdfmonkey.ImageFile.Io.{ReadCmd, image_file_read, image_file_write, image_file_close}

-- A partition reads and writes through its parent, further on by its offset.
unfoldable pub partition_read : {R : Type 0} → (ℕ → ℕ → R) → (data_offset position count : ℕ) → R
partition_read parent_read data_offset position count = parent_read (position + data_offset) count

unfoldable pub partition_write :
    {R : Type 0} → (ℕ → List ℕ → R) → (data_offset position : ℕ) → List ℕ → R
partition_write parent_write data_offset position bytes =
    parent_write (position + data_offset) bytes

module _ (P : Posix) where
  unfoldable pub volume_read : Volume → (position count : ℕ) → ReadCmd P
  unfolding image_file_read partition_read
  volume_read (image_file fd data_offset _ _) position count =
      image_file_read P fd data_offset position count
  volume_read (partition parent data_offset _) position count =
      partition_read (volume_read parent) data_offset position count

  unfoldable pub volume_write : Volume → (position : ℕ) → List ℕ → Cmd P.World ℤ
  unfolding image_file_write partition_write
  volume_write (image_file fd data_offset _ _) position bytes =
      image_file_write P fd data_offset position bytes
  volume_write (partition parent data_offset _) position bytes =
      partition_write (volume_write parent) data_offset position bytes

  -- A partition's `close` is an uninitialised pointer.
  unfoldable pub volume_close : Volume → Cmd P.World ℤ
  unfolding image_file_close
  volume_close (image_file fd _ _ _) = image_file_close P fd
  volume_close (partition _ _ _) = λ w. fault
