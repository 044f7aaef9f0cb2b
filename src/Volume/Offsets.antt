-- ===== src/Volume/Offsets.antt =====
-- Every volume is a range of one image file.
use native.Mathlib.Nat.{add_assoc}
use hdfmonkey.Base.{ℕ, ◌+◌, ◌^◌, ◌≤◌, ◌<◌, ◌≡◌, refl, ap, ◌∙◌, true, List, some, length, pos}
use hdfmonkey.Base.Slices.{slice, splice}
use hdfmonkey.Posix.{Posix, View, IsHealthy, Descriptor, update, update_file}
use hdfmonkey.Posix.Views.{advance, Returns, Returns-eq}
use hdfmonkey.Volume.{Volume, image_file, partition}
use hdfmonkey.Volume.Dispatch.{volume_read, volume_write}
use hdfmonkey.ImageFile.Io.{image_file_read, image_file_write}
use hdfmonkey.ImageFile.Io.Reads.{image_file_read-Returns}
use hdfmonkey.ImageFile.Io.Writes.{image_file_write-Returns}

-- The descriptor that a volume rests on, and where in its file the volume begins.
abbrev pub volume_fd : Volume → ℕ
volume_fd (image_file fd _ _ _) = fd
volume_fd (partition parent _ _) = volume_fd parent

abbrev pub volume_offset : Volume → ℕ
volume_offset (image_file _ data_offset _ _) = data_offset
volume_offset (partition parent data_offset _) = data_offset + volume_offset parent

module _ (P : Posix) where
  -- Only the sum of the position and the offset matters.
  image_file_read_sum :
      (fd o p o' p' count : ℕ)
      → p + o ≡ p' + o'
      → image_file_read P fd o p count ≡ image_file_read P fd o' p' count
  unfolding image_file_read
  image_file_read_sum fd o p o' p' count e = rw e

  image_file_write_sum :
      (fd o p o' p' : ℕ) (bs : List ℕ)
      → p + o ≡ p' + o'
      → image_file_write P fd o p bs ≡ image_file_write P fd o' p' bs
  unfolding image_file_write
  image_file_write_sum fd o p o' p' bs e = rw e

  -- A read of any volume, partitions of partitions included, is the read of its image file at the
  -- sum of all offsets on the way.
  pub volume_read-eq :
      (v : Volume) (position count : ℕ)
      → volume_read P v position count
        ≡ image_file_read P (volume_fd v) (volume_offset v) position count
  unfolding volume_read
  volume_read-eq (image_file fd o b n) position count = refl
  volume_read-eq (partition parent o b) position count =
      volume_read-eq parent (position + o) count
      ∙ image_file_read_sum (volume_fd parent) (volume_offset parent) (position + o) _ position
          count (add_assoc position o (volume_offset parent))

  -- A write of any volume is the write of its image file at the sum of all offsets on the way.
  pub volume_write-eq :
      (v : Volume) (position : ℕ) (bs : List ℕ)
      → volume_write P v position bs
        ≡ image_file_write P (volume_fd v) (volume_offset v) position bs
  unfolding volume_write
  volume_write-eq (image_file fd o b n) position bs = refl
  volume_write-eq (partition parent o b) position bs =
      volume_write-eq parent (position + o) bs
      ∙ image_file_write_sum (volume_fd parent) (volume_offset parent) (position + o) _ position bs
          (add_assoc position o (volume_offset parent))

module _ (P : Posix) (V : View P) (H : IsHealthy P V) (w : P.World) (v : Volume) (d : Descriptor)
    (bytes : List ℕ) (opened : V.fds w (volume_fd v) ≡ some d)
    (present : V.files w d.path ≡ some bytes) where
  -- On a healthy disk a read through any volume, partitions of partitions included, returns `count`
  -- and exactly the bytes of its file from the sum of the position and all offsets on, if that range
  -- lies in the file and begins below 2 ^ 31; no file changes.
  pub volume_read-Returns :
      (position count : ℕ)
      → position + volume_offset v < 2 ^ 31
      → count < 2 ^ 31
      → position + volume_offset v + count ≤ length bytes
      → Returns P V
          (volume_read P v position count w)
          (pos count, slice (position + volume_offset v) count bytes)
          (V.files w)
          (update (V.fds w) (volume_fd v) (some (advance d (position + volume_offset v + count))))
  volume_read-Returns position count b c i =
      Returns-eq P V (ap (λ run. run w) (volume_read-eq P v position count)) refl refl refl (
        image_file_read-Returns P V H w (volume_fd v) (volume_offset v) position count d opened
          bytes present b c i)

  -- On a healthy disk a write through any volume whose file is open for writing, inside the file and
  -- below 2 ^ 31, returns the number of its bytes and changes exactly that range of the file.
  pub volume_write-Returns :
      (position : ℕ) (bs : List ℕ)
      → d.writeable ≡ true
      → position + volume_offset v < 2 ^ 31
      → length bs < 2 ^ 31
      → position + volume_offset v + length bs ≤ length bytes
      → Returns P V
          (volume_write P v position bs w)
          (pos (length bs))
          (update_file (V.files w) d.path (splice (position + volume_offset v) bs bytes))
          (update
            (V.fds w)
            (volume_fd v)
            (some (advance d (position + volume_offset v + length bs))))
  volume_write-Returns position bs u b c i =
      Returns-eq P V (ap (λ run. run w) (volume_write-eq P v position bs)) refl refl refl (
        image_file_write-Returns P V H w (volume_fd v) (volume_offset v) position bs d opened bytes
          u present b c i)
