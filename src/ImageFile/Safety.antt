-- ===== src/ImageFile/Safety.antt =====
-- The functions of src/image_file.c do not fault, whatever the system calls return, and the volumes
-- that they fill in are image files.
use hdfmonkey.Base.{
  ℕ, zero, suc, ◌+◌, ◌≡◌, refl, inl, inr, List, ◌++◌, Bool, true, false, Option, none, some, length,
  drop, to_int, sub_word, arith, Option-cases,
}
use hdfmonkey.Base.Safety.{holds, anything, ℤ-cases}
use hdfmonkey.Posix.{Posix, CString}
use hdfmonkey.Volume.{Volume, image_file, partition}
use hdfmonkey.Volume.Dispatch.{volume_read, volume_write, volume_close}
use hdfmonkey.ImageFile.Io.{
  read_loop, image_file_read, write_loop, image_file_write, image_file_close,
}
use hdfmonkey.ImageFile.Header.{hdf_header_size, header_bytes}
use hdfmonkey.ImageFile.Images.{
  raw_image_open, raw_image_create, hdf_image_open, header_loop, hdf_write_header, hdf_image_create,
  image_file_is_hdf,
}

-- No partition: all fields of the volume are set.
abbrev pub is_image : Volume → Bool
is_image (image_file fd data_offset b n) = true
is_image (partition parent data_offset b) = false

abbrev pub no_partition : Option Volume → Bool
no_partition none = true
no_partition (some v) = is_image v

module _ (P : Posix) where
  read_loop_safe :
      (fuel fd count done : ℕ) (buf : List ℕ) (w : P.World)
      → holds anything (read_loop P fuel fd count done buf w) ≡ true
  unfolding read_loop
  read_loop_safe zero fd count done buf w = refl
  read_loop_safe (suc fuel) fd count done buf w = elim (Option-cases (P.read fd count w).0) [
    | inl e ↦ ground arith
    | inr (bs, e) ↦ elim (ℤ-cases (to_int (length bs))) [
      | inl (n, t) ↦ ground (
        arith,
        read_loop_safe fuel fd (sub_word count n) (done + n) (buf ++ bs) (P.read fd count w).1,
      )
      | inr (n, t) ↦ ground arith
    ]
  ]

  write_loop_safe :
      (fuel fd : ℕ) (bytes : List ℕ) (count done : ℕ) (w : P.World)
      → holds anything (write_loop P fuel fd bytes count done w) ≡ true
  unfolding write_loop
  write_loop_safe zero fd bytes count done w = refl
  write_loop_safe (suc fuel) fd bytes count done w = elim (Option-cases (P.write fd bytes w).0) [
    | inl e ↦ ground arith
    | inr (m, e) ↦ elim (ℤ-cases (to_int m)) [
      | inl (n, t) ↦ ground (
        arith,
        write_loop_safe fuel fd (drop n bytes) (sub_word count n) (done + n) (P.write fd bytes w).1,
      )
      | inr (n, t) ↦ ground arith
    ]
  ]

  header_loop_safe :
      (fuel fd written : ℕ) (rest : List ℕ) (w : P.World)
      → holds anything (header_loop P fuel fd written rest w) ≡ true
  unfolding header_loop
  header_loop_safe zero fd written rest w = refl
  header_loop_safe (suc fuel) fd written rest w = elim (Option-cases (P.write fd rest w).0) [
    | inl e ↦ ground arith
    | inr (m, e) ↦ elim (ℤ-cases (to_int m)) [
      | inl (n, t) ↦
          ground (arith, header_loop_safe fuel fd (written + n) (drop n rest) (P.write fd rest w).1)
      | inr (n, t) ↦ ground arith
    ]
  ]

  pub volume_read_safe :
      (v : Volume) (position count : ℕ) (w : P.World)
      → is_image v ≡ true
      → holds anything (volume_read P v position count w) ≡ true
  unfolding volume_read image_file_read
  volume_read_safe (image_file fd data_offset b n) position count w h =
      grind (arith, read_loop_safe)
  volume_read_safe (partition parent data_offset b) position count w h = cc

  pub volume_write_safe :
      (v : Volume) (position : ℕ) (bytes : List ℕ) (w : P.World)
      → is_image v ≡ true
      → holds anything (volume_write P v position bytes w) ≡ true
  unfolding volume_write image_file_write
  volume_write_safe (image_file fd data_offset b n) position bytes w h =
      grind (arith, write_loop_safe)
  volume_write_safe (partition parent data_offset b) position bytes w h = cc

  pub volume_close_safe :
      (v : Volume) (w : P.World) → is_image v ≡ true → holds anything (volume_close P v w) ≡ true
  unfolding volume_close image_file_close
  volume_close_safe (image_file fd data_offset b n) w h = refl
  volume_close_safe (partition parent data_offset b) w h = cc

  -- What the functions that fill in a volume promise.
  abbrev pub fills : Option Volume → P.World → Bool
  fills r w = no_partition r

  pub raw_image_open_safe :
      (path : CString) (b : Bool) (w : P.World) → holds fills (raw_image_open P path b w) ≡ true
  unfolding raw_image_open
  raw_image_open_safe path b w = ground arith

  pub hdf_image_open_safe :
      (path : CString) (b : Bool) (w : P.World) → holds fills (hdf_image_open P path b w) ≡ true
  unfolding hdf_image_open
  hdf_image_open_safe path b w = ground arith

  pub raw_image_create_safe :
      (path : CString) (n : ℕ) (w : P.World) → holds fills (raw_image_create P path n w) ≡ true
  unfolding raw_image_create
  raw_image_create_safe path n w = ground arith

  hdf_write_header_safe :
      (fd n : ℕ) (w : P.World) → holds anything (hdf_write_header P fd n w) ≡ true
  unfolding hdf_write_header
  hdf_write_header_safe fd n w = header_loop_safe (suc hdf_header_size) fd 0 (header_bytes n) w

  pub hdf_image_create_safe :
      (path : CString) (n : ℕ) (w : P.World) → holds fills (hdf_image_create P path n w) ≡ true
  unfolding hdf_image_create
  hdf_image_create_safe path n w = grind (arith, hdf_write_header_safe)

  pub image_file_is_hdf_safe :
      (path : CString) (w : P.World) → holds anything (image_file_is_hdf P path w) ≡ true
  unfolding image_file_is_hdf
  image_file_is_hdf_safe path w = ground arith
