-- ===== src/ImageFile/Images.antt =====
-- The functions of src/image_file.c that open and create images. `none` stands for the result -1,
-- `some v` for 0 with the volume container filled in.
pub mod Create
pub mod Open
pub mod RoundTrip
pub mod Fields
use Prim.Native.Nat.{bit_and, bit_or}
use hdfmonkey.Base.{
  ℕ, zero, suc, ◌+◌, ◌-◌, ◌*◌, ◌/◌, ◌%◌, ◌^◌, List, Bool, true, false, Option, none, some, ltb, leb,
  ◌==◌, if◌then◌else◌, length, drop, get_or, text, same_bytes, ℤ, pos, negsuc, minus_one, to_int,
  is_negative, word_modulus, out_of_fuel, Cmd, pure, ◌>>=◌, ◌>>◌, call, perform,
}
use hdfmonkey.Posix.{Posix, CString, read_only, read_write, create_truncate}
use hdfmonkey.Volume.{Volume, image_file}
use hdfmonkey.ImageFile.Header.{hdf_signature, hdf_header_size, header_bytes}

-- `(st_size - data_offset) / bytes_per_sector`, signed, as an `unsigned long`.
unfoldable pub hdf_sector_count : (size data_offset bytes_per_sector : ℕ) → ℕ
hdf_sector_count size data_offset bytes_per_sector =
    if leb data_offset size
    then (size - data_offset) / bytes_per_sector
    else (word_modulus - (data_offset - size) / bytes_per_sector) % word_modulus

-- The volume that `hdf_image_open` makes of the 11 header bytes and the size of the file.
unfoldable pub hdf_volume : (fd size : ℕ) → List ℕ → Volume
unfolding hdf_sector_count
hdf_volume fd size header =
    let data_offset = bit_or (get_or header 0x09 0) (get_or header 0x0a 0 * 2 ^ 8) in
    let bytes_per_sector : ℕ = if bit_and (get_or header 0x08 0) 0x01 == 0 then 512 else 256 in
    image_file fd data_offset bytes_per_sector (hdf_sector_count size data_offset bytes_per_sector)

module _ (P : Posix) where
  abbrev OpenCmd : Type 0
  OpenCmd = Cmd P.World (Option Volume)

  abbrev failed : CString → OpenCmd
  failed message = do perform (P.perror message); pure none

  -- The two calls of open at the head of `raw_image_open` and `hdf_image_open`.
  abbrev opening : CString → Bool → (ℕ → OpenCmd) → OpenCmd
  opening pathname true next = do
    r ← call (P.open_file pathname read_write)
    elim r [ none ↦ failed (text "open() (RDWR) error") | some fd ↦ next fd ]
  opening pathname false next = do
    r ← call (P.open_file pathname read_only)
    elim r [ none ↦ failed (text "open() (RDONLY) error") | some fd ↦ next fd ]

  unfoldable pub raw_image_open : CString → Bool → OpenCmd
  raw_image_open pathname writeable = opening pathname writeable λ fd. do
    r ← call (P.fstat fd)
    elim r [
      | none ↦ failed (text "fstat() error")
      | some size ↦ pure (some (image_file fd 0 512 (size / 512)))
    ]

  unfoldable pub raw_image_create : CString → ℕ → OpenCmd
  raw_image_create pathname sector_count = do
    r ← call (P.open_file pathname create_truncate)
    elim r [
      | none ↦ failed (text "open() (RDWR) error")
      | some fd ↦ do
        done ← call (P.ftruncate fd (sector_count * 512 % word_modulus))
        if done
            then pure (some (image_file fd 0 512 sector_count))
            else failed (text "ftruncate() error")
    ]

  abbrev bad_header : ℕ → OpenCmd
  bad_header fd = do perform (P.close fd); failed (text "Error reading HDF header")

  unfoldable pub hdf_image_open : CString → Bool → OpenCmd
  unfolding hdf_volume
  hdf_image_open pathname writeable = opening pathname writeable λ fd. do
    r ← call (P.fstat fd)
    elim r [
      | none ↦ failed (text "fstat() error")
      | some size ↦ do
        h ← call (P.read fd 11)
        elim h [
          | none ↦ bad_header fd
          | some header ↦
              if length header == 11 then pure (some (hdf_volume fd size header)) else bad_header fd
        ]
    ]

  -- `rest` is the buffer from `written` on.
  unfoldable pub header_loop : (fuel fd written : ℕ) → List ℕ → Cmd P.World ℤ
  unfolding to_int
  header_loop zero fd written rest = λ w. out_of_fuel
  header_loop (suc fuel) fd written rest =
      if ltb written hdf_header_size
      then (do
        r ← call (P.write fd rest)
        elim r [
          | none ↦ do perform (P.perror (text "write() error")); pure minus_one
          | some m ↦ elim (to_int m) [
            | pos n ↦ header_loop fuel fd (written + n) (drop n rest)
            | negsuc n ↦ do perform (P.perror (text "write() error")); pure minus_one
          ]
        ])
      else pure (pos 0)

  unfoldable pub hdf_write_header : (fd sector_count : ℕ) → Cmd P.World ℤ
  unfolding header_loop header_bytes
  hdf_write_header fd sector_count =
      header_loop (suc hdf_header_size) fd 0 (header_bytes sector_count)

  unfoldable pub hdf_image_create : CString → ℕ → OpenCmd
  hdf_image_create pathname sector_count = do
    r ← call (P.open_file pathname create_truncate)
    elim r [
      | none ↦ failed (text "open() (RDWR) error")
      | some fd ↦ do
        done ← call (P.ftruncate fd ((sector_count * 512 + hdf_header_size) % word_modulus))
        if done
            then (do
              h ← hdf_write_header fd sector_count
              if is_negative h
                  then pure none
                  else pure (some (image_file fd hdf_header_size 512 sector_count)))
            else failed (text "ftruncate() error")
    ]

  -- A file that cannot be opened or is shorter than the signature is none.
  unfoldable pub image_file_is_hdf : CString → Cmd P.World Bool
  unfolding same_bytes
  image_file_is_hdf pathname = do
    r ← call (P.open_file pathname read_only)
    elim r [
      | none ↦ do perform (P.perror (text "open() (RDONLY) error")); pure false
      | some fd ↦ do
        s ← call (P.read fd 7)
        perform (P.close fd)
        elim s [
          | none ↦ pure false
          | some actual ↦
              if length actual == 7 then pure (same_bytes hdf_signature actual) else pure false
        ]
    ]
