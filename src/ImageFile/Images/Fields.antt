-- ===== src/ImageFile/Images/Fields.antt =====
-- The volume that `hdf_image_open` of src/image_file.c makes of an HDF file, field by field.
use Prim.Native.Nat.{bit_and}
use hdfmonkey.Base.{
  ℕ, ◌+◌, ◌-◌, ◌*◌, ◌/◌, ◌≤◌, ◌<◌, ◌≡◌, refl, ap, List, some, none, Bool, ◌==◌, if◌then◌else◌,
  length, get_or, arith, le→leb,
}
use hdfmonkey.Base.Bits.{disjoint_bit_or}
use hdfmonkey.Base.Slices.{slice, get_or-slice}
use hdfmonkey.Posix.{Posix, View, IsHealthy, IsPrompt, CString, update}
use hdfmonkey.Posix.Views.{Returns, Returns-eq}
use hdfmonkey.Volume.{image_file}
use hdfmonkey.ImageFile.Images.{hdf_volume, hdf_sector_count, hdf_image_open}
use hdfmonkey.ImageFile.Images.Open.{hdf_image_open-Returns}

-- The data begin at the little-endian number in the bytes 9 and 10.
abbrev pub data_begin : List ℕ → ℕ
data_begin bytes = get_or bytes 9 0 + get_or bytes 10 0 * 256

-- A sector has 256 bytes where bit 0 of the byte 8 is set, and 512 where it is not.
abbrev pub sector_size : List ℕ → ℕ
sector_size bytes = if bit_and (get_or bytes 8 0) 1 == 0 then 512 else 256

hdf_volume_fields :
    (fd : ℕ) (bytes : List ℕ)
    → get_or bytes 9 0 < 256
    → data_begin bytes ≤ length bytes
    → hdf_volume fd (length bytes) (slice 0 11 bytes)
      ≡ image_file fd
          (data_begin bytes)
          (sector_size bytes)
          ((length bytes - data_begin bytes) / sector_size bytes)
unfolding hdf_volume hdf_sector_count
hdf_volume_fields fd bytes low there =
    rw
      (
        get_or-slice 0 11 8 bytes (omega arith),
        get_or-slice 0 11 9 bytes (omega arith),
        get_or-slice 0 11 10 bytes (omega arith),
        disjoint_bit_or 8 (get_or bytes 10 0) (get_or bytes 9 0) low,
        le→leb (data_begin bytes) (length bytes) there,
      )
      refl

module _ (P : Posix) (V : View P) (H : IsHealthy P V) (path : CString) (w : P.World)
    (bytes : List ℕ) (present : V.files w path ≡ some bytes) where
  -- On a healthy and prompt disk `hdf_image_open` of an existing file of at least 11 bytes returns,
  -- if its data offset lies in the file, a volume on a fresh descriptor with the access asked for:
  -- its data begin at the little-endian number in the bytes 9 and 10, its sectors have 256 bytes
  -- where bit 0 of the byte 8 is set and 512 where it is not, and it has as many whole ones as lie
  -- behind that offset; no file changes.
  pub hdf_image_open_fields :
      (b : Bool)
      → IsPrompt P V
      → 11 ≤ length bytes
      → get_or bytes 9 0 < 256
      → data_begin bytes ≤ length bytes
      → (fd : ℕ) × (V.fds w fd ≡ none)
        × Returns P V
            (hdf_image_open P path b w)
            (some (
              image_file fd
                (get_or bytes 9 0 + get_or bytes 10 0 * 256)
                (sector_size bytes)
                ((length bytes - data_begin bytes) / sector_size bytes)))
            (V.files w)
            (update (V.fds w) fd (some (record { path = path; offset = 11; writeable = b })))
  hdf_image_open_fields b prompt long low there =
      let (fd, fresh, x) = hdf_image_open-Returns P V H path w bytes present b prompt long in
      (fd, fresh, Returns-eq P V refl (ap some (hdf_volume_fields fd bytes low there)) refl refl x)
