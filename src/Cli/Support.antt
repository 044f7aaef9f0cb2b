-- ===== src/Cli/Support.antt =====
-- `fat_perror`, `open_image` and the tests for directories of src/hdfmonkey.c.
use Prim.Native.Nat.{bit_and}
use hdfmonkey.Base.{
  ℕ, [], ◌∷◌, ◌++◌, Bool, true, false, not, Option, none, some, ◌==◌, if◌then◌else◌, text, ℤ, pos,
  minus_one, ok, fault, Cmd, pure, ◌>>=◌, ◌>>◌, call,
}
use hdfmonkey.Posix.{Posix, CString}
use hdfmonkey.Volume.{Volume}
use hdfmonkey.Volume.Dispatch.{volume_close}
use hdfmonkey.ImageFile.Images.{
  image_file_is_hdf, hdf_image_open, raw_image_open, hdf_image_create, raw_image_create,
}
use hdfmonkey.Machine.{Machine, lift}
use hdfmonkey.Diskio.{disk_map}
use hdfmonkey.FatFs.{
  FatFs, FResult, fr_ok, fr_disk_err, fr_int_err, fr_not_ready, fr_no_file, fr_no_path,
  fr_invalid_name, fr_denied, fr_exist, fr_invalid_object, fr_write_protected, fr_invalid_drive,
  fr_not_enabled, fr_no_filesystem, fr_mkfs_aborted, fr_timeout,
}
use hdfmonkey.Libc.{Libc}
use hdfmonkey.Cli.Names.{filename_is_hdf}

unfoldable pub error_message : FResult → CString
error_message fr_ok = text "No error"
error_message fr_disk_err = text "Low-level disk error"
error_message fr_int_err = text "Internal error"
error_message fr_not_ready = text "Drive not ready"
error_message fr_no_file = text "File not found"
error_message fr_no_path = text "Path not found"
error_message fr_invalid_name = text "File / directory name is invalid"
error_message fr_denied = text "Access denied"
error_message fr_exist = text "File / directory already exists"
error_message fr_invalid_object = text "Invalid object"
error_message fr_write_protected = text "Drive is write-protected"
error_message fr_invalid_drive = text "Invalid drive number"
error_message fr_not_enabled = text "Work area not initialised"
error_message fr_no_filesystem = text "No FAT filesystem found"
error_message fr_mkfs_aborted = text "Disk is unsuitable for formatting"
error_message fr_timeout = text "Timeout"

-- `result == FR_OK`
unfoldable pub is_ok : FResult → Bool
is_ok fr_ok = true
is_ok _ = false

abbrev pub line : CString → CString
line s = s ++ (10 ∷ [])

abbrev pub success : ℤ
success = pos 0

module _ {P : Posix} (T : Libc P) (F : FatFs P) where
  abbrev pub MainCmd : Type 0 → Type 0
  MainCmd = Cmd (Machine P.World F.State)

  -- A call outside the program that acts on the world alone.
  abbrev pub on_world : {A : Type 0} → (P.World → A × P.World) → MainCmd A
  on_world f m = let (a, w) = f m.world in ok a (record m { world = w })

  abbrev pub in_the_world : (P.World → P.World) → MainCmd (Unit {0})
  in_the_world f m = ok tt (record m { world = f m.world })

  abbrev pub say : CString → MainCmd (Unit {0})
  say message = in_the_world (T.print (line message))

  -- `printf(message); return -1;`
  abbrev pub complain : CString → MainCmd ℤ
  complain message = do say message; pure minus_one

  unfoldable pub fat_perror : CString → FResult → MainCmd (Unit {0})
  fat_perror custom_message result =
      in_the_world (T.print (line (custom_message ++ text ": " ++ error_message result)))

  abbrev pub fat_failure : CString → FResult → MainCmd ℤ
  fat_failure custom_message result = do fat_perror custom_message result; pure minus_one

  abbrev pub close_volume : Volume → MainCmd (Unit {0})
  close_volume v = do r ← lift (volume_close P v); pure tt

  -- The tail of `open_image`; `mounting` tells whether it was given a file system object.
  abbrev pub mount_image : Bool → Volume → MainCmd (Option Volume)
  mount_image mounting vol = do
    r ← disk_map P F.State 0 vol
    if mounting
        then (do
          result ← call (F.f_mount 0)
          if is_ok result then pure (some vol) else (do say (text "mount failed"); pure none))
        else pure (some vol)

  -- `none` stands for the result -1, `some vol` for 0 with the container filled in.
  unfoldable pub open_image : CString → (mounting writeable : Bool) → MainCmd (Option Volume)
  open_image pathname mounting writeable = do
    hdf ← lift (image_file_is_hdf P pathname)
    res ←
        lift
          (if hdf then hdf_image_open P pathname writeable else raw_image_open P pathname writeable)
    elim res [ none ↦ pure none | some vol ↦ mount_image mounting vol ]

  -- 1, 0, or -1 after a message.
  unfoldable pub fat_path_is_dir : CString → MainCmd ℤ
  fat_path_is_dir filename = do
    (result, dir) ← call (F.f_opendir filename)
    elim result [
      | fr_ok ↦ pure (pos 1)
      | fr_no_path ↦ pure (pos 0)
      | other ↦ fat_failure (text "Error opening file") other
    ]

  -- `fileinfo.st_mode & S_IFDIR`
  unfoldable pub is_directory : CString → MainCmd Bool
  is_directory path = do
    r ← on_world (T.stat_mode path)
    elim r [ none ↦ pure false | some mode ↦ pure (not (bit_and mode 0x4000 == 0)) ]

  -- A new image, of the kind that its name asks for.
  unfoldable pub create_image : CString → (sector_count : ℕ) → MainCmd (Option Volume)
  create_image filename sector_count = elim (filename_is_hdf filename) [
    | none ↦ λ m. fault
    | some true ↦ lift (hdf_image_create P filename sector_count)
    | some false ↦ lift (raw_image_create P filename sector_count)
  ]
