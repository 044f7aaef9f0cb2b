-- ===== src/Cli/Safety.antt =====
-- What the commands of src/hdfmonkey.c rest on does not fault: the drives are an array of eight, and
-- the volumes are image files.
pub mod Images
pub mod Loops
pub mod Commands
pub mod Trees
pub mod Main
use hdfmonkey.Base.{
  ℕ, ◌<◌, ◌≤◌, ◌≡◌, refl, List, Bool, true, false, ◌&&◌, Option, none, some, ◌==◌, ltb, length,
  length-set, set, arith, Cmd, if◌then◌else◌, ℤ, pos, inl, inr, Bool-cases,
}
use hdfmonkey.Base.Safety.{holds, anything}
use hdfmonkey.Posix.{Posix, CString}
use hdfmonkey.Volume.{Volume}
use hdfmonkey.Volume.Dispatch.{volume_close}
use hdfmonkey.ImageFile.Safety.{
  is_image, no_partition, fills, raw_image_open_safe, hdf_image_open_safe, raw_image_create_safe,
  hdf_image_create_safe, image_file_is_hdf_safe, volume_close_safe,
}
use hdfmonkey.ImageFile.Images.{hdf_image_open, raw_image_open}
use hdfmonkey.Machine.{Machine, lift}
use hdfmonkey.Diskio.{disk_map}
use hdfmonkey.FatFs.{FatFs, FResult, OpenMode, Format}
use hdfmonkey.Libc.{Libc}
use hdfmonkey.Cli.Names.{filename_is_hdf}
use hdfmonkey.Cli.Support.{
  fat_perror, mount_image, open_image, fat_path_is_dir, is_directory, create_image, close_volume,
  is_ok,
}

-- `volume_containers[8]`
unfoldable pub full : List (Option Volume) → Bool
full drives = length drives == 8

-- No call of the driver touches the array of the drives, which is `static` in src/diskio.c.
pub record KeepsDrives {P : Posix} (F : FatFs P) : Type 0 where
  pub f_mount : (d : ℕ) (m : Machine P.World F.State) → (F.f_mount d m).1.drives ≡ m.drives
  pub f_mkfs :
      (d : ℕ) (label : Option CString) (fmt : Format) (m : Machine P.World F.State)
      → (F.f_mkfs d label fmt m).1.drives ≡ m.drives
  pub f_open :
      (path : CString) (mode : OpenMode) (m : Machine P.World F.State)
      → (F.f_open path mode m).1.drives ≡ m.drives
  pub f_read :
      (f : F.File) (n : ℕ) (m : Machine P.World F.State) → (F.f_read f n m).1.drives ≡ m.drives
  pub f_write :
      (f : F.File) (bytes : List ℕ) (m : Machine P.World F.State)
      → (F.f_write f bytes m).1.drives ≡ m.drives
  pub f_close : (f : F.File) (m : Machine P.World F.State) → (F.f_close f m).1.drives ≡ m.drives
  pub f_opendir :
      (path : CString) (m : Machine P.World F.State) → (F.f_opendir path m).1.drives ≡ m.drives
  pub f_readdir : (d : F.Dir) (m : Machine P.World F.State) → (F.f_readdir d m).1.drives ≡ m.drives
  pub f_mkdir :
      (path : CString) (m : Machine P.World F.State) → (F.f_mkdir path m).1.drives ≡ m.drives
  pub f_unlink :
      (path : CString) (m : Machine P.World F.State) → (F.f_unlink path m).1.drives ≡ m.drives

full-set :
    (drives : List (Option Volume)) (i : ℕ) (v : Option Volume)
    → full drives ≡ true
    → full (set drives i v) ≡ true
unfolding full
full-set drives i v h = rw (length-set drives i v) h

full_room :
    (drives : List (Option Volume)) (i : ℕ)
    → full drives ≡ true
    → i < 8
    → ltb i (length drives) ≡ true
unfolding full
full_room drives i h b = ground arith

module _ {P : Posix} (F : FatFs P) where
  -- The state is in order.
  abbrev pub in_order : Machine P.World F.State → Bool
  in_order m = full m.drives

  abbrev pub keeps : {A : Type 0} → A → Machine P.World F.State → Bool
  keeps a m = in_order m

  -- The result is no partition, either.
  abbrev pub gives_image : Option Volume → Machine P.World F.State → Bool
  gives_image r m = no_partition r && in_order m

  pub lift_safe :
      {A : Type 0} (c : Cmd P.World A) (m : Machine P.World F.State)
      → holds anything (c m.world) ≡ true
      → in_order m ≡ true
      → holds keeps (lift {F = F.State} c m) ≡ true
  lift_safe c m s h = ground arith

  pub disk_map_safe :
      (i : ℕ) (v : Volume) (m : Machine P.World F.State)
      → i < 8
      → in_order m ≡ true
      → holds keeps (disk_map P F.State i v m) ≡ true
  unfolding disk_map
  disk_map_safe i v m b h = rw (full_room m.drives i h b) (full-set m.drives i (some v) h)

module _ {P : Posix} (T : Libc P) (F : FatFs P) where
  pub fat_perror_safe :
      (message : CString) (r : FResult) (m : Machine P.World F.State)
      → in_order F m ≡ true
      → holds (keeps F) (fat_perror T F message r m) ≡ true
  unfolding fat_perror
  fat_perror_safe message r m h = h

  pub close_volume_safe :
      (v : Volume) (m : Machine P.World F.State)
      → is_image v ≡ true
      → in_order F m ≡ true
      → holds (keeps F) (close_volume T F v m) ≡ true
  close_volume_safe v m i h = ground (arith, volume_close_safe P v m.world i)

  pub is_directory_safe :
      (path : CString) (m : Machine P.World F.State)
      → in_order F m ≡ true
      → holds (keeps F) (is_directory T F path m) ≡ true
  unfolding is_directory
  is_directory_safe path m h = ground arith

  pub create_image_safe :
      (path : CString) (n : ℕ) (m : Machine P.World F.State)
      → 3 ≤ length path
      → in_order F m ≡ true
      → holds (gives_image F) (create_image T F path n m) ≡ true
  unfolding create_image filename_is_hdf
  create_image_safe path n m long h =
      ground (arith, hdf_image_create_safe P path n m.world, raw_image_create_safe P path n m.world)

  module _ (K : KeepsDrives F) where
    mount_image_safe :
        (mounting : Bool) (v : Volume) (m : Machine P.World F.State)
        → is_image v ≡ true
        → in_order F m ≡ true
        → holds (gives_image F) (mount_image T F mounting v m) ≡ true
    mount_image_safe mounting v m i h =
        grind (arith, disk_map_safe F 0 v m (omega arith) h, K.f_mount)

    opens :
        (path : CString) (hdf b : Bool) (w : P.World)
        → holds (fills P) ((if hdf then hdf_image_open P path b else raw_image_open P path b) w)
          ≡ true
    opens path true b w = hdf_image_open_safe P path b w
    opens path false b w = raw_image_open_safe P path b w

    pub open_image_safe :
        (path : CString) (mounting b : Bool) (m : Machine P.World F.State)
        → in_order F m ≡ true
        → holds (gives_image F) (open_image T F path mounting b m) ≡ true
    unfolding open_image
    open_image_safe path mounting b m h =
        grind (arith, image_file_is_hdf_safe, opens, mount_image_safe)

    pub fat_path_is_dir_safe :
        (path : CString) (m : Machine P.World F.State)
        → in_order F m ≡ true
        → holds (keeps F) (fat_path_is_dir T F path m) ≡ true
    unfolding fat_path_is_dir
    fat_path_is_dir_safe path m h = grind (arith, fat_perror_safe, K.f_opendir)
