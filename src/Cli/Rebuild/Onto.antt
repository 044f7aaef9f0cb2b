-- ===== src/Cli/Rebuild/Onto.antt =====
-- `cmd_rebuild` of src/hdfmonkey.c from the two open images on.
use hdfmonkey.Base.{ℕ, ◌<◌, ◌≡◌, true, false, Option, some, ◌==◌, set, length, lt→ltb, text, ok}
use hdfmonkey.Posix.{Posix, CString}
use hdfmonkey.Volume.{image_file}
use hdfmonkey.Volume.Dispatch.{volume_close}
use hdfmonkey.ImageFile.Io.{image_file_close}
use hdfmonkey.Machine.{Machine}
use hdfmonkey.Diskio.{disk_map}
use hdfmonkey.FatFs.{FatFs, Format, fr_ok}
use hdfmonkey.Libc.{Libc}
use hdfmonkey.Files.{FileView, IsSound}
use hdfmonkey.Files.Trees.{TreeView, IsOrderly, fresh}
use hdfmonkey.Cli.Support.{success, is_ok}
use hdfmonkey.Cli.Rebuild.{copy_dir, rebuild_onto}
use hdfmonkey.Cli.Rebuild.Trees.{Tree, entries_of, rounds, Lies, planted, names_below}
use hdfmonkey.Cli.Rebuild.Whole.{copy_dir_copies}

module _ {P : Posix} (T : Libc P) (F : FatFs P) (sfd so sb sn dfd do_ db dn : ℕ) where
  -- The destination is the drive 1.
  abbrev pub mapped : Machine P.World F.State → Machine P.World F.State
  mapped m = record m { drives = set m.drives 1 (some (image_file dfd do_ db dn)) }

  -- Drive 1 has been mounted and formatted.
  abbrev pub formatted : Option CString → Format → Machine P.World F.State → Machine P.World F.State
  formatted label fmt m = (F.f_mkfs 1 label fmt (F.f_mount 1 (mapped m)).1).1

  abbrev pub both_closed : Machine P.World F.State → Machine P.World F.State
  both_closed m = record m { world = P.close dfd (P.close sfd m.world) }

  rebuild_run :
      (fuel : ℕ) (label : Option CString) (fmt : Format) (m m' : Machine P.World F.State)
      → 1 < length m.drives
      → (F.f_mount 1 (mapped m)).0 ≡ fr_ok
      → (F.f_mkfs 1 label fmt (F.f_mount 1 (mapped m)).1).0 ≡ fr_ok
      → copy_dir T F fuel (text "0:") (text "1:") (formatted label fmt m) ≡ ok success m'
      → rebuild_onto T F fuel (image_file sfd so sb sn) (image_file dfd do_ db dn) label fmt m
        ≡ ok success (both_closed m')
  unfolding rebuild_onto disk_map is_ok volume_close image_file_close
  rebuild_run fuel label fmt m m' room mounts makes run =
      rw (lt→ltb 1 (length m.drives) room, mounts, makes, run)

  -- On sound volumes, when the destination's drive can be mounted and formatted, and what then lies on
  -- the drive 0 is a tree whose names are free on the drive 1 and different ones, rebuilding returns 0
  -- with any fuel above the number of entries, directories and buffers of the tree; when both images
  -- are closed at its end, the drive 1 has all files of the tree with exactly their bytes, every
  -- other file is as it was after formatting, and the drive 0 has not changed.
  pub rebuild_onto_copies :
      (V : FileView T F) (W : TreeView T F)
      → IsSound T F V
      → IsOrderly T F V W
      → (t : Tree) (fuel : ℕ) (label : Option CString) (fmt : Format) (m : Machine P.World F.State)
      → let m0 = formatted label fmt m in
        let c = W.on_drive m0 (W.drive_of (text "0:")) in
        1 < length m.drives
        → (F.f_mount 1 (mapped m)).0 ≡ fr_ok
        → (F.f_mkfs 1 label fmt (F.f_mount 1 (mapped m)).1).0 ≡ fr_ok
        → (W.drive_of (text "0:") == W.drive_of (text "1:")) ≡ false
        → rounds t < fuel
        → W.listing c (V.name_of (text "0:")) ≡ some (entries_of t)
        → Lies V W c (text "0:") t
        → W.is_dir m0 (V.name_of (text "1:")) ≡ true
        → fresh (W.taken m0) (names_below V W (text "1:") t) ≡ true
        → (m' : Machine P.World F.State) × (rebuild_onto T F fuel
              (image_file sfd so sb sn)
              (image_file dfd do_ db dn)
              label
              fmt
              m
            ≡ ok success (both_closed m'))
          × (V.files m' ≡ planted V W (text "1:") t (V.files m0))
          × (W.on_drive m' (W.drive_of (text "0:")) ≡ c)
  rebuild_onto_copies V W S O t fuel label fmt m room mounts makes apart enough listed lies there
        free =
      let (m', run, files, kept) =
        copy_dir_copies T F V S W O t fuel (text "0:") (text "1:") (formatted label fmt m) apart
          enough listed lies there free in
      (m', rebuild_run fuel label fmt m m' room mounts makes run, files, kept)
