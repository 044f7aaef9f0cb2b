-- ===== src/Cli/Rebuild/Command.antt =====
-- `cmd_rebuild` of src/hdfmonkey.c from its arguments on.
use hdfmonkey.Base.{
  ℕ, ◌<◌, ◌≡◌, refl, List, true, false, ◌||◌, some, ltb, ◌==◌, length, drop, text, ok, ◌∙◌,
}
use hdfmonkey.Posix.{Posix, CString}
use hdfmonkey.Volume.{Volume, image_file}
use hdfmonkey.Machine.{Machine}
use hdfmonkey.FatFs.{FatFs, fr_ok}
use hdfmonkey.Libc.{Libc}
use hdfmonkey.Files.{FileView, IsSound}
use hdfmonkey.Files.Trees.{TreeView, IsOrderly, fresh}
use hdfmonkey.Cli.Options.{no_options, parse_options}
use hdfmonkey.Cli.Support.{success, open_image, create_image}
use hdfmonkey.Cli.Rebuild.{rebuild_onto, rebuild_from, cmd_rebuild}
use hdfmonkey.Cli.Rebuild.Onto.{mapped, formatted, both_closed, rebuild_onto_copies}
use hdfmonkey.Cli.Rebuild.Trees.{Tree, entries_of, rounds, Lies, planted, names_below}

-- The arguments beside the flags: two images, and perhaps a label.
pub record Given (argv : List CString) (source destination : CString) : Type 0 where
  pub counted :
      let o = parse_options (drop 2 argv) no_options in (ltb o.arg_num 2 || ltb 3 o.arg_num) ≡ false
  pub first : (parse_options (drop 2 argv) no_options).arg_0 ≡ some source
  pub second : (parse_options (drop 2 argv) no_options).arg_1 ≡ some destination

module _ {P : Posix} (T : Libc P) (F : FatFs P) where
  -- From the arguments to the two open images.
  command_run :
      (fuel : ℕ) (argv : List CString) (source destination : CString) (sfd so sb sn : ℕ)
      (d : Volume) (m m1 m2 : Machine P.World F.State)
      → Given argv source destination
      → open_image T F source true false m ≡ ok (some (image_file sfd so sb sn)) m1
      → create_image T F destination sn m1 ≡ ok (some d) m2
      → let o = parse_options (drop 2 argv) no_options in
        cmd_rebuild T F fuel argv m
        ≡ rebuild_onto T F fuel (image_file sfd so sb sn) d o.arg_2 o.fmt m2
  unfolding cmd_rebuild rebuild_from
  command_run fuel argv source destination sfd so sb sn d m m1 m2 g opens creates =
      rw (g.counted, g.first, g.second, opens, creates) refl

  -- On sound volumes with room for all that is written, when the old image opens and the new one,
  -- with as many sectors, can be made, mounted and formatted, so that the drive 1 has a root, and
  -- what then lies on the drive 0, another one, is a tree whose names are free on the drive 1,
  -- different ones, and ASCII names that FAT allows, `rebuild` returns 0 with any fuel above the
  -- number of entries, directories and buffers of the tree; when it closes both images at its end,
  -- the drive 1 has all files of the tree with exactly their bytes, which each has from its own
  -- close on, every other file is as it was after formatting, and the drive 0 has not changed.
  pub cmd_rebuild_copies :
      (V : FileView T F) (W : TreeView T F)
      → IsSound T F V
      → IsOrderly T F V W
      → (t : Tree) (fuel : ℕ) (argv : List CString) (source destination : CString)
      → (sfd so sb sn dfd do_ db dn : ℕ) (m m1 m2 : Machine P.World F.State)
      → let o = parse_options (drop 2 argv) no_options in
        let map = mapped T F sfd so sb sn dfd do_ db dn in
        let m0 = formatted T F sfd so sb sn dfd do_ db dn o.arg_2 o.fmt m2 in
        let c = W.on_drive m0 (W.drive_of (text "0:")) in
        Given argv source destination
        → open_image T F source true false m ≡ ok (some (image_file sfd so sb sn)) m1
        → create_image T F destination sn m1 ≡ ok (some (image_file dfd do_ db dn)) m2
        → 1 < length m2.drives
        → (F.f_mount 1 (map m2)).0 ≡ fr_ok
        → (F.f_mkfs 1 o.arg_2 o.fmt (F.f_mount 1 (map m2)).1).0 ≡ fr_ok
        → (W.drive_of (text "0:") == W.drive_of (text "1:")) ≡ false
        → rounds t < fuel
        → W.listing c (V.name_of (text "0:")) ≡ some (entries_of t)
        → Lies V W c (text "0:") t
        → W.is_dir m0 (V.name_of (text "1:")) ≡ true
        → fresh (W.taken m0) (names_below V W (text "1:") t) ≡ true
        → (m' : Machine P.World F.State) × (cmd_rebuild T F fuel argv m
            ≡ ok success (both_closed T F sfd so sb sn dfd do_ db dn m'))
          × (V.files m' ≡ planted V W (text "1:") t (V.files m0))
          × (W.on_drive m' (W.drive_of (text "0:")) ≡ c)
  cmd_rebuild_copies V W S O t fuel argv source destination sfd so sb sn dfd do_ db dn m m1 m2 given
        opens creates room mounts makes apart enough listed lies there free =
      let o = parse_options (drop 2 argv) no_options in
      let (m', run, files, kept) =
        rebuild_onto_copies T F sfd so sb sn dfd do_ db dn V W S O t fuel o.arg_2 o.fmt m2 room
          mounts makes apart enough listed lies there free in
      (
        m',
        command_run fuel argv source destination sfd so sb sn (image_file dfd do_ db dn) m m1 m2
              given opens creates
            ∙ run,
        files,
        kept,
      )
