-- ===== src/Cli/Safety/Commands.antt =====
-- The commands of src/hdfmonkey.c do not fault, but for an image to be made whose name has fewer than
-- three characters.
use hdfmonkey.Base.{
  ℕ, ◌≤◌, ◌≡◌, List, ◌||◌, true, false, Option, some, ltb, drop, get_elem?, length, text, minus_one,
  pure, arith, Bool-cases, Option-cases, inl, inr,
}
use hdfmonkey.Base.Safety.{holds}
use hdfmonkey.Posix.{Posix, CString}
use hdfmonkey.Volume.{Volume, image_file, partition}
use hdfmonkey.ImageFile.Safety.{is_image, volume_close_safe}
use hdfmonkey.Machine.{Machine}
use hdfmonkey.FatFs.{FatFs, Format, read_existing}
use hdfmonkey.Libc.{Libc, Stream}
use hdfmonkey.Cli.Options.{no_options, parse_options}
use hdfmonkey.Cli.Get.{get_file, cmd_get}
use hdfmonkey.Cli.Listing.{cmd_ls, dirname}
use hdfmonkey.Cli.Edit.{cmd_mkdir, cmd_rm}
use hdfmonkey.Cli.Create.{cmd_format, cmd_create, create_sized, format_new, unit_scale, first_char}
use hdfmonkey.Cli.Clone.{clone_volume, cmd_clone}
use hdfmonkey.Cli.Help.{cmd_help}
use hdfmonkey.Cli.Safety.{
  KeepsDrives, in_order, keeps, fat_perror_safe, open_image_safe, disk_map_safe,
}
use hdfmonkey.Cli.Safety.Loops.{get_loop_safe, ls_loop_safe, clone_loop_safe}
use hdfmonkey.Cli.Safety.Images.{
  first_given, second_given, with_image_safe, with_new_image_safe, give_up_safe,
}

module _ {P : Posix} (T : Libc P) (F : FatFs P) (K : KeepsDrives F) where
  pub cmd_mkdir_safe :
      (argv : List CString) (m : Machine P.World F.State)
      → in_order F m ≡ true
      → holds (keeps F) (cmd_mkdir T F argv m) ≡ true
  unfolding cmd_mkdir
  cmd_mkdir_safe argv m h = grind (arith, open_image_safe T F K, fat_perror_safe, K.f_mkdir)

  pub cmd_rm_safe :
      (argv : List CString) (m : Machine P.World F.State)
      → in_order F m ≡ true
      → holds (keeps F) (cmd_rm T F argv m) ≡ true
  unfolding cmd_rm
  cmd_rm_safe argv m h = grind (arith, open_image_safe T F K, fat_perror_safe, K.f_unlink)

  get_file_safe :
      (fuel : ℕ) (image source : CString) (out : Stream) (m : Machine P.World F.State)
      → in_order F m ≡ true
      → holds (keeps F) (get_file T F fuel image source out m) ≡ true
  unfolding get_file
  get_file_safe fuel image source out m h =
      with_image_safe T F K image true false _ m h λ v m1 i h1.
        let (r, m2) = F.f_open source read_existing m1 in
        let k : in_order F m2 ≡ true = rw (K.f_open source read_existing m1) h1 in
        ground (
          arith,
          get_loop_safe T F K fuel r.1 out m2 k,
          fat_perror_safe T F (text "Error opening file") r.0 m2,
        )

  pub cmd_get_safe :
      (fuel : ℕ) (argv : List CString) (m : Machine P.World F.State)
      → in_order F m ≡ true
      → holds (keeps F) (cmd_get T F fuel argv m) ≡ true
  unfolding cmd_get
  cmd_get_safe fuel argv m h = grind (arith, get_file_safe)

  pub cmd_ls_safe :
      (fuel : ℕ) (argv : List CString) (m : Machine P.World F.State)
      → in_order F m ≡ true
      → holds (keeps F) (cmd_ls T F fuel argv m) ≡ true
  unfolding cmd_ls
  cmd_ls_safe fuel argv m h = elim (Option-cases (get_elem? argv 2)) [
    | inl e ↦ ground arith
    | inr (path, e) ↦
        rw (e, holds)
          (with_image_safe T F K path true false _ m h λ v m1 i h1.
            let name = dirname T F (get_elem? argv 3) in
            let (r, m2) = F.f_opendir name m1 in
            let k : in_order F m2 ≡ true = rw (K.f_opendir name m1) h1 in
            ground (
              arith,
              ls_loop_safe T F K fuel v r.1 m2 i k,
              fat_perror_safe T F (text "Error opening dir") r.0 m2,
            ))
  ]

  pub cmd_help_safe :
      (argv : List CString) (m : Machine P.World F.State)
      → in_order F m ≡ true
      → holds (keeps F) (cmd_help T F argv m) ≡ true
  unfolding cmd_help
  cmd_help_safe argv m h = ground arith

  format_new_safe :
      (v : Volume) (label : Option CString) (fmt : Format) (m : Machine P.World F.State)
      → is_image v ≡ true
      → in_order F m ≡ true
      → holds (keeps F) (format_new T F v label fmt m) ≡ true
  unfolding format_new
  format_new_safe v label fmt m i h = grind (
    arith,
    disk_map_safe F 0 v m (omega arith) h,
    fat_perror_safe,
    volume_close_safe P,
    K.f_mount,
    K.f_mkfs,
  )

  clone_volume_safe :
      (v : Volume) (path : CString) (m : Machine P.World F.State)
      → 3 ≤ length path
      → is_image v ≡ true
      → in_order F m ≡ true
      → holds (keeps F) (clone_volume T F v path m) ≡ true
  unfolding clone_volume
  clone_volume_safe (image_file fd data_offset b n) path m long i h =
      let source = image_file fd data_offset b n in
      with_new_image_safe T F K path n _ _ m long h (λ m1 h1. give_up_safe T F K source m1 i h1)
        λ v m1 j h1. clone_loop_safe T F K _ source v 0 _ m1 i j h1
  clone_volume_safe (partition parent data_offset b) path m long i h = cc

  pub cmd_clone_safe :
      (argv : List CString) (m : Machine P.World F.State)
      → ((path : CString) → get_elem? argv 3 ≡ some path → 3 ≤ length path)
      → in_order F m ≡ true
      → holds (keeps F) (cmd_clone T F argv m) ≡ true
  unfolding cmd_clone
  cmd_clone_safe argv m long h = elim (Option-cases (get_elem? argv 2)) [
    | inl e ↦ ground arith
    | inr (source, e) ↦ elim (Option-cases (get_elem? argv 3)) [
      | inl e' ↦ ground arith
      | inr (destination, e') ↦
          rw (e, e', holds)
            (with_image_safe T F K source false false _ m h
              λ v m1 i h1. clone_volume_safe v destination m1 (long destination e') i h1)
    ]
  ]

  create_sized_safe :
      (path size : CString) (label : Option CString) (fmt : Format) (m : Machine P.World F.State)
      → 3 ≤ length path
      → in_order F m ≡ true
      → holds (keeps F) (create_sized T F path size label fmt m) ≡ true
  unfolding create_sized
  create_sized_safe path size label fmt m long h =
      let (x, unit) = T.strtod size in
      elim (Option-cases (unit_scale (first_char unit))) [
        | inl e ↦ ground arith
        | inr (scale, e) ↦
            rw (e, holds)
              (with_new_image_safe T F K path (T.sectors_of x scale) (pure minus_one) _ m long h
                (λ m1 h1. h1) λ v m1 i h1. format_new_safe v label fmt m1 i h1)
      ]

  pub cmd_create_safe :
      (argv : List CString) (m : Machine P.World F.State)
      → ((path : CString)
          → (parse_options (drop 2 argv) no_options).arg_0 ≡ some path
          → 3 ≤ length path)
      → in_order F m ≡ true
      → holds (keeps F) (cmd_create T F argv m) ≡ true
  unfolding cmd_create
  cmd_create_safe argv m long h =
      let o = parse_options (drop 2 argv) no_options in
      elim (Bool-cases (ltb o.arg_num 2 || ltb 3 o.arg_num)) [
        | inl wrong ↦ ground arith
        | inr right ↦
            let (path, e) = first_given (drop 2 argv) (ground arith) in
            let (size, e') = second_given (drop 2 argv) (ground arith) in
            rw (right, e, e', holds) (create_sized_safe path size o.arg_2 o.fmt m (long path e) h)
      ]

  pub cmd_format_safe :
      (argv : List CString) (m : Machine P.World F.State)
      → in_order F m ≡ true
      → holds (keeps F) (cmd_format T F argv m) ≡ true
  unfolding cmd_format
  cmd_format_safe argv m h =
      let o = parse_options (drop 2 argv) no_options in
      elim (Bool-cases (ltb o.arg_num 1 || ltb 2 o.arg_num)) [
        | inl wrong ↦ ground arith
        | inr right ↦
            let (path, e) = first_given (drop 2 argv) (ground arith) in
            rw (right, e, holds)
              (with_image_safe T F K path true true _ m h
                λ v m1 i h1. grind (arith, fat_perror_safe, K.f_mkfs))
      ]
