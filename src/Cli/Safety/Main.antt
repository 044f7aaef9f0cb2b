-- ===== src/Cli/Safety/Main.antt =====
-- `cmd_rebuild` and `main` of src/hdfmonkey.c do not fault.
use Prim.Native.Nat.{bit_and}
use hdfmonkey.Base.{
  ℕ, zero, suc, ◌≤◌, ◌≡◌, refl, List, ◌||◌, true, false, Option, none, some, ltb, drop, get_elem?,
  length, text, ℤ, minus_one, pure, ◌>>=◌, ◌>>◌, fault, arith, Bool-cases, Option-cases, inl, inr,
  ◌==◌,
}
use hdfmonkey.Base.Safety.{holds, bind_safe}
use hdfmonkey.Posix.{Posix, CString}
use hdfmonkey.Volume.{Volume, sector_count, image_file, partition}
use hdfmonkey.ImageFile.Safety.{is_image}
use hdfmonkey.Machine.{Machine}
use hdfmonkey.Diskio.{disk_map}
use hdfmonkey.FatFs.{FatFs, Format}
use hdfmonkey.Libc.{Libc}
use hdfmonkey.Cli.Names.{concat_filename}
use hdfmonkey.Cli.Listing.{entry_name}
use hdfmonkey.Cli.Support.{
  MainCmd, success, is_ok, line, fat_perror, fat_failure, close_volume, create_image,
}
use hdfmonkey.Cli.Options.{no_options, parse_options}
use hdfmonkey.Cli.Rebuild.{
  copy_file, copy_dir, copy_entries, rebuild_onto, rebuild_from, cmd_rebuild, close_images,
}
use hdfmonkey.Cli.Main.{
  Command, clone, create, format, get, help, ls, mkdir, put, rebuild, rm, command_of, run_command,
  main,
}
use hdfmonkey.Cli.Safety.{
  KeepsDrives, full, in_order, keeps, fat_perror_safe, disk_map_safe, close_volume_safe,
}
use hdfmonkey.Cli.Safety.Images.{
  with_image_safe, with_new_image_safe, give_up_safe, first_given, second_given,
}
use hdfmonkey.Cli.Safety.Commands.{
  cmd_clone_safe, cmd_create_safe, cmd_format_safe, cmd_get_safe, cmd_help_safe, cmd_ls_safe,
  cmd_mkdir_safe, cmd_rm_safe,
}
use hdfmonkey.Cli.Safety.Trees.{unless, copied_next, copy_file_safe, cmd_put_safe}

module _ {P : Posix} (T : Libc P) (F : FatFs P) (K : KeepsDrives F) where
  copy_safe :
      (fuel : ℕ)
      → ((source dest : CString) (m : Machine P.World F.State)
          → in_order F m ≡ true
          → holds (keeps F) (copy_dir T F fuel source dest m) ≡ true)
        × ((dir : F.Dir) (source dest : CString) (m : Machine P.World F.State)
            → in_order F m ≡ true
            → holds (keeps F) (copy_entries T F fuel dir source dest m) ≡ true)
  unfolding copy_dir copy_entries
  copy_safe zero = (λ source dest m h. refl, λ dir source dest m h. refl)
  copy_safe (suc fuel) =
      let (directory, entries) = copy_safe fuel in
      (
        λ source dest m h.
            let (r, m1) = F.f_opendir source m in
            let h1 : in_order F m1 ≡ true = rw (K.f_opendir source m) h in
            unless T F K (is_ok r.0) _ _ m1 (entries r.1 source dest m1 h1)
              (ground (arith, fat_perror_safe T F (text "Error opening source directory") r.0 m1)),
        λ dir source dest m h.
            let (r, m1) = F.f_readdir dir m in
            let h1 : in_order F m1 ≡ true = rw (K.f_readdir dir m) h in
            let from = concat_filename source (entry_name r.1) in
            let to = concat_filename dest (entry_name r.1) in
            let (s, m2) = F.f_mkdir to m1 in
            let h2 : in_order F m2 ≡ true = rw (K.f_mkdir to m1) h1 in
            unless T F K (is_ok r.0) _ _ m1
              (unless T F K (length r.1.fname == 0) _ _ m1 h1 (
                bind_safe (keeps F) (keeps F) _ _
                  (unless T F K (bit_and r.1.fattrib 16 == 0) (copy_file T F fuel from to) _ m1
                    (copy_file_safe T F K fuel from to m1 h1)
                    (unless T F K (is_ok s) (copy_dir T F fuel from to)
                      (fat_failure T F (text "Error creating directory") s) m2
                      (directory from to m2 h2)
                      (ground (arith, fat_perror_safe T F (text "Error creating directory") s m2))))
                  λ status m3 h3. copied_next T F K status _ m3 h3 (entries r.2 source dest m3 h3)))
              (ground (arith, fat_perror_safe T F (text "Error reading dir") r.0 m1)),
      )

  close_images_safe :
      (s d : Volume) (status : ℤ) (m : Machine P.World F.State)
      → is_image s ≡ true
      → is_image d ≡ true
      → in_order F m ≡ true
      → holds (keeps F) (close_images T F s d status m) ≡ true
  close_images_safe s d status m i j h =
      bind_safe (keeps F) (keeps F) (close_volume T F s m) _ (close_volume_safe T F s m i h)
        λ a m1 h1.
          bind_safe (keeps F) (keeps F) (close_volume T F d m1) _ (close_volume_safe T F d m1 j h1)
            λ b m2 h2. h2

  rebuild_onto_safe :
      (fuel : ℕ) (s d : Volume) (label : Option CString) (fmt : Format)
      (m : Machine P.World F.State)
      → is_image s ≡ true
      → is_image d ≡ true
      → in_order F m ≡ true
      → holds (keeps F) (rebuild_onto T F fuel s d label fmt m) ≡ true
  unfolding rebuild_onto
  rebuild_onto_safe fuel s d label fmt m i j h =
      bind_safe (keeps F) (keeps F) (disk_map P F.State 1 d m) _
        (disk_map_safe F 1 d m (omega arith) h)
        λ a m1 h1.
          let (r, m2) = F.f_mount 1 m1 in
          let h2 : in_order F m2 ≡ true = rw (K.f_mount 1 m1) h1 in
          let (r', m3) = F.f_mkfs 1 label fmt m2 in
          let h3 : in_order F m3 ≡ true = rw (K.f_mkfs 1 label fmt m2) h2 in
          unless T F K (is_ok r) _ _ m2
            (unless T F K (is_ok r') _ _ m3
              (bind_safe (keeps F) (keeps F) (copy_dir T F fuel (text "0:") (text "1:") m3) _
                ((copy_safe fuel).0 (text "0:") (text "1:") m3 h3)
                λ status m4 h4. close_images_safe s d success m4 i j h4)
              (bind_safe (keeps F) (keeps F) (fat_perror T F (text "Formatting failed") r' m3) _
                (fat_perror_safe T F (text "Formatting failed") r' m3 h3)
                λ b m4 h4. close_images_safe s d minus_one m4 i j h4))
            (close_images_safe s d minus_one
              (record m2 { world = T.print (line (text "mount failed")) m2.world }) i j h2)

  rebuild_opened_safe :
      (fuel : ℕ) (v : Volume) (dest : CString) (label : Option CString) (fmt : Format)
      (m : Machine P.World F.State)
      → 3 ≤ length dest
      → is_image v ≡ true
      → in_order F m ≡ true
      → holds (keeps F) (
          (elim (sector_count v) as (λ r. MainCmd T F ℤ) [
            | none ↦ λ m. fault
            | some n ↦ do
              made ← create_image T F dest n
              elim made [
                | none ↦ do close_volume T F v; pure minus_one
                | some d ↦ rebuild_onto T F fuel v d label fmt
              ]
          ])
            m)
        ≡ true
  rebuild_opened_safe fuel (partition parent o b) dest label fmt m long i h = cc
  rebuild_opened_safe fuel (image_file fd o b n) dest label fmt m long i h =
      let v = image_file fd o b n in
      with_new_image_safe T F K dest n _ _ m long h (λ m1 h1. give_up_safe T F K v m1 i h1)
        λ d m1 j h1. rebuild_onto_safe fuel v d label fmt m1 i j h1

  pub cmd_rebuild_safe :
      (fuel : ℕ) (argv : List CString) (m : Machine P.World F.State)
      → ((path : CString)
          → (parse_options (drop 2 argv) no_options).arg_1 ≡ some path
          → 3 ≤ length path)
      → in_order F m ≡ true
      → holds (keeps F) (cmd_rebuild T F fuel argv m) ≡ true
  unfolding cmd_rebuild rebuild_from
  cmd_rebuild_safe fuel argv m long h =
      let o = parse_options (drop 2 argv) no_options in
      elim (Bool-cases (ltb o.arg_num 2 || ltb 3 o.arg_num)) [
        | inl wrong ↦ ground arith
        | inr right ↦
            let (source, e) = first_given (drop 2 argv) (ground arith) in
            let (dest, e') = second_given (drop 2 argv) (ground arith) in
            rw (right, e, e', holds)
              (with_image_safe T F K source true false _ m h
                λ v m1 i h1. rebuild_opened_safe fuel v dest o.arg_2 o.fmt m1 (long dest e') i h1)
      ]

-- The name of the image that a command line asks to make, if it does.
abbrev target_of : Command → List CString → Option CString
target_of clone argv = get_elem? argv 3
target_of create argv = (parse_options (drop 2 argv) no_options).arg_0
target_of rebuild argv = (parse_options (drop 2 argv) no_options).arg_1
target_of _ argv = none

abbrev target_for : Option Command → List CString → Option CString
target_for none argv = none
target_for (some command) argv = target_of command argv

abbrev pub target : List CString → Option CString
target argv = elim (get_elem? argv 1) [
  | none ↦ none
  | some word ↦ target_for (command_of word) argv
]

module _ {P : Posix} (T : Libc P) (F : FatFs P) (K : KeepsDrives F) where
  run_command_safe :
      (fuel : ℕ) (command : Command) (argv : List CString) (m : Machine P.World F.State)
      → ((path : CString) → target_of command argv ≡ some path → 3 ≤ length path)
      → in_order F m ≡ true
      → holds (keeps F) (run_command T F fuel command argv m) ≡ true
  unfolding run_command
  run_command_safe fuel clone argv m long h = cmd_clone_safe T F K argv m long h
  run_command_safe fuel create argv m long h = cmd_create_safe T F K argv m long h
  run_command_safe fuel format argv m long h = cmd_format_safe T F K argv m h
  run_command_safe fuel get argv m long h = cmd_get_safe T F K fuel argv m h
  run_command_safe fuel help argv m long h = cmd_help_safe T F K argv m h
  run_command_safe fuel ls argv m long h = cmd_ls_safe T F K fuel argv m h
  run_command_safe fuel mkdir argv m long h = cmd_mkdir_safe T F K argv m h
  run_command_safe fuel put argv m long h = cmd_put_safe T F K fuel argv m h
  run_command_safe fuel rebuild argv m long h = cmd_rebuild_safe T F K fuel argv m long h
  run_command_safe fuel rm argv m long h = cmd_rm_safe T F K argv m h

  -- Whatever the arguments are, and whatever the system calls, the C library and the driver return,
  -- as long as the driver leaves the eight drives, and where the cast of the size that `create` is
  -- given to a number of sectors is taken to give some number: if the name of an image to be made has
  -- three characters at least, `main` does not fault, however much fuel it is given, and where it
  -- returns there are eight drives again.
  pub main_safe :
      (fuel : ℕ) (argv : List CString) (m : Machine P.World F.State)
      → ((path : CString) → target argv ≡ some path → 3 ≤ length path)
      → full m.drives ≡ true
      → holds (λ status m'. full m'.drives) (main T F fuel argv m) ≡ true
  unfolding main
  main_safe fuel argv m long h = elim (Option-cases (get_elem? argv 1)) [
    | inl e ↦ rw (e, holds) h
    | inr (word, e) ↦ elim (Option-cases (command_of word)) [
      | inl e' ↦ rw (e, e', holds) h
      | inr (command, e') ↦
          rw (e, e', holds)
            (run_command_safe fuel command argv m (λ path t. long path (rw (e, e', target) t)) h)
    ]
  ]
