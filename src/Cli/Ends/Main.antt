-- ===== src/Cli/Ends/Main.antt =====
-- `main` of src/hdfmonkey.c returns for the commands that go through no directory and no file on an
-- image.
use hdfmonkey.Base.{
  ℕ, suc, ◌*◌, ◌%◌, ◌≤◌, ◌≡◌, refl, List, Bool, true, false, Option, none, some, length, get_elem?,
  ℤ, word_modulus, ◌>>=◌, ok, arith, Option-cases, inl, inr,
}
use hdfmonkey.Base.Ends.{ends, whatever, bind_ends, returns}
use hdfmonkey.Posix.{Posix, CString, Progresses}
use hdfmonkey.Volume.{Volume, image_file, partition}
use hdfmonkey.ImageFile.Ends.{volume_close_ends}
use hdfmonkey.Machine.{Machine}
use hdfmonkey.Diskio.{disk_map}
use hdfmonkey.FatFs.{FatFs, Format}
use hdfmonkey.Libc.{Libc}
use hdfmonkey.Cli.Support.{MainCmd, create_image}
use hdfmonkey.Cli.Clone.{clone_volume, cmd_clone}
use hdfmonkey.Cli.Create.{cmd_create, create_sized, format_new, cmd_format}
use hdfmonkey.Cli.Edit.{cmd_mkdir, cmd_rm}
use hdfmonkey.Cli.Help.{cmd_help}
use hdfmonkey.Cli.Main.{
  Command, clone, create, format, get, help, ls, mkdir, put, rebuild, rm, command_of, run_command,
  main,
}
use hdfmonkey.Cli.Safety.{KeepsDrives, full}
use hdfmonkey.Cli.Safety.Main.{target, main_safe}
use hdfmonkey.Cli.Ends.{
  open_image_ends, create_image_ends, close_volume_ends, fat_perror_ends, clone_loop_ends,
}

-- The commands with a loop that ends when the driver or the C library says so.
unfoldable pub is_open_ended : Command → Bool
is_open_ended get = true
is_open_ended ls = true
is_open_ended put = true
is_open_ended rebuild = true
is_open_ended _ = false

module _ {P : Posix} (T : Libc P) (F : FatFs P) where
  -- What is done with an image, or without it.
  with_volume_ends :
      (opening : MainCmd T F (Option Volume)) (failed : MainCmd T F ℤ)
      (next : Volume → MainCmd T F ℤ) (m : Machine P.World F.State)
      → ends whatever (opening m) ≡ true
      → ((m1 : Machine P.World F.State) → ends whatever (failed m1) ≡ true)
      → ((v : Volume) (m1 : Machine P.World F.State) → ends whatever (next v m1) ≡ true)
      → ends whatever ((opening >>= λ r. elim r [ none ↦ failed | some v ↦ next v ]) m) ≡ true
  with_volume_ends opening failed next m h without after =
      bind_ends whatever whatever (opening m) _ h cases
    where
      cases :
          (r : Option Volume) (m1 : Machine P.World F.State)
          → true ≡ true
          → ends whatever ((elim r as (λ r. MainCmd T F ℤ) [ none ↦ failed | some v ↦ next v ]) m1)
            ≡ true
      cases none m1 k = without m1
      cases (some v) m1 k = after v m1

  cmd_mkdir_ends :
      (argv : List CString) (m : Machine P.World F.State)
      → ends whatever (cmd_mkdir T F argv m) ≡ true
  unfolding cmd_mkdir
  cmd_mkdir_ends argv m = grind (arith, open_image_ends, fat_perror_ends)

  cmd_rm_ends :
      (argv : List CString) (m : Machine P.World F.State) → ends whatever (cmd_rm T F argv m) ≡ true
  unfolding cmd_rm
  cmd_rm_ends argv m = grind (arith, open_image_ends, fat_perror_ends)

  cmd_help_ends :
      (argv : List CString) (m : Machine P.World F.State)
      → ends whatever (cmd_help T F argv m) ≡ true
  unfolding cmd_help
  cmd_help_ends argv m = ground arith

  cmd_format_ends :
      (argv : List CString) (m : Machine P.World F.State)
      → ends whatever (cmd_format T F argv m) ≡ true
  unfolding cmd_format
  cmd_format_ends argv m = grind (arith, open_image_ends, fat_perror_ends)

  format_new_ends :
      (v : Volume) (label : Option CString) (fmt : Format) (m : Machine P.World F.State)
      → ends whatever (format_new T F v label fmt m) ≡ true
  unfolding format_new disk_map
  format_new_ends v label fmt m = grind (arith, volume_close_ends, fat_perror_ends)

  module _ (G : Progresses P) where
    cmd_create_ends :
        (argv : List CString) (m : Machine P.World F.State)
        → ends whatever (cmd_create T F argv m) ≡ true
    unfolding cmd_create create_sized
    cmd_create_ends argv m = grind (arith, create_image_ends T F G, format_new_ends)

    clone_volume_ends :
        (v : Volume) (path : CString) (m : Machine P.World F.State)
        → ends whatever (clone_volume T F v path m) ≡ true
    unfolding clone_volume
    clone_volume_ends (partition parent o b) path m = refl
    clone_volume_ends (image_file fd o b n) path m =
        let total = b * n % word_modulus in
        with_volume_ends (create_image T F path n) _ _ m (create_image_ends T F G path n m)
          (λ m1. ground (arith, close_volume_ends T F (image_file fd o b n) m1))
          λ d m1. clone_loop_ends T F G (suc total) (image_file fd o b n) d 0 total m1 (omega arith)

    cmd_clone_ends :
        (argv : List CString) (m : Machine P.World F.State)
        → ends whatever (cmd_clone T F argv m) ≡ true
    unfolding cmd_clone
    cmd_clone_ends argv m = grind (arith, open_image_ends, clone_volume_ends)

    run_command_ends :
        (fuel : ℕ) (c : Command) (argv : List CString) (m : Machine P.World F.State)
        → is_open_ended c ≡ false
        → ends whatever (run_command T F fuel c argv m) ≡ true
    unfolding run_command is_open_ended
    run_command_ends fuel clone argv m h = cmd_clone_ends argv m
    run_command_ends fuel create argv m h = cmd_create_ends argv m
    run_command_ends fuel format argv m h = cmd_format_ends argv m
    run_command_ends fuel get argv m h = cc
    run_command_ends fuel help argv m h = cmd_help_ends argv m
    run_command_ends fuel ls argv m h = cc
    run_command_ends fuel mkdir argv m h = cmd_mkdir_ends argv m
    run_command_ends fuel put argv m h = cc
    run_command_ends fuel rebuild argv m h = cc
    run_command_ends fuel rm argv m h = cmd_rm_ends argv m

    main_ends :
        (fuel : ℕ) (argv : List CString) (m : Machine P.World F.State)
        → ((word : CString) (c : Command)
            → get_elem? argv 1 ≡ some word
            → command_of word ≡ some c
            → is_open_ended c ≡ false)
        → ends whatever (main T F fuel argv m) ≡ true
    unfolding main
    main_ends fuel argv m closed = elim (Option-cases (get_elem? argv 1)) [
      | inl e ↦ rw (e, ends) refl
      | inr (word, e) ↦ elim (Option-cases (command_of word)) [
        | inl e' ↦ rw (e, e', ends) refl
        | inr (c, e') ↦ rw (e, e', ends) (run_command_ends fuel c argv m (closed word c e e'))
      ]
    ]

    -- Whatever fails, as long as the driver leaves the eight drives, no transfer moves more than it
    -- was asked to, and no write of some bytes moves none without failing: unless the command is get,
    -- ls, put or rebuild, `main` returns, if the name of an image to be made has three characters at
    -- least, and there are eight drives again. No fuel is needed.
    pub main_returns :
        KeepsDrives F
        → (fuel : ℕ) (argv : List CString) (m : Machine P.World F.State)
        → ((word : CString) (c : Command)
            → get_elem? argv 1 ≡ some word
            → command_of word ≡ some c
            → is_open_ended c ≡ false)
        → ((path : CString) → target argv ≡ some path → 3 ≤ length path)
        → full m.drives ≡ true
        → (status : ℤ) × (m' : Machine P.World F.State) × (main T F fuel argv m ≡ ok status m')
          × (full m'.drives ≡ true)
    main_returns K fuel argv m closed long drives =
        returns (λ status m'. full m'.drives) (main T F fuel argv m)
          (main_safe T F K fuel argv m long drives) (main_ends fuel argv m closed)
