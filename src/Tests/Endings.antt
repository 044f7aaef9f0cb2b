-- ===== src/Tests/Endings.antt =====
-- How the commands end, with a C library and a driver in memory.
use hdfmonkey.Base.{
  Bool, false, ℤ, minus_one, ◌≡◌, refl, List, [], ◌∷◌, ◌++◌, true, same_bytes, text, ok, arith,
}
use hdfmonkey.Base.Safety.{holds}
use hdfmonkey.Posix.{CString}
use hdfmonkey.Files.Memory.{streams, fat_files, FileObject, close_object}
use hdfmonkey.FatFs.{OpenMode, read_existing, write_always}
use hdfmonkey.Cli.Options.{parse_options}
use hdfmonkey.Cli.Errors.{lacks, complaint, main_lacking}
use hdfmonkey.Cli.Main.{get, main, command_of}
use hdfmonkey.Cli.Safety.{KeepsDrives, full}
use hdfmonkey.Posix.Memory.Progress.{memory-Progresses}
use hdfmonkey.Cli.Ends.Main.{is_open_ended, main_returns}
use hdfmonkey.Cli.Safety.Main.{main_safe}
use hdfmonkey.Tests.Worlds.{ten}
use hdfmonkey.Tests.Samples.{create_arguments, FatState, image, start}

closes :
    (f : FileObject) (live : Bool) (mode : OpenMode) (m : FatState)
    → (close_object f live mode m).drives ≡ m.drives
closes f true write_always m = refl
closes f true read_existing m = refl
closes f false mode m = refl

keeps_drives : KeepsDrives (fat_files ten)
keeps_drives = record {
  f_mount = λ d m. refl;
  f_mkfs = λ d label fmt m. refl;
  f_open = λ path mode m. ground arith;
  f_read = λ f n m. refl;
  f_write = λ f bytes m. refl;
  f_close = λ f m. closes f (m.fat.opened f.path) f.mode m;
  f_opendir = λ path m. ground arith;
  f_readdir = λ d m. refl;
  f_mkdir = λ path m. ground arith;
  f_unlink = λ path m. refl;
}

main_safe_example :
    holds
      (λ status m'. full m'.drives)
      (main (streams ten) (fat_files ten) 9 (create_arguments (text "new.hdf")) start)
    ≡ true
unfolding full parse_options command_of same_bytes
main_safe_example =
    main_safe (streams ten) (fat_files ten) keeps_drives 9 (create_arguments (text "new.hdf")) start
      (λ path e. ground arith) refl

main_returns_example :
    (status : ℤ) × (m' : FatState) × (main
        (streams ten)
        (fat_files ten)
        0
        (create_arguments (text "new.hdf"))
        start
      ≡ ok status m')
    × (full m'.drives ≡ true)
unfolding full parse_options command_of same_bytes is_open_ended
main_returns_example =
    main_returns (streams ten) (fat_files ten) (memory-Progresses ten) keeps_drives 0
      (create_arguments (text "new.hdf")) start (λ word c e e'. ground arith)
      (λ path e. ground arith) refl

abbrev usage_arguments : List CString
usage_arguments = text "hdfmonkey" ∷ text "get" ∷ image ∷ []

main_lacking_example :
    main (streams ten) (fat_files ten) 0 usage_arguments start
    ≡ ok minus_one (record start {
      world = (streams ten).print (text "No source filename supplied" ++ (10 ∷ [])) start.world;
    })
unfolding command_of same_bytes lacks complaint
main_lacking_example =
    main_lacking (streams ten) (fat_files ten) 0 usage_arguments (text "get") get start refl refl
      refl
