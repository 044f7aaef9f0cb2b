-- ===== src/Tests/Programs.antt =====
-- The option loop and `cmd_clone`, with a C library and a driver that do nothing.
use hdfmonkey.Base.{
  ok, ◌/◌, ℕ, [], ◌∷◌, List, ◌++◌, ◌*◌, ◌≡◌, none, false, same_bytes, refl, arith, replicate, text,
}
use hdfmonkey.Base.Slices.{slice}
use hdfmonkey.Posix.{CString, update_file}
use hdfmonkey.Posix.Memory.Disk.{Disk, memory, memory_view}
use hdfmonkey.Volume.{image_file}
use hdfmonkey.ImageFile.Header.{header_bytes}
use hdfmonkey.Machine.{Machine}
use hdfmonkey.FatFs.{FatFs, fr_not_ready}
use hdfmonkey.Libc.{Libc}
use hdfmonkey.Cli.Names.{filename_is_hdf}
use hdfmonkey.Cli.Options.{no_options, parse_options}
use hdfmonkey.Cli.Options.Laws.{IsCollected, parse_options-IsCollected}
use hdfmonkey.Cli.Support.{success}
use hdfmonkey.Cli.Clone.{cmd_clone}
use hdfmonkey.Cli.Clone.Back.{cmd_clone-cmd_clone}
use hdfmonkey.Cli.Clone.Command.{cmd_clone_raw, cmd_clone_hdf}
use hdfmonkey.Tests.Worlds.{disk_path, disk_of, prompt, ten, healthy, machine}

abbrev libc : Libc (memory ten)
libc = record {
  print = λ message w. w;
  show_long = λ n. [];
  stat_mode = λ path w. (none, w);
  basename = λ path. (path, path);
  Double = ℕ;
  strtod = λ s. (0, s);
  sectors_of = λ x scale. x * scale;
  fopen_write = λ path w. (none, w);
  fopen_read = λ path w. (none, w);
  fread = λ s n w. ([], w);
  ferror = λ s w. false;
  fwrite = λ s bytes w. w;
  fclose = λ s w. w;
  opendir = λ path w. (none, w);
  readdir = λ d w. (none, w);
  closedir = λ d w. w;
}

abbrev driver : FatFs (memory ten)
driver = record {
  State = Unit;
  File = Unit;
  Dir = Unit;
  f_mount = λ d m. (fr_not_ready, m);
  f_mkfs = λ d label fmt m. (fr_not_ready, m);
  f_open = λ path mode m. ((fr_not_ready, tt), m);
  f_read = λ file n m. ((fr_not_ready, [], tt), m);
  f_write = λ file bytes m. ((fr_not_ready, 0, tt), m);
  f_close = λ file m. (fr_not_ready, m);
  f_opendir = λ path m. ((fr_not_ready, tt), m);
  f_readdir =
      λ dir m. ((fr_not_ready, record { fsize = 0; fattrib = 0; fname = []; lfname = [] }, tt), m);
  f_mkdir = λ path m. (fr_not_ready, m);
  f_unlink = λ path m. (fr_not_ready, m);
}

-- create a --fat16 64M --fat32 label
abbrev arguments : List CString
arguments = text "a" ∷ text "--fat16" ∷ text "64M" ∷ text "--fat32" ∷ text "label" ∷ []

parse_options-IsCollected_example :
    IsCollected (parse_options arguments no_options) (text "a" ∷ text "64M" ∷ text "label" ∷ [])
unfolding hdfmonkey.Cli.Options.Laws.plain same_bytes
parse_options-IsCollected_example = parse_options-IsCollected arguments

-- A raw image of one sector and some bytes, which are left out.
abbrev raw_bytes : List ℕ
raw_bytes = replicate {A = ℕ} 520 7

abbrev clone_arguments : List CString
clone_arguments = text "hdfmonkey" ∷ text "clone" ∷ disk_path ∷ text "copy.img" ∷ []

abbrev start : Machine Disk (Unit {0})
start = machine (image_file 0 0 512 0) (disk_of raw_bytes)

cmd_clone_raw_example :
    (m' : Machine Disk (Unit {0})) × (cmd_clone libc driver clone_arguments start ≡ ok success m')
    × ((memory_view ten).files m'.world
        ≡ update_file
            ((memory_view ten).files start.world)
            (text "copy.img")
            (slice 0 (520 / 512 * 512) raw_bytes))
    × ((memory_view ten).fds m'.world ≡ (memory_view ten).fds start.world)
unfolding same_bytes filename_is_hdf slice
cmd_clone_raw_example =
    cmd_clone_raw libc driver start (memory_view ten) healthy prompt clone_arguments disk_path
      (text "copy.img") raw_bytes (omega arith) refl refl refl refl refl (omega arith) refl

abbrev clone_hdf_arguments : List CString
clone_hdf_arguments = text "hdfmonkey" ∷ text "clone" ∷ disk_path ∷ text "copy.hdf" ∷ []

cmd_clone_hdf_example :
    (m' : Machine Disk (Unit {0})) × (cmd_clone libc driver clone_hdf_arguments start
      ≡ ok success m')
    × ((memory_view ten).files m'.world
        ≡ update_file
            ((memory_view ten).files start.world)
            (text "copy.hdf")
            (header_bytes (520 / 512) ++ slice 0 (520 / 512 * 512) raw_bytes))
    × ((memory_view ten).fds m'.world ≡ (memory_view ten).fds start.world)
unfolding same_bytes filename_is_hdf slice
cmd_clone_hdf_example =
    cmd_clone_hdf libc driver start (memory_view ten) healthy prompt clone_hdf_arguments disk_path
      (text "copy.hdf") raw_bytes (omega arith) refl refl refl refl refl (omega arith) (omega arith)
      refl

abbrev back_arguments : List CString
back_arguments = text "hdfmonkey" ∷ text "clone" ∷ text "copy.hdf" ∷ text "back.img" ∷ []

cmd_clone-cmd_clone_example :
    (m1 m2 : Machine Disk (Unit {0})) × (cmd_clone libc driver clone_hdf_arguments start
      ≡ ok success m1)
    × (cmd_clone libc driver back_arguments (record start { world = m1.world }) ≡ ok success m2)
    × ((memory_view ten).files m2.world
        ≡ update_file
            (update_file
              ((memory_view ten).files start.world)
              (text "copy.hdf")
              (header_bytes (520 / 512) ++ slice 0 (520 / 512 * 512) raw_bytes))
            (text "back.img")
            (slice 0 (520 / 512 * 512) raw_bytes))
    × ((memory_view ten).fds m2.world ≡ (memory_view ten).fds start.world)
unfolding same_bytes filename_is_hdf slice
cmd_clone-cmd_clone_example =
    cmd_clone-cmd_clone libc driver (memory_view ten) healthy prompt start start clone_hdf_arguments
      back_arguments disk_path (text "copy.hdf") (text "back.img") raw_bytes (omega arith)
      (omega arith) refl refl refl refl refl refl (omega arith) refl refl refl refl
