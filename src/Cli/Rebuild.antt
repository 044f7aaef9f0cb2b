-- ===== src/Cli/Rebuild.antt =====
-- `copy_dir` and `cmd_rebuild` of src/hdfmonkey.c. Fuel bounds the depth of the directories and the
-- rounds of each loop.
pub mod Copies
pub mod Trees
pub mod Entries
pub mod Whole
pub mod Onto
pub mod Command
use Prim.Native.Nat.{bit_and}
use hdfmonkey.Base.{
  ℕ, zero, suc, List, ◌++◌, true, false, ◌||◌, Option, none, some, ltb, ◌==◌, if◌then◌else◌, drop,
  length, text, ℤ, pos, minus_one, fault, out_of_fuel, pure, ◌>>=◌, ◌>>◌, call,
}
use hdfmonkey.Posix.{Posix, CString}
use hdfmonkey.Volume.{Volume, sector_count}
use hdfmonkey.Diskio.{disk_map}
use hdfmonkey.FatFs.{FatFs, FResult, Format, read_existing, write_always}
use hdfmonkey.Libc.{Libc}
use hdfmonkey.Cli.Names.{concat_filename}
use hdfmonkey.Cli.Listing.{entry_name}
use hdfmonkey.Cli.Support.{
  MainCmd, success, say, fat_failure, fat_perror, open_image, create_image, close_volume, complain,
  is_ok,
}
use hdfmonkey.Cli.Get.{buffer_size, close_file}
use hdfmonkey.Cli.Options.{no_options, parse_options}

module _ {P : Posix} (T : Libc P) (F : FatFs P) where
  abbrev copy_failed : CString → FResult → F.File → F.File → MainCmd T F ℤ
  copy_failed message result source_file destination_file = do
    fat_perror T F message result
    close_file T F source_file
    close_file T F destination_file
    pure minus_one

  -- The `do` loop: the last buffer, perhaps an empty one, is written too.
  unfoldable pub copy_loop : (fuel : ℕ) → F.File → F.File → MainCmd T F ℤ
  copy_loop zero source_file destination_file = λ m. out_of_fuel
  copy_loop (suc fuel) source_file destination_file = do
    (result, buffer, source) ← call (F.f_read source_file buffer_size)
    if is_ok result
        then (do
          (written, bytes_written, destination) ← call (F.f_write destination_file buffer)
          if is_ok written
              then (if length buffer == buffer_size
                  then copy_loop fuel source destination
                  else (do close_file T F source; close_file T F destination; pure success))
              else copy_failed (text "Error writing file") written source destination)
        else copy_failed (text "Error reading file") result source destination_file

  -- An entry that is not a directory.
  unfoldable pub copy_file : (fuel : ℕ) → CString → CString → MainCmd T F ℤ
  copy_file fuel source_filename destination_filename = do
    (result, source_file) ← call (F.f_open source_filename read_existing)
    if is_ok result
        then (do
          (made, destination_file) ← call (F.f_open destination_filename write_always)
          if is_ok made then copy_loop fuel source_file destination_file else (do
            fat_perror T F (text "Error opening destination file") made
            close_file T F source_file
            pure minus_one))
        else (do
          say T F (text "error on file " ++ source_filename)
          fat_failure T F (text "Error opening source file") result)

  unfoldable mutual
    pub copy_dir : (fuel : ℕ) → CString → CString → MainCmd T F ℤ
    copy_dir zero source_dirname destination_dirname = λ m. out_of_fuel
    copy_dir (suc fuel) source_dirname destination_dirname = do
      (result, source_dir) ← call (F.f_opendir source_dirname)
      if is_ok result
          then copy_entries fuel source_dir source_dirname destination_dirname
          else fat_failure T F (text "Error opening source directory") result

    -- The loop over `f_readdir`, which an empty name ends.
    pub copy_entries : (fuel : ℕ) → F.Dir → CString → CString → MainCmd T F ℤ
    copy_entries zero source_dir source_dirname destination_dirname = λ m. out_of_fuel
    copy_entries (suc fuel) source_dir source_dirname destination_dirname = do
      (result, info, rest) ← call (F.f_readdir source_dir)
      let source_filename = concat_filename source_dirname (entry_name info)
      let destination_filename = concat_filename destination_dirname (entry_name info)
      if is_ok result
          then (if length info.fname == 0 then pure success else (do
            status ←
                (if bit_and info.fattrib 16 == 0
                  then copy_file fuel source_filename destination_filename
                  else (do
                    made ← call (F.f_mkdir destination_filename)
                    if is_ok made
                        then copy_dir fuel source_filename destination_filename
                        else fat_failure T F (text "Error creating directory") made))
            elim status [
              | pos zero ↦ copy_entries fuel rest source_dirname destination_dirname
              | _ ↦ pure minus_one
            ]))
          else fat_failure T F (text "Error reading dir") result

  -- Both images are closed; what `copy_dir` returned is not looked at.
  abbrev pub close_images : Volume → Volume → ℤ → MainCmd T F ℤ
  close_images source_vol destination_vol status = do
    close_volume T F source_vol
    close_volume T F destination_vol
    pure status

  unfoldable pub rebuild_onto :
      (fuel : ℕ) → Volume → Volume → Option CString → Format → MainCmd T F ℤ
  rebuild_onto fuel source_vol destination_vol volumelabel fmt = do
    mapped ← disk_map P F.State 1 destination_vol
    mounted ← call (F.f_mount 1)
    if is_ok mounted
        then (do
          result ← call (F.f_mkfs 1 volumelabel fmt)
          if is_ok result
              then (do
                status ← copy_dir fuel (text "0:") (text "1:")
                close_images source_vol destination_vol success)
              else (do
                fat_perror T F (text "Formatting failed") result
                close_images source_vol destination_vol minus_one))
        else (do say T F (text "mount failed"); close_images source_vol destination_vol minus_one)

  unfoldable pub rebuild_from :
      (fuel : ℕ) → CString → CString → Option CString → Format → MainCmd T F ℤ
  rebuild_from fuel source_filename destination_filename volumelabel fmt = do
    r ← open_image T F source_filename true false
    elim r [
      | none ↦ pure minus_one
      | some source_vol ↦ elim (sector_count source_vol) [
        | none ↦ λ m. fault
        | some n ↦ do
          made ← create_image T F destination_filename n
          elim made [
            | none ↦ do close_volume T F source_vol; pure minus_one
            | some destination_vol ↦ rebuild_onto fuel source_vol destination_vol volumelabel fmt
          ]
      ]
    ]

  unfoldable pub cmd_rebuild : (fuel : ℕ) → List CString → MainCmd T F ℤ
  cmd_rebuild fuel argv =
      let o = parse_options (drop 2 argv) no_options in
      if ltb o.arg_num 2 || ltb 3 o.arg_num
      then complain T F (
          text
            "Usage: hdfmonkey rebuild [--fat12|--fat16|--fat32] <source-image-file> <destination-image-file> [volumelabel]")
      else elim o.arg_0 [
        | none ↦ λ m. fault
        | some source_filename ↦ elim o.arg_1 [
          | none ↦ λ m. fault
          | some destination_filename ↦
              rebuild_from fuel source_filename destination_filename o.arg_2 o.fmt
        ]
      ]
