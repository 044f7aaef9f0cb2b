-- ===== src/Cli/Create.antt =====
-- `cmd_format` and `cmd_create` of src/hdfmonkey.c. A character constant is written as its code.
use hdfmonkey.Base.{
  ℕ, List, [], ◌∷◌, ◌++◌, true, ◌||◌, Option, none, some, ltb, ◌==◌, if◌then◌else◌, drop, text, ℤ,
  minus_one, fault, pure, ◌>>=◌, ◌>>◌, call,
}
use hdfmonkey.Posix.{Posix, CString}
use hdfmonkey.Volume.{Volume}
use hdfmonkey.Diskio.{disk_map}
use hdfmonkey.FatFs.{FatFs, Format}
use hdfmonkey.Libc.{Libc}
use hdfmonkey.Cli.Support.{
  MainCmd, success, say, complain, fat_failure, fat_perror, open_image, create_image, close_volume,
  is_ok,
}
use hdfmonkey.Cli.Options.{no_options, parse_options}

-- The character that `unit` points at.
abbrev pub first_char : CString → ℕ
first_char [] = 0
first_char (c ∷ s) = c

-- The power of 2 that a unit stands for; `none` for an unknown one.
unfoldable pub unit_scale : (unit : ℕ) → Option ℕ
unit_scale unit =
    if unit == 71 || unit == 103
    then some 1073741824
    else if unit == 77 || unit == 109
    then some 1048576
    else if unit == 75 || unit == 107
    then some 1024
    else if unit == 66 || unit == 98 || unit == 0
    then some 1
    else none

module _ {P : Posix} (T : Libc P) (F : FatFs P) where
  unfoldable pub cmd_format : List CString → MainCmd T F ℤ
  cmd_format argv =
      let o = parse_options (drop 2 argv) no_options in
      if ltb o.arg_num 1 || ltb 2 o.arg_num
      then complain T F
          (text "Usage: hdfmonkey format [--fat12|--fat16|--fat32] <imagefile> [volumelabel]")
      else elim o.arg_0 [
        | none ↦ λ m. fault
        | some image_filename ↦ do
          r ← open_image T F image_filename true true
          elim r [
            | none ↦ pure minus_one
            | some vol ↦ do
              result ← call (F.f_mkfs 0 o.arg_1 o.fmt)
              if is_ok result
                  then pure success
                  else fat_failure T F (text "Formatting failed") result
          ]
      ]

  -- What `cmd_create` does with the new image.
  unfoldable pub format_new : Volume → Option CString → Format → MainCmd T F ℤ
  format_new vol volumelabel fmt = do
    mapped ← disk_map P F.State 0 vol
    mounted ← call (F.f_mount 0)
    if is_ok mounted
        then (do
          result ← call (F.f_mkfs 0 volumelabel fmt)
          if is_ok result then (do close_volume T F vol; pure success) else (do
            fat_perror T F (text "Formatting failed") result
            close_volume T F vol
            pure minus_one))
        else (do say T F (text "mount failed"); close_volume T F vol; pure minus_one)

  unfoldable pub create_sized : CString → CString → Option CString → Format → MainCmd T F ℤ
  create_sized image_filename size volumelabel fmt =
      let (unconverted_size, unit) = T.strtod size in
      elim (unit_scale (first_char unit)) [
        | none ↦ complain T F (text "Unrecognised size unit specifier: " ++ (first_char unit ∷ []))
        | some scale ↦ do
          r ← create_image T F image_filename (T.sectors_of unconverted_size scale)
          elim r [ none ↦ pure minus_one | some vol ↦ format_new vol volumelabel fmt ]
      ]

  unfoldable pub cmd_create : List CString → MainCmd T F ℤ
  cmd_create argv =
      let o = parse_options (drop 2 argv) no_options in
      if ltb o.arg_num 2 || ltb 3 o.arg_num
      then complain T F (
          text "Usage: hdfmonkey create [--fat12|--fat16|--fat32] <imagefile> <size> [volumelabel]")
      else elim o.arg_0 [
        | none ↦ λ m. fault
        | some image_filename ↦ elim o.arg_1 [
          | none ↦ λ m. fault
          | some size ↦ create_sized image_filename size o.arg_2 o.fmt
        ]
      ]
