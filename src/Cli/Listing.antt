-- ===== src/Cli/Listing.antt =====
-- `cmd_ls` of src/hdfmonkey.c.
pub mod Prints
use Prim.Native.Nat.{bit_and}
use hdfmonkey.Base.{
  ℕ, zero, suc, List, [], ◌∷◌, ◌++◌, Bool, true, false, Option, none, some, ◌==◌, if◌then◌else◌,
  get_elem?, text, ℤ, minus_one, out_of_fuel, pure, ◌>>=◌, ◌>>◌, call,
}
use hdfmonkey.Posix.{Posix, CString}
use hdfmonkey.Volume.{Volume}
use hdfmonkey.FatFs.{FatFs, FileInfo}
use hdfmonkey.Libc.{Libc}
use hdfmonkey.Cli.Support.{
  MainCmd, line, success, complain, fat_failure, open_image, is_ok, in_the_world, close_volume,
}

abbrev pub is_empty : CString → Bool
is_empty [] = true
is_empty (c ∷ s) = false

-- `fattrib & AM_DIR`
abbrev pub is_dir_entry : FileInfo → Bool
is_dir_entry info = if bit_and info.fattrib 0x10 == 0 then false else true

-- The long name if there is one.
unfoldable pub entry_name : FileInfo → CString
entry_name info = if is_empty info.lfname then info.fname else info.lfname

module _ {P : Posix} (T : Libc P) (F : FatFs P) where
  unfoldable pub entry_line : FileInfo → CString
  entry_line info =
      (if is_dir_entry info then text "[DIR]" else T.show_long info.fsize)
      ++ (9 ∷ line (entry_name info))

  -- An entry with no name ends the directory.
  unfoldable pub ls_loop : (fuel : ℕ) → Volume → F.Dir → MainCmd T F ℤ
  ls_loop zero vol dir = λ m. out_of_fuel
  ls_loop (suc fuel) vol dir = do
    (result, info, dir') ← call (F.f_readdir dir)
    if is_ok result
        then (if is_empty info.fname
            then (do close_volume T F vol; pure success)
            else (do in_the_world T F (T.print (entry_line info)); ls_loop fuel vol dir'))
        else fat_failure T F (text "Error reading dir") result

  abbrev pub dirname : Option CString → CString
  dirname none = []
  dirname (some path) = path

  unfoldable pub cmd_ls : (fuel : ℕ) → List CString → MainCmd T F ℤ
  cmd_ls fuel argv = elim (get_elem? argv 2) [
    | none ↦ complain T F (text "No image filename supplied")
    | some image_filename ↦ do
      r ← open_image T F image_filename true false
      elim r [
        | none ↦ pure minus_one
        | some vol ↦ do
          (result, dir) ← call (F.f_opendir (dirname (get_elem? argv 3)))
          if is_ok result
              then ls_loop fuel vol dir
              else fat_failure T F (text "Error opening dir") result
      ]
  ]
