-- ===== src/Cli/Edit.antt =====
-- `cmd_mkdir` and `cmd_rm` of src/hdfmonkey.c.
use hdfmonkey.Base.{
  List, true, none, some, if◌then◌else◌, get_elem?, text, ℤ, minus_one, pure, ◌>>=◌, call,
}
use hdfmonkey.Posix.{Posix, CString}
use hdfmonkey.FatFs.{FatFs}
use hdfmonkey.Libc.{Libc}
use hdfmonkey.Cli.Support.{MainCmd, success, complain, fat_failure, open_image, is_ok}

module _ {P : Posix} (T : Libc P) (F : FatFs P) where
  unfoldable pub cmd_mkdir : List CString → MainCmd T F ℤ
  cmd_mkdir argv = elim (get_elem? argv 2) [
    | none ↦ complain T F (text "No image filename supplied")
    | some image_filename ↦ elim (get_elem? argv 3) [
      | none ↦ complain T F (text "No directory name supplied")
      | some dir_name ↦ do
        r ← open_image T F image_filename true true
        elim r [
          | none ↦ pure minus_one
          | some vol ↦ do
            result ← call (F.f_mkdir dir_name)
            if is_ok result
                then pure success
                else fat_failure T F (text "Directory creation failed") result
        ]
    ]
  ]

  unfoldable pub cmd_rm : List CString → MainCmd T F ℤ
  cmd_rm argv = elim (get_elem? argv 2) [
    | none ↦ complain T F (text "No image filename supplied")
    | some image_filename ↦ elim (get_elem? argv 3) [
      | none ↦ complain T F (text "No filename supplied")
      | some filename ↦ do
        r ← open_image T F image_filename true true
        elim r [
          | none ↦ pure minus_one
          | some vol ↦ do
            result ← call (F.f_unlink filename)
            if is_ok result then pure success else fat_failure T F (text "Deletion failed") result
        ]
    ]
  ]
