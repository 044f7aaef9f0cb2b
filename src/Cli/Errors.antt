-- ===== src/Cli/Errors.antt =====
-- How the commands of src/hdfmonkey.c fail before they have an image.
use hdfmonkey.Base.{
  ℕ, zero, suc, ◌≡◌, refl, ◌∙◌, List, [], ◌∷◌, Bool, true, false, ◌||◌, none, some, ltb, length,
  drop, get_elem?, minus_one, text, ok, arith, Option-cases, inl, inr,
}
use hdfmonkey.Posix.{Posix, CString}
use hdfmonkey.Machine.{Machine}
use hdfmonkey.FatFs.{FatFs}
use hdfmonkey.Libc.{Libc}
use hdfmonkey.Cli.Support.{line}
use hdfmonkey.Cli.Options.{no_options, parse_options}
use hdfmonkey.Cli.Clone.{cmd_clone}
use hdfmonkey.Cli.Create.{cmd_create, cmd_format}
use hdfmonkey.Cli.Edit.{cmd_mkdir, cmd_rm}
use hdfmonkey.Cli.Get.{cmd_get}
use hdfmonkey.Cli.Listing.{cmd_ls}
use hdfmonkey.Cli.Put.{cmd_put}
use hdfmonkey.Cli.Rebuild.{cmd_rebuild}
use hdfmonkey.Cli.Main.{
  Command, clone, create, format, get, help, ls, mkdir, put, rebuild, rm, command_of, run_command,
  main,
}

-- The number of arguments beside the flags is out of bounds.
abbrev pub miscounted : (least most : ℕ) → List CString → Bool
miscounted least most argv =
    let n = (parse_options (drop 2 argv) no_options).arg_num in ltb n least || ltb most n

-- The command refuses the number of its arguments: `argv` has fewer words than it asks for or, beside
-- flags, there are fewer or more than it takes.
unfoldable pub lacks : Command → List CString → Bool
lacks clone argv = ltb (length argv) 4
lacks create argv = miscounted 2 3 argv
lacks format argv = miscounted 1 2 argv
lacks get argv = ltb (length argv) 4
lacks help argv = false
lacks ls argv = ltb (length argv) 3
lacks mkdir argv = ltb (length argv) 4
lacks put argv = ltb (length argv) 4
lacks rebuild argv = miscounted 2 3 argv
lacks rm argv = ltb (length argv) 4

-- The second text where the image is given.
abbrev one_of : List CString → (missing_image missing_other : CString) → CString
one_of argv missing_image missing_other = elim (get_elem? argv 2) [
  | none ↦ missing_image
  | some image ↦ missing_other
]

-- The message that tells so.
unfoldable pub complaint : Command → List CString → CString
complaint clone argv =
    one_of argv (text "No source image filename supplied")
      (text "No destination image filename supplied")
complaint create argv =
    text "Usage: hdfmonkey create [--fat12|--fat16|--fat32] <imagefile> <size> [volumelabel]"
complaint format argv =
    text "Usage: hdfmonkey format [--fat12|--fat16|--fat32] <imagefile> [volumelabel]"
complaint get argv =
    one_of argv (text "No image filename supplied") (text "No source filename supplied")
complaint help argv = []
complaint ls argv = text "No image filename supplied"
complaint mkdir argv =
    one_of argv (text "No image filename supplied") (text "No directory name supplied")
complaint put argv =
    text "Usage: hdfmonkey put <image_file> <source_files> <destination_file_or_dir>"
complaint rebuild argv =
    text
      "Usage: hdfmonkey rebuild [--fat12|--fat16|--fat32] <source-image-file> <destination-image-file> [volumelabel]"
complaint rm argv = one_of argv (text "No image filename supplied") (text "No filename supplied")

pub elem-none : (xs : List CString) (i : ℕ) → ltb (length xs) (suc i) ≡ true → get_elem? xs i ≡ none
elem-none [] i h = refl
elem-none (x ∷ xs) zero h = ground arith
elem-none (x ∷ xs) (suc i) h = elem-none xs i (ground arith)

module _ {P : Posix} (T : Libc P) (F : FatFs P) where
  pub main_run :
      (fuel : ℕ) (argv : List CString) (word : CString) (c : Command) (m : Machine P.World F.State)
      → get_elem? argv 1 ≡ some word
      → command_of word ≡ some c
      → main T F fuel argv m ≡ run_command T F fuel c argv m
  unfolding main
  main_run fuel argv word c m e e' = rw (main, e, e') refl

  run_command_lacking :
      (c : Command) (fuel : ℕ) (argv : List CString) (m : Machine P.World F.State)
      → lacks c argv ≡ true
      → run_command T F fuel c argv m
        ≡ ok minus_one (record m { world = T.print (line (complaint c argv)) m.world })
  unfolding run_command lacks complaint cmd_clone cmd_create cmd_format cmd_get cmd_ls cmd_mkdir
      cmd_put cmd_rebuild cmd_rm
  run_command_lacking create fuel argv m h = rw h refl
  run_command_lacking format fuel argv m h = rw h refl
  run_command_lacking rebuild fuel argv m h = rw h refl
  run_command_lacking put fuel argv m h = rw h refl
  run_command_lacking help fuel argv m h = cc
  run_command_lacking ls fuel argv m h = rw (cmd_ls, complaint, one_of, elem-none argv 2 h) refl
  run_command_lacking clone fuel argv m h = elim (Option-cases (get_elem? argv 2)) [
    | inl e ↦ rw (cmd_clone, complaint, one_of, e) refl
    | inr (image, e) ↦ rw (cmd_clone, complaint, one_of, e, elem-none argv 3 h) refl
  ]
  run_command_lacking get fuel argv m h = elim (Option-cases (get_elem? argv 2)) [
    | inl e ↦ rw (cmd_get, complaint, one_of, e) refl
    | inr (image, e) ↦ rw (cmd_get, complaint, one_of, e, elem-none argv 3 h) refl
  ]
  run_command_lacking mkdir fuel argv m h = elim (Option-cases (get_elem? argv 2)) [
    | inl e ↦ rw (cmd_mkdir, complaint, one_of, e) refl
    | inr (image, e) ↦ rw (cmd_mkdir, complaint, one_of, e, elem-none argv 3 h) refl
  ]
  run_command_lacking rm fuel argv m h = elim (Option-cases (get_elem? argv 2)) [
    | inl e ↦ rw (cmd_rm, complaint, one_of, e) refl
    | inr (image, e) ↦ rw (cmd_rm, complaint, one_of, e, elem-none argv 3 h) refl
  ]

  -- When `clone`, `get`, `mkdir`, `put` or `rm` has fewer than two arguments, `ls` none, or `create`
  -- or `rebuild` not two or three, `format` not one or two beside the flags, `main` returns -1, and
  -- has done nothing but print what is missing, or how the command is used.
  pub main_lacking :
      (fuel : ℕ) (argv : List CString) (word : CString) (c : Command) (m : Machine P.World F.State)
      → get_elem? argv 1 ≡ some word
      → command_of word ≡ some c
      → lacks c argv ≡ true
      → main T F fuel argv m
        ≡ ok minus_one (record m { world = T.print (line (complaint c argv)) m.world })
  main_lacking fuel argv word c m w e g =
      main_run fuel argv word c m w e ∙ run_command_lacking c fuel argv m g
