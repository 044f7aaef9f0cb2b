-- ===== src/Cli/Help.antt =====
-- `cmd_help` of src/hdfmonkey.c.
use hdfmonkey.Base.{
  List, [], ◌∷◌, ◌++◌, none, some, if◌then◌else◌, get_elem?, text, same_bytes, ℤ, pure, ◌>>◌,
}
use hdfmonkey.Posix.{Posix, CString}
use hdfmonkey.FatFs.{FatFs}
use hdfmonkey.Libc.{Libc}
use hdfmonkey.Cli.Support.{MainCmd, success, line, in_the_world}

-- The texts of several lines put together.
unfoldable pub lines : List CString → CString
lines [] = []
lines (s ∷ rest) = line s ++ lines rest

abbrev pub tabbed : CString → CString
tabbed s = 9 ∷ s

unfoldable pub overview : CString
unfolding lines
overview = lines (
    text "hdfmonkey: utility for manipulating HDF disk images"
    ∷ []
    ∷ text "usage: hdfmonkey <command> [args]"
    ∷ []
    ∷ text "Type 'hdfmonkey help <command>' for help on a specific command."
    ∷ text "Available commands:"
    ∷ tabbed (text "clone")
    ∷ tabbed (text "create")
    ∷ tabbed (text "format")
    ∷ tabbed (text "get")
    ∷ tabbed (text "help")
    ∷ tabbed (text "ls")
    ∷ tabbed (text "mkdir")
    ∷ tabbed (text "put")
    ∷ tabbed (text "rebuild")
    ∷ tabbed (text "rm")
    ∷ [])

-- The text of `help <command>`, for any word.
unfoldable pub topic : CString → CString
unfolding lines same_bytes
topic word =
    if same_bytes word (text "clone")
    then lines (
        text
          "clone: Make a new image file from a disk or image, possibly in a different container format"
        ∷ text "usage: hdfmonkey clone <oldimagefile> <newimagefile>"
        ∷ [])
    else if same_bytes word (text "create")
    then lines (
        text "create: Create a new FAT-formatted image file"
        ∷ text "usage: hdfmonkey create [--fat12|--fat16|--fat32] <imagefile> <size> [volumelabel]"
        ∷ text "Size is given in bytes (B), kilobytes (K), megabytes (M) or gigabytes (G) -"
        ∷ text "e.g. 64M, 1.5G"
        ∷ [])
    else if same_bytes word (text "format")
    then lines (
        text "format: Formats the entire disk image as a FAT filesystem"
        ∷ text "usage: hdfmonkey format [--fat12|--fat16|--fat32] <imagefile> [volumelabel]"
        ∷ [])
    else if same_bytes word (text "get")
    then lines (
        text "get: Copy a file from the disk image to a local file"
        ∷ text "usage: hdfmonkey get <imagefile> <sourcefile> [destfile]"
        ∷ text "Will write the file to standard output if no destination file is specified."
        ∷ [])
    else if same_bytes word (text "help")
    then lines (
        text "help: Describe the usage of this program or its commands."
        ∷ text "usage: hdfmonkey help [command]"
        ∷ [])
    else if same_bytes word (text "ls")
    then lines (
        text "ls: Show a directory listing"
        ∷ text "usage: hdfmonkey ls <imagefile> [path]"
        ∷ text "Will list the root directory if no path is specified."
        ∷ [])
    else if same_bytes word (text "mkdir")
    then lines (
        text "mkdir: Create a directory" ∷ text "usage: hdfmonkey mkdir <imagefile> <dirname>" ∷ [])
    else if same_bytes word (text "put")
    then lines (
        text "put: Copy local files to the disk image"
        ∷ text "usage: hdfmonkey put <image-file> <source-files> <dest-file-or-dir>"
        ∷ [])
    else if same_bytes word (text "rebuild")
    then lines (
        text "rebuild: Copy contents of the source image file-by-file to a new disk image;"
        ∷ tabbed (text "ensures that the resulting image is unfragmented.")
        ∷ text
            "usage: hdfmonkey rebuild [--fat12|--fat16|--fat32] <source-image-file> <destination-image-file> [volumelabel]"
        ∷ [])
    else if same_bytes word (text "rm")
    then lines (
        text "rm: Remove a file or directory"
        ∷ text "usage: hdfmonkey rm <imagefile> <filename>"
        ∷ text "Directories must be empty before they can be deleted."
        ∷ [])
    else line (text "Unknown command: '" ++ word ++ text "'")

module _ {P : Posix} (T : Libc P) (F : FatFs P) where
  unfoldable pub cmd_help : List CString → MainCmd T F ℤ
  unfolding overview topic
  cmd_help argv = elim (get_elem? argv 2) [
    | none ↦ do in_the_world T F (T.print overview); pure success
    | some word ↦ do in_the_world T F (T.print (topic word)); pure success
  ]
