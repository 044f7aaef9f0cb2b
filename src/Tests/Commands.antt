-- ===== src/Tests/Commands.antt =====
-- The commands, with a C library and a driver in memory.
use hdfmonkey.Base.{ℕ, ◌≡◌, refl, List, [], ◌∷◌, ◌++◌, none, same_bytes, text, ok, arith}
use hdfmonkey.Base.Slices.{slice}
use hdfmonkey.Posix.{CString}
use hdfmonkey.Posix.Memory.Disk.{open_file, fstat, read, write, lseek, ftruncate, close}
use hdfmonkey.ImageFile.Images.{image_file_is_hdf, raw_image_open, raw_image_create}
use hdfmonkey.Diskio.{disk_map}
use hdfmonkey.Libc.{Stream, stdout}
use hdfmonkey.Files.Memory.{streams, fat_files, file_view, fat_files-IsSound, fold_case, drive_of}
use hdfmonkey.Cli.Names.{concat_filename, filename_is_hdf}
use hdfmonkey.Cli.Support.{success, is_ok, create_image, open_image}
use hdfmonkey.Cli.Options.{parse_options}
use hdfmonkey.Files.{is_entry_name, is_name_character, all_characters, is_ended}
use hdfmonkey.Files.Trees.{TreeView, add, fresh}
use hdfmonkey.Files.Memory.Orderly.{tree_view, fat_files-IsOrderly, streams-Prints}
use hdfmonkey.Cli.Listing.{entry_name, cmd_ls}
use hdfmonkey.Cli.Listing.Prints.{lines_of, all_named, cmd_ls_prints}
use hdfmonkey.FatFs.{fat16}
use hdfmonkey.Cli.Rebuild.{copy_dir, cmd_rebuild}
use hdfmonkey.Cli.Rebuild.Onto.{formatted, both_closed}
use hdfmonkey.Cli.Rebuild.Command.{cmd_rebuild_copies}
use hdfmonkey.Cli.Rebuild.Trees.{entries_of, rounds, Lies, planted, names_below}
use hdfmonkey.Cli.Rebuild.Whole.{copy_dir_copies}
use hdfmonkey.Tests.Worlds.{ten}
use hdfmonkey.Tests.Samples.{after, FatState, image, tree, start, reading}

abbrev get_arguments : List CString
get_arguments = text "hdfmonkey" ∷ text "get" ∷ image ∷ text "a.txt" ∷ []

abbrev sent : FatState → Stream → List ℕ
sent m s = (file_view ten).written m.world s

abbrev put_arguments : List CString
put_arguments = text "hdfmonkey" ∷ text "put" ∷ image ∷ text "notes" ∷ text "a.txt/" ∷ []

abbrev trees : TreeView (streams ten) (fat_files ten)
trees = tree_view ten

copy_dir_copies_example :
    (m' : FatState) × (copy_dir (streams ten) (fat_files ten) 13 (text "0:") (text "1:") start
      ≡ ok success m')
    × ((file_view ten).files m'
        ≡ planted (file_view ten) trees (text "1:") tree ((file_view ten).files start))
    × (trees.on_drive m' 0 ≡ trees.on_drive start 0)
unfolding same_bytes fold_case drive_of entries_of rounds Lies entry_name concat_filename
    names_below fresh add is_entry_name is_name_character all_characters is_ended
copy_dir_copies_example =
    copy_dir_copies (streams ten) (fat_files ten) (file_view ten) (fat_files-IsSound ten) trees
      (fat_files-IsOrderly ten) tree 13 (text "0:") (text "1:") start refl (omega arith) refl
      (refl, refl, refl, refl, (refl, refl, refl, refl, tt), (refl, refl, refl, refl, tt)) refl refl

abbrev ls_arguments : List CString
ls_arguments = text "hdfmonkey" ∷ text "ls" ∷ image ∷ text "0:" ∷ []

cmd_ls_prints_example :
    (m' : FatState) × (cmd_ls (streams ten) (fat_files ten) 3 ls_arguments start ≡ ok success m')
    × (sent m' stdout
        ≡ sent reading stdout ++ lines_of (streams ten) (fat_files ten) (entries_of tree))
unfolding open_image image_file_is_hdf raw_image_open open_file fstat read close slice same_bytes
    disk_map is_ok fold_case drive_of entries_of all_named
cmd_ls_prints_example =
    cmd_ls_prints (streams ten) (fat_files ten) (file_view ten) trees (fat_files-IsOrderly ten)
      (streams-Prints ten) 3 ls_arguments image start reading 1 0 512 1 (entries_of tree) refl refl
      refl refl (omega arith)

abbrev rebuild_arguments : List CString
rebuild_arguments = text "hdfmonkey" ∷ text "rebuild" ∷ image ∷ text "--fat16" ∷ text "new.img" ∷ []

abbrev created : FatState
created = after (create_image (streams ten) (fat_files ten) (text "new.img") 1 reading) reading

abbrev new_drive : FatState
new_drive = formatted (streams ten) (fat_files ten) 1 0 512 1 2 0 512 1 none fat16 created

cmd_rebuild_copies_example :
    (m' : FatState) × (cmd_rebuild (streams ten) (fat_files ten) 13 rebuild_arguments start
      ≡ ok success (both_closed (streams ten) (fat_files ten) 1 0 512 1 2 0 512 1 m'))
    × ((file_view ten).files m'
        ≡ planted (file_view ten) trees (text "1:") tree ((file_view ten).files new_drive))
    × (trees.on_drive m' 0 ≡ trees.on_drive new_drive 0)
unfolding same_bytes fold_case drive_of entries_of rounds Lies entry_name concat_filename
    names_below fresh add is_entry_name is_name_character all_characters is_ended open_image
    image_file_is_hdf raw_image_open open_file fstat read write lseek ftruncate close slice disk_map
    is_ok parse_options filename_is_hdf create_image raw_image_create
cmd_rebuild_copies_example =
    cmd_rebuild_copies (streams ten) (fat_files ten) (file_view ten) trees (fat_files-IsSound ten)
      (fat_files-IsOrderly ten) tree 13 rebuild_arguments image (text "new.img") 1 0 512 1 2 0 512 1
      start reading created (record { counted = refl; first = refl; second = refl }) refl refl
      (omega arith) refl refl refl (omega arith) refl
      (refl, refl, refl, refl, (refl, refl, refl, refl, tt), (refl, refl, refl, refl, tt)) refl refl
